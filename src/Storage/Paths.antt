-- ===== src/Storage/Paths.antt =====
-- path/filepath as internal/storage/filesystem.go uses it, on a system whose separator is a slash.
pub mod Inside
use distri_max.Prelude.{
  Bool, true, false, not, ◌&&◌, ◌||◌, List, [], ◌∷◌, ◌++◌, Option, none, some, Text, lit, ◌==◌,
  split, strip_prefix, is_some, if◌then◌else◌,
}

-- A rooted path starts with a slash.
unfoldable pub is_abs : Text → Bool
is_abs path = is_some (strip_prefix (lit "/") path)

-- The first name on the stack is the last one of the path so far.
abbrev pub pop_name : Bool → List Text → List Text
pop_name rooted [] = if rooted then [] else lit ".." ∷ []
pop_name rooted (top ∷ names) = if top == lit ".." then lit ".." ∷ top ∷ names else names

unfoldable pub push_name : Bool → Text → List Text → List Text
push_name rooted name names =
    if (name == []) || (name == lit ".")
    then names
    else if name == lit ".."
    then pop_name rooted names
    else name ∷ names

unfoldable pub clean_names : Bool → List Text → List Text → List Text
clean_names rooted names [] = names
clean_names rooted names (name ∷ rest) = clean_names rooted (push_name rooted name names) rest

-- The names of a stack, with slashes between them, in front of a text.
unfoldable pub join_names : List Text → Text → Text
join_names [] s = s
join_names (name ∷ []) s = name ++ s
join_names (name ∷ below ∷ names) s = join_names (below ∷ names) (b'/' ∷ (name ++ s))

abbrev pub rendered : Bool → List Text → Text
rendered true names = b'/' ∷ join_names names []
rendered false [] = lit "."
rendered false (name ∷ names) = join_names (name ∷ names) []

-- The names of a cleaned path, the last one first.
unfoldable pub names_of : Text → List Text
unfolding clean_names push_name
names_of path = clean_names (is_abs path) [] (split b'/' path)

-- filepath.Clean
unfoldable pub clean : Text → Text
unfolding names_of join_names
clean path = rendered (is_abs path) (names_of path)

-- filepath.Join of two elements: an empty one is left out.
unfoldable pub join : Text → Text → Text
unfolding clean
join [] [] = []
join [] (c ∷ s) = clean (c ∷ s)
join (c ∷ s) [] = clean (c ∷ s)
join (c ∷ s) (d ∷ t) = clean ((c ∷ s) ++ b'/' ∷ d ∷ t)
