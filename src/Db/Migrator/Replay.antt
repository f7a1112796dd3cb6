-- ===== src/Db/Migrator/Replay.antt =====
-- The scripts that have run between two states.
use mathlib.Core.List.{append-nil}
use distri_max.Db.Migrator.{Migration, Row, Schema, row_of}
use distri_max.Prelude.{
  ◌≡◌, refl, sym, ◌∙◌, ap, List, [], ◌∷◌, ◌++◌, map, Option, none, some, Text, All,
}

append_assoc : (xs ys zs : List Row) → (xs ++ ys) ++ zs ≡ xs ++ (ys ++ zs)
append_assoc [] ys zs = refl
append_assoc (x ∷ xs) ys zs = ap (λ r. x ∷ r) (append_assoc xs ys zs)

map-append : (xs ys : List Migration) → map row_of (xs ++ ys) ≡ map row_of xs ++ map row_of ys
map-append [] ys = refl
map-append (x ∷ xs) ys = ap (λ r. row_of x ∷ r) (map-append xs ys)

All-append :
    (P : Migration → Type 0) (xs ys : List Migration) → All P xs → All P ys → All P (xs ++ ys)
All-append P [] ys a b = b
All-append P (x ∷ xs) ys a b = (a.0, All-append P xs ys a.1 b)

-- `P` says where a script may come from.
module _ {D : Type 0} (execute : Text → D → Option D) (P : Migration → Type 0) where
  abbrev after_script : Option D → (D → Option D) → Option D
  after_script none next = none
  after_script (some content) next = next content

  -- The scripts run one after the other.
  pub replay : List Migration → D → Option D
  replay [] content = some content
  replay (m ∷ ms) content = after_script (execute m.content content) (replay ms)

  replay-append :
      (ms ns : List Migration) (content : D)
      → replay (ms ++ ns) content ≡ after_script (replay ms content) (replay ns)
  unfolding replay
  replay-append [] ns content = refl
  replay-append (m ∷ ms) ns content = go (execute m.content content) (replay-append ms ns)
    where
      go :
          (o : Option D)
          → ((c : D) → replay (ms ++ ns) c ≡ after_script (replay ms c) (replay ns))
          → after_script o (replay (ms ++ ns))
            ≡ after_script (after_script o (replay ms)) (replay ns)
      go none h = refl
      go (some c) h = h c

  -- Between two states, exactly the scripts have run of which a row was added.
  pub record Replayed (s s' : Schema D) : Type 0 where
    pub new : List Migration
    pub scripts : All P new
    pub added : s'.rows ≡ s.rows ++ map row_of new
    pub content : replay new s.content ≡ some s'.content

  pub same-Replayed : (s s' : Schema D) → s'.rows ≡ s.rows → s'.content ≡ s.content → Replayed s s'
  unfolding replay
  same-Replayed s s' e f = record {
    new = [];
    scripts = tt;
    added = e ∙ sym (append-nil s.rows);
    content = ap some (sym f);
  }

  pub one-Replayed :
      (m : Migration) (s s' : Schema D)
      → P m
      → s'.rows ≡ s.rows ++ row_of m ∷ []
      → execute m.content s.content ≡ some s'.content
      → Replayed s s'
  unfolding replay
  one-Replayed m s s' p e h = record {
    new = m ∷ [];
    scripts = (p, tt);
    added = e;
    content = ap (λ o. after_script o some) h;
  }

  pub then-Replayed : (s s' s'' : Schema D) → Replayed s s' → Replayed s' s'' → Replayed s s''
  then-Replayed s s' s'' a b = record {
    new = a.new ++ b.new;
    scripts = All-append P a.new b.new a.scripts b.scripts;
    added =
        b.added
        ∙ ap (λ r. r ++ map row_of b.new) a.added
        ∙ append_assoc s.rows (map row_of a.new) (map row_of b.new)
        ∙ ap (λ r. s.rows ++ r) (sym (map-append a.new b.new));
    content =
        replay-append a.new b.new s.content
        ∙ ap (λ o. after_script o (replay b.new)) a.content
        ∙ b.content;
  }
