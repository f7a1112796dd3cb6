-- ===== src/Storage/Filesystem/Roundtrip.antt =====
-- Where an artifact is stored is where it is looked up.
use distri_max.Prelude.{
  ◌≡◌, ◌≢◌, refl, sym, ◌∙◌, ap, false, inl, inr, List, [], ◌∷◌, ◌++◌, Text, lit, ◌==◌, split,
  contains, is_some, strip_prefix, All, Bool-cases, arith,
}
use distri_max.Storage.{done}
use distri_max.Storage.Filesystem.{
  FilesystemStorage, resolve_safe_path, dest_dir, dest_file, rel_path,
}
use distri_max.Storage.Filesystem.Resolved.{
  IsValid, add, push-add, add-IsPlain, add-append, rendered-is_abs, reread_any, join_name,
  ne_of_filled, first_byte,
}
use distri_max.Storage.Paths.{is_abs, clean_names, join_names, rendered, names_of, clean, join}
use distri_max.Storage.Paths.Inside.{
  IsPlain, split-append, join-clean, join-eq, is_abs-append, clean_names-append,
}

-- A name that neither holds two dots in a row nor is a dot does not start with two dots, whatever
-- follows it.
head_down :
    (n s : Text)
    → (n == []) ≡ false
    → (n == lit ".") ≡ false
    → contains (lit "..") n ≡ false
    → is_some (strip_prefix (lit "..") (n ++ s)) ≡ false
unfolding contains strip_prefix ◌==◌
head_down [] s f o h = absurd (cc f)
head_down (c ∷ []) s f o h = ground arith
head_down (c ∷ d ∷ n) s f o h = ground arith

record IsDown (n : Text) : Type 0 where
  filled : (n == []) ≡ false
  no_dot : (n == lit ".") ≡ false
  no_dots : contains (lit "..") n ≡ false

add-IsDown : (n : Text) (st : List Text) → IsValid n → All IsDown st → All IsDown (add n st)
add-IsDown n st v a = elim (Bool-cases (n == lit ".")) [
  | inl dot ↦ rw dot a
  | inr other ↦ rw other (record { filled = v.filled; no_dot = other; no_dots = v.no_dots }, a)
]

names_down :
    (x : Text) (st : List Text) (s : Text)
    → IsDown x
    → All IsDown st
    → is_some (strip_prefix (lit "..") (join_names (x ∷ st) s)) ≡ false
unfolding join_names
names_down x [] s d a = head_down x s d.filled d.no_dot d.no_dots
names_down x (y ∷ st) s d a = names_down y st (b'/' ∷ (x ++ s)) a.0 a.1

rendered_down :
    (st : List Text) → All IsDown st → is_some (strip_prefix (lit "..") (rendered false st)) ≡ false
rendered_down [] a = unfold strip_prefix in refl
rendered_down (x ∷ st) a = names_down x st [] a.0 a.1

relative_name : (n s : Text) → IsValid n → is_abs (n ++ s) ≡ false
unfolding is_abs strip_prefix
relative_name [] s v = let e = v.filled in absurd (unfold ◌==◌ in cc e)
relative_name (c ∷ n) s v = rw (first_byte c n v.named) refl

append-ne-nil : (s t : Text) → IsValid s → (s ++ t) ≢ []
append-ne-nil [] t v h = ne_of_filled [] v.filled refl
append-ne-nil (c ∷ s) t v h = cc h

names_of-rendered : (st : List Text) → All IsPlain st → names_of (rendered false st) ≡ st
unfolding names_of
names_of-rendered st a = rw (rendered-is_abs false st a) (reread_any false st a)

clean-rendered : (st : List Text) → All IsPlain st → clean (rendered false st) ≡ rendered false st
unfolding clean
clean-rendered st a = rw (rendered-is_abs false st a, reread_any false st a) refl

resolve-rendered :
    (fs : FilesystemStorage) (st : List Text)
    → fs.artifact_root ≢ []
    → All IsPlain st
    → All IsDown st
    → resolve_safe_path fs (rendered false st)
      ≡ done (rendered (is_abs fs.artifact_root) (st ++ names_of fs.artifact_root))
unfolding resolve_safe_path
resolve-rendered fs st h a d =
    let e =
      join-clean fs.artifact_root (rendered false st) h (rendered-is_abs false st a)
        (rw (names_of-rendered st a) a) in
    rw (clean-rendered st a, rendered_down st d, rendered-is_abs false st a)
      (ap done (rw (clean-rendered st a, names_of-rendered st a) at e))

module _ (fs : FilesystemStorage) (stamp product version filename : Text) (p : IsValid product)
    (v : IsValid version) (f : IsValid filename) where
  rel_path-rendered :
      rel_path fs stamp product version filename
      ≡ rendered false (add filename (add version (add product [])))
  unfolding clean names_of
  rel_path-rendered =
      join-eq product (version ++ b'/' ∷ filename) (ne_of_filled product p.filled)
        (append-ne-nil version (b'/' ∷ filename) v)
      ∙ rw
          (
            relative_name product (b'/' ∷ (version ++ b'/' ∷ filename)) p,
            split-append product (version ++ b'/' ∷ filename),
            p.named,
            split-append version filename,
            v.named,
            f.named,
          )
          (unfold clean_names in
            rw
              (
                push-add false product [] p,
                push-add false version (add product []) v,
                push-add false filename (add version (add product [])) f,
              )
              refl)

  dest_dir-rendered :
      fs.artifact_root ≢ []
      → dest_dir fs stamp product version filename
        ≡ rendered (is_abs fs.artifact_root) (add version (add product (names_of fs.artifact_root)))
  unfolding clean names_of
  dest_dir-rendered h =
      join-eq fs.artifact_root (product ++ b'/' ∷ version) h
        (append-ne-nil product (b'/' ∷ version) p)
      ∙ rw
          (
            is_abs-append fs.artifact_root (b'/' ∷ (product ++ b'/' ∷ version)) h,
            split-append fs.artifact_root (product ++ b'/' ∷ version),
            split-append product version,
            p.named,
            v.named,
            clean_names-append,
          )
          (unfold clean_names in
            rw
              (
                push-add (is_abs fs.artifact_root) product
                    (clean_names (is_abs fs.artifact_root) [] (split b'/' fs.artifact_root)) p,
                push-add (is_abs fs.artifact_root) version
                    (add product
                      (clean_names (is_abs fs.artifact_root) [] (split b'/' fs.artifact_root)))
                    v,
              )
              refl)

  added-append :
      (base : List Text)
      → add filename (add version (add product base))
        ≡ add filename (add version (add product [])) ++ base
  added-append base =
      ap (λ st. add filename (add version st)) (add-append product [] base)
      ∙ ap (add filename) (add-append version (add product []) base)
      ∙ add-append filename (add version (add product [])) base

  added-IsPlain :
      (base : List Text)
      → All IsPlain base
      → All IsPlain (add filename (add version (add product base)))
  added-IsPlain base a =
      add-IsPlain filename (add version (add product base)) f
        (add-IsPlain version (add product base) v (add-IsPlain product base p a))

  added-IsDown : All IsDown (add filename (add version (add product [])))
  added-IsDown =
      add-IsDown filename (add version (add product [])) f
        (add-IsDown version (add product []) v (add-IsDown product [] p _))

  dest_file-rendered :
      fs.artifact_root ≢ []
      → All IsPlain (names_of fs.artifact_root)
      → dest_file fs stamp product version filename
        ≡ rendered
            (is_abs fs.artifact_root)
            (add filename (add version (add product (names_of fs.artifact_root))))
  dest_file-rendered h a =
      ap (λ dir. join dir filename) (dest_dir-rendered h)
      ∙ join_name (is_abs fs.artifact_root) (add version (add product (names_of fs.artifact_root)))
          filename
          (add-IsPlain version (add product (names_of fs.artifact_root)) v
            (add-IsPlain product (names_of fs.artifact_root) p a))
          f

  -- The path that storing returns leads back to the file that it has written.
  pub resolved :
      fs.artifact_root ≢ []
      → All IsPlain (names_of fs.artifact_root)
      → resolve_safe_path fs (rel_path fs stamp product version filename)
        ≡ done (dest_file fs stamp product version filename)
  resolved h a =
      ap (resolve_safe_path fs) rel_path-rendered
      ∙ resolve-rendered fs (add filename (add version (add product []))) h (added-IsPlain [] _)
          added-IsDown
      ∙ ap (λ st. done (rendered (is_abs fs.artifact_root) st))
          (sym (added-append (names_of fs.artifact_root)))
      ∙ ap done (sym (dest_file-rendered h a))
