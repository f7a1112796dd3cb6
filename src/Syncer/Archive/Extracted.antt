-- ===== src/Syncer/Archive/Extracted.antt =====
-- What an extraction gives.
use native.Mathlib.Numerals.{add-one}
use distri_max.Prelude.{
  ℕ, zero, suc, ◌+◌, ◌≤◌, ◌≡◌, refl, ap, true, false, inl, inr, List, [], ◌∷◌, ◌++◌, Option, none,
  some, Text, ==_iff, ltb, length, take, All, Bool-cases, arith, if◌then◌else◌,
}
use distri_max.Syncer.Archive.{
  Entry, Item, entry, broken, extracted, failed, traverses, max_extracted_size_bytes,
  archive_too_large, is_expected, read_limited, extract_entries, extract_mmdb_from_tar_gz,
}

take_whole : (n : ℕ) (xs : Text) → length (take (suc n) xs) ≤ n → take (suc n) xs ≡ xs
take_whole n [] h = refl
take_whole zero (x ∷ xs) h = absurd (omega arith)
take_whole (suc n) (x ∷ xs) h = ap (λ ys. x ∷ ys) (take_whole n xs (omega arith))

module _ (clean base : Text → Text) (sha256_hex : Text → Text) (filename : Text) where
  -- An entry that the search passes by: it stays inside the archive and is not the one looked for.
  pub data IsPassed : Item → Type 0 where
    passed_by :
        (e : Entry)
        → traverses (clean e.name) ≡ false
        → is_expected clean base sha256_hex filename e ≡ false
        → IsPassed (entry e)

  -- The first expected entry, whole.
  pub record IsExtracted (items : List Item) (data_ sum : Text) : Type 0 where
    pub before : List Item
    pub found : Entry
    pub after : List Item
    pub split : items ≡ before ++ entry found ∷ after
    pub passed : All IsPassed before
    pub inside : traverses (clean found.name) ≡ false
    pub regular : found.is_regular ≡ true
    pub named : base (clean found.name) ≡ filename
    pub whole : found.content ≡ some data_
    pub bounded : length data_ ≤ max_extracted_size_bytes
    pub checksum : sum ≡ sha256_hex data_

  limited :
      (n : ℕ) (content data_ sum : Text)
      → (if ltb n (length (take (n + 1) content))
          then failed archive_too_large
          else extracted (take (n + 1) content) (sha256_hex (take (n + 1) content)))
        ≡ extracted data_ sum
      → (content ≡ data_) × (length data_ ≤ n) × (sum ≡ sha256_hex data_)
  limited n content data_ sum h = elim (Bool-cases (ltb n (length (take (n + 1) content)))) [
    | inl large ↦ let k = rw large at h in absurd (cc k)
    | inr small ↦
        let short : length (take (n + 1) content) ≤ n = ground arith in
        let whole : take (n + 1) content ≡ content =
          rw add-one (take_whole n content (rw add-one at short)) in
        let k = rw (small, whole) at h in
        let e : content ≡ data_ = ground arith in (e, rw (← e) (rw whole at short), ground arith)
  ]

  read_limited-whole :
      (o : Option Text) (data_ sum : Text)
      → read_limited clean base sha256_hex o ≡ extracted data_ sum
      → (o ≡ some data_) × (length data_ ≤ max_extracted_size_bytes) × (sum ≡ sha256_hex data_)
  unfolding read_limited
  read_limited-whole none data_ sum h = absurd (cc h)
  read_limited-whole (some content) data_ sum h =
      let (e, bounded, checksum) = limited max_extracted_size_bytes content data_ sum h in
      (ap some e, bounded, checksum)

  further :
      (e : Entry) (items : List Item) (data_ sum : Text)
      → IsPassed (entry e)
      → IsExtracted items data_ sum
      → IsExtracted (entry e ∷ items) data_ sum
  further e items data_ sum p x = record {
    before = entry e ∷ x.before;
    found = x.found;
    after = x.after;
    split = ap (λ ys. entry e ∷ ys) x.split;
    passed = (p, x.passed);
    inside = x.inside;
    regular = x.regular;
    named = x.named;
    whole = x.whole;
    bounded = x.bounded;
    checksum = x.checksum;
  }

  here :
      (e : Entry) (items : List Item) (data_ sum : Text)
      → traverses (clean e.name) ≡ false
      → is_expected clean base sha256_hex filename e ≡ true
      → (if ltb max_extracted_size_bytes e.size
          then failed archive_too_large
          else read_limited clean base sha256_hex e.content)
        ≡ extracted data_ sum
      → IsExtracted (entry e ∷ items) data_ sum
  unfolding is_expected
  here e items data_ sum safe expected h = elim (Bool-cases (ltb max_extracted_size_bytes e.size)) [
    | inl large ↦ let k = rw large at h in absurd (cc k)
    | inr small ↦
        let (whole, bounded, checksum) = read_limited-whole e.content data_ sum (rw small at h) in
        record {
          before = [];
          found = e;
          after = items;
          split = refl;
          passed = tt;
          inside = safe;
          regular = ground arith;
          named = ground (arith, ==_iff (base (clean e.name)) filename);
          whole = whole;
          bounded = bounded;
          checksum = checksum;
        }
  ]

  extract_entries-IsExtracted :
      (items : List Item) (data_ sum : Text)
      → extract_entries clean base sha256_hex filename items ≡ extracted data_ sum
      → IsExtracted items data_ sum
  unfolding extract_entries
  extract_entries-IsExtracted [] data_ sum h = absurd (cc h)
  extract_entries-IsExtracted (broken ∷ items) data_ sum h = absurd (cc h)
  extract_entries-IsExtracted (entry e ∷ items) data_ sum h =
      elim (Bool-cases (traverses (clean e.name))) [
        | inl outside ↦ let k = rw outside at h in absurd (cc k)
        | inr safe ↦ elim (Bool-cases (is_expected clean base sha256_hex filename e)) [
          | inl expected ↦ here e items data_ sum safe expected (rw (safe, expected) at h)
          | inr other ↦
              further e items data_ sum (passed_by e safe other)
                (extract_entries-IsExtracted items data_ sum (rw (safe, other) at h))
        ]
      ]

  -- What is extracted is the whole content, of at most 500 MB, of the first regular entry whose base
  -- name is the one looked for, together with its checksum; that entry and those before it have
  -- names that stay inside the archive.
  pub extract_mmdb_from_tar_gz-IsExtracted :
      (items : List Item) (data_ sum : Text)
      → extract_mmdb_from_tar_gz clean base sha256_hex filename (some items) ≡ extracted data_ sum
      → IsExtracted items data_ sum
  unfolding extract_mmdb_from_tar_gz
  extract_mmdb_from_tar_gz-IsExtracted items data_ sum h =
      extract_entries-IsExtracted items data_ sum h
