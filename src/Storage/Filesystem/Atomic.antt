-- ===== src/Storage/Filesystem/Atomic.antt =====
-- Storing and deleting files when the system may refuse any call.
use distri_max.Prelude.{
  ℕ, ◌≡◌, refl, ◌∙◌, ◌⊎◌, ap, false, not, ◌&&◌, inl, inr, [], ◌∷◌, some, Text, ◌==◌, ==-refl, eqb,
  ltb, length, any_item, if◌then◌else◌, Bool-cases, arith,
}
use distri_max.Db.Store.{refused}
use distri_max.Storage.{StorageError, invalid_path, Outcome, done, fail}
use distri_max.Storage.Filesystem.{
  Files, Disk, F, continue, ◌>>◌, call, put, mkdir_all, moved, below, remove_all, FilesystemStorage,
  is_invalid, staging_dir, staging_file, dest_file, rel_path, check_size, stage, settle_in,
  cleaned_up, store_artifact,
}

-- What holds of the files after a step: `E` if it has failed, `P` of its result else.
abbrev Ends : {A : Type 0} → (Files → Type 0) → (A → Files → Type 0) → Outcome A × Disk → Type 0
Ends E P (done a, d) = P a d.files
Ends E P (fail e, d) = E d.files

abbrev EndsAt : {A : Type 0} → (Files → Type 0) → (A → Files → Type 0) → Outcome A → Files → Type 0
EndsAt E P (done a) files = P a files
EndsAt E P (fail e) files = E files

module _ (E : Files → Type 0) where
  outcome-Ends :
      {A : Type 0} (P : A → Files → Type 0) (r : Outcome A) (d : Disk)
      → EndsAt E P r d.files
      → Ends E P (r, d)
  outcome-Ends P (done a) d h = h
  outcome-Ends P (fail e) d h = h

  call-Ends :
      {A : Type 0} (P : A → Files → Type 0) (f : Files → Outcome A × Files) (d : Disk)
      → E d.files
      → EndsAt E P (f d.files).0 (f d.files).1
      → Ends E P (call f d)
  unfolding call
  call-Ends P f d e h = elim (Bool-cases (refused d.faults)) [
    | inl bad ↦ rw (bad, call) e
    | inr good ↦ rw (good, call) (outcome-Ends P (f d.files).0 _ h)
  ]

  continue-Ends :
      {A B : Type 0} (P : A → Files → Type 0) (Q : B → Files → Type 0) (x : Outcome A × Disk)
      (f : A → F B)
      → Ends E P x
      → ((a : A) (d : Disk) → P a d.files → Ends E Q (f a d))
      → Ends E Q (continue x f)
  continue-Ends P Q (done a, d) f h k = k a d h
  continue-Ends P Q (fail e, d) f h k = h

module _ (fs : FilesystemStorage) (stamp product version filename bytes x : Text) (size : ℕ)
    (before : Files) (apart : (staging_file fs stamp product version filename == x) ≡ false) where
  abbrev Kept : Files → Type 0
  Kept files = files x ≡ before x

  -- The staging file is whole.
  abbrev Staged : Files → Type 0
  Staged files =
      (files x ≡ before x) × (files (staging_file fs stamp product version filename) ≡ some bytes)

  abbrev IsSized : Type 0
  IsSized = (ltb 0 size && not (eqb (length bytes) size)) ≡ false

  check_size-Ends :
      (written : ℕ) (d : Disk)
      → Staged d.files × (written ≡ length bytes)
      → Ends Kept
          (λ _ files. Staged files × IsSized)
          (check_size fs stamp product version filename size written d)
  check_size-Ends written d h =
      rw h.1 (elim (Bool-cases (ltb 0 size && not (eqb (length bytes) size))) [
        | inl bad ↦ rw bad h.0.0
        | inr good ↦ rw good (h.0, refl)
      ])

  stage-Ends :
      (d : Disk)
      → Kept d.files
      → Ends Kept
          (λ _ files. Staged files × IsSized)
          (stage fs stamp product version filename bytes size d)
  stage-Ends d h =
      continue-Ends Kept (λ _. Kept) _ _ _ (call-Ends Kept (λ _. Kept) _ d h (rw apart h))
        (λ _ d1 h1.
          continue-Ends Kept (λ written files. Staged files × (written ≡ length bytes)) _ _ _
            (call-Ends Kept _ _ d1 h1 (
              (rw apart h1, rw (==-refl (staging_file fs stamp product version filename)) refl),
              refl,
            ))
            (λ written d2 h2. check_size-Ends written d2 h2))

  -- The artifact is in its place.
  abbrev Placed : Files → Type 0
  Placed files = files x ≡ put (dest_file fs stamp product version filename) (some bytes) before x

  moved-EndsAt :
      (files : Files)
      → Staged files
      → EndsAt Kept
          (λ _. Placed)
          (moved
            (staging_file fs stamp product version filename)
            (dest_file fs stamp product version filename)
            files
            (files (staging_file fs stamp product version filename))).0
          (moved
            (staging_file fs stamp product version filename)
            (dest_file fs stamp product version filename)
            files
            (files (staging_file fs stamp product version filename))).1
  moved-EndsAt files h = rw (h.1) (rw (apart, h.0) refl)

  settle_in-Ends :
      (d : Disk)
      → Staged d.files
      → Ends Kept
          (λ path files. Placed files × (path ≡ rel_path fs stamp product version filename))
          (settle_in fs stamp product version filename d)
  settle_in-Ends d h =
      continue-Ends Kept (λ _. Staged) _ _ _ (call-Ends Kept (λ _. Staged) _ d h.0 h)
        (λ _ d1 h1.
          continue-Ends Kept (λ _. Placed) _ _ _
            (call-Ends Kept (λ _. Placed) _ d1 h1.0 (moved-EndsAt d1.files h1))
            (λ _ d2 h2. (h2, refl)))

  -- How storing ends, for a file `x`: with an error, and it is as before; or with the relative path of
  -- the artifact, which has the size that was asked for (0 is any), and only the artifact is new.
  pub data Stored : Outcome Text × Disk → Type 0 where
    refuses :
        {r : Outcome Text × Disk} (e : StorageError)
        → r.0 ≡ fail e
        → r.1.files x ≡ before x
        → Stored r
    stores :
        {r : Outcome Text × Disk}
        → r.0 ≡ done (rel_path fs stamp product version filename)
        → (size ≡ 0) ⊎ (length bytes ≡ size)
        → any_item is_invalid (product ∷ version ∷ filename ∷ []) ≡ false
        → r.1.files x
          ≡ (if dest_file fs stamp product version filename == x then some bytes else before x)
        → Stored r

  abbrev Settled : Text → Files → Type 0
  Settled path files = Placed files × (path ≡ rel_path fs stamp product version filename) × IsSized

  body-Ends :
      (d : Disk)
      → Kept d.files
      → Ends Kept Settled (
          (stage fs stamp product version filename bytes size
              >> settle_in fs stamp product version filename)
            d)
  body-Ends d h =
      continue-Ends Kept (λ _ files. Staged files × IsSized) _ _ _ (stage-Ends d h)
        (λ _ d1 h1. sized h1.1 _ (settle_in-Ends d1 h1.0))
    where
      sized :
          IsSized
          → (r : Outcome Text × Disk)
          → Ends Kept
              (λ path files. Placed files × (path ≡ rel_path fs stamp product version filename))
              r
          → Ends Kept Settled r
      sized s (done a, d') k = (k.0, k.1, s)
      sized s (fail e, d') k = k

  size_of : IsSized → (size ≡ 0) ⊎ (length bytes ≡ size)
  size_of s = elim (Bool-cases (eqb (length bytes) size)) [
    | inl same ↦ inr (ground arith)
    | inr other ↦ inl (ground arith)
  ]

  module _ (outside : below (staging_dir fs stamp product version filename) x ≡ false) where
    cleaned-files :
        (d : Disk)
        → (remove_all (staging_dir fs stamp product version filename) d).1.files x ≡ d.files x
    unfolding call
    cleaned-files d = elim (Bool-cases (refused d.faults)) [
      | inl bad ↦ rw (bad, call) refl
      | inr good ↦ rw (good, call, outside) refl
    ]

    cleaned_up-Stored :
        (r : Outcome Text × Disk)
        → any_item is_invalid (product ∷ version ∷ filename ∷ []) ≡ false
        → Ends Kept Settled r
        → Stored (cleaned_up fs stamp product version filename r)
    cleaned_up-Stored (done path, d) v h =
        stores (ap done h.1) (size_of h.2) v (cleaned-files d ∙ h.0)
    cleaned_up-Stored (fail e, d) v h = refuses e refl (cleaned-files d ∙ h)

    made-Stored :
        (r : Outcome (Unit {0}) × Disk)
        → any_item is_invalid (product ∷ version ∷ filename ∷ []) ≡ false
        → Ends Kept (λ _. Kept) r
        → Stored (
            continue r (λ _ d. cleaned_up fs stamp product version filename (
              (stage fs stamp product version filename bytes size
                  >> settle_in fs stamp product version filename)
                d)))
    made-Stored (done _, d) v h = cleaned_up-Stored _ v (body-Ends d h)
    made-Stored (fail e, d) v h = refuses e refl h

    -- Storing an artifact is atomic: whichever calls the system refuses, every file outside the
    -- staging directory is as before if storing fails, and if it succeeds only the artifact's file is
    -- new, whole, and of the size that was asked for, 0 standing for any.
    pub store_artifact-Stored :
        (d : Disk)
        → Kept d.files
        → Stored (store_artifact fs stamp product version filename bytes size d)
    unfolding store_artifact
    store_artifact-Stored d h =
        elim (Bool-cases (any_item is_invalid (product ∷ version ∷ filename ∷ []))) [
          | inl bad ↦ rw bad (refuses invalid_path refl h)
          | inr good ↦ rw good (
              made-Stored (mkdir_all (staging_dir fs stamp product version filename) d) good
                (call-Ends Kept (λ _. Kept) _ d h h))
        ]
