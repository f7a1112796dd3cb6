-- ===== src/Storage/Manager/Switching.antt =====
-- The storage manager over two backends that keep artifacts apart from each other: switching between
-- them, reading back, and deleting.
use distri_max.Prelude.{
  ℕ, ◌≡◌, refl, ◌∙◌, ◌⊎◌, true, inl, inr, Option, none, some, Text, ◌==◌, Bool-cases, [],
}
use distri_max.Storage.{not_found, Outcome, done, fail, StorageBackend}
use distri_max.Storage.Manager.{
  StorageManager, filesystem, s3, new_storage_manager, is_set, set_active_driver, current_backends,
  store_artifact, open_artifact, delete_artifact,
}

-- The driver is one that the manager has a backend for.
pub data IsReady {W : Type 0} (m : StorageManager W) : Type 0 where
  on_filesystem : m.active_driver ≡ filesystem → is_set m.fs_storage ≡ true → IsReady m
  on_s3 : m.active_driver ≡ s3 → is_set m.s3_storage ≡ true → is_set m.fs_storage ≡ true → IsReady m

module _ {W : Type 0} where
  -- A new manager on a filesystem backend is ready.
  pub new_storage_manager-IsReady : (b : StorageBackend W) → IsReady (new_storage_manager (some b))
  new_storage_manager-IsReady b = on_filesystem refl refl

  fs_is_set : (m : StorageManager W) → IsReady m → is_set m.fs_storage ≡ true
  fs_is_set m (on_filesystem e f) = f
  fs_is_set m (on_s3 e s f) = f

  -- Whatever driver is asked for, a manager that is ready stays so.
  pub set_active_driver-IsReady :
      (driver : Text) (m : StorageManager W) → IsReady m → IsReady (set_active_driver driver m).1
  unfolding set_active_driver
  set_active_driver-IsReady driver m r = elim (Bool-cases (driver == s3)) [
    | inl to_s3 ↦ elim (Bool-cases (is_set m.s3_storage)) [
      | inl ready ↦ rw (to_s3, ready, set_active_driver) (on_s3 refl ready (fs_is_set m r))
      | inr absent ↦ rw (to_s3, absent, set_active_driver) r
    ]
    | inr not_s3 ↦ elim (Bool-cases (driver == filesystem)) [
      | inl to_fs ↦ rw (not_s3, to_fs, set_active_driver) (on_filesystem refl (fs_is_set m r))
      | inr not_fs ↦ elim (Bool-cases (driver == [])) [
        | inl to_default ↦
            rw (not_s3, not_fs, to_default, set_active_driver) (on_filesystem refl (fs_is_set m r))
        | inr unknown ↦ rw (not_s3, not_fs, unknown, set_active_driver) r
      ]
    ]
  ]

-- What an artifact's path leads to.
abbrev pub reading : Option Text → Outcome Text
reading none = fail not_found
reading (some bytes) = done bytes

-- A backend that keeps its artifacts where `view` sees them, apart from those that `other` sees.
pub record IsStore {W : Type 0} (b : StorageBackend W) (view other : W → Text → Option Text)
    : Type 0 where
  pub opens : (path : Text) (w : W) → b.open_artifact path w ≡ reading (view w path)
  pub stores :
      (product version filename bytes : Text) (size : ℕ) (w : W) (path : Text)
      → (b.store_artifact product version filename bytes size w).0 ≡ done path
      → view (b.store_artifact product version filename bytes size w).1 path ≡ some bytes
  pub store_apart :
      (product version filename bytes : Text) (size : ℕ) (w : W) (path : Text)
      → other (b.store_artifact product version filename bytes size w).1 path ≡ other w path
  pub deletes :
      (path : Text) (w : W)
      → (b.delete_artifact path w).0 ≡ none
      → view (b.delete_artifact path w).1 path ≡ none
  pub delete_apart : (path : Text) (w : W) → other (b.delete_artifact path w).1 path ≡ other w path

-- A manager that has both.
abbrev pub both : {W : Type 0} → StorageBackend W → StorageBackend W → Text → StorageManager W
both local remote driver = record {
  active_driver = driver;
  fs_storage = some local;
  s3_storage = some remote;
}

module _ {W : Type 0} (local remote : StorageBackend W)
    (at_local at_remote : W → Text → Option Text) (is_local : IsStore local at_local at_remote)
    (is_remote : IsStore remote at_remote at_local) where
  open_found :
      (driver path bytes : Text) (w : W)
      → (at_local w path ≡ none) × (at_remote w path ≡ some bytes)
        ⊎ (at_remote w path ≡ none) × (at_local w path ≡ some bytes)
      → open_artifact (both local remote driver) path w ≡ done bytes
  unfolding open_artifact current_backends
  open_found driver path bytes w (inl (l, r)) = elim (Bool-cases (driver == s3)) [
    | inl s ↦ rw (s, open_artifact, current_backends, is_remote.opens path w, r) refl
    | inr f ↦
        rw (f, open_artifact, current_backends, is_local.opens path w, l, is_remote.opens path w, r)
          refl
  ]
  open_found driver path bytes w (inr (r, l)) = elim (Bool-cases (driver == s3)) [
    | inl s ↦
        rw (s, open_artifact, current_backends, is_remote.opens path w, r, is_local.opens path w, l)
          refl
    | inr f ↦ rw (f, open_artifact, current_backends, is_local.opens path w, l) refl
  ]

  -- Switching the driver, or failing to, changes nothing else.
  switched :
      (d driver : Text)
      → (d' : Text) × ((set_active_driver d (both local remote driver)).1 ≡ both local remote d')
  unfolding set_active_driver
  switched d driver = elim (Bool-cases (d == s3)) [
    | inl to_s3 ↦ (s3, rw (to_s3, set_active_driver) refl)
    | inr not_s3 ↦ elim (Bool-cases (d == filesystem)) [
      | inl to_fs ↦ (filesystem, rw (not_s3, to_fs, set_active_driver) refl)
      | inr not_fs ↦ elim (Bool-cases (d == [])) [
        | inl to_default ↦ (filesystem, rw (not_s3, not_fs, to_default, set_active_driver) refl)
        | inr unknown ↦ (driver, rw (not_s3, not_fs, unknown, set_active_driver) refl)
      ]
    ]
  ]

  stored :
      (driver product version filename bytes path : Text) (size : ℕ) (w : W)
      → at_local w path ≡ none
      → at_remote w path ≡ none
      → (store_artifact (both local remote driver) product version filename bytes size w).0
        ≡ done path
      → let w' =
          (store_artifact (both local remote driver) product version filename bytes size w).1 in
        (at_local w' path ≡ none) × (at_remote w' path ≡ some bytes)
        ⊎ (at_remote w' path ≡ none) × (at_local w' path ≡ some bytes)
  unfolding store_artifact current_backends
  stored driver product version filename bytes path size w l r h =
      elim (Bool-cases (driver == s3)) [
        | inl s ↦
            rw (s, store_artifact, current_backends)
              (inl (
                is_remote.store_apart product version filename bytes size w path ∙ l,
                is_remote.stores product version filename bytes size w path (rw s at h),
              ))
        | inr f ↦
            rw (f, store_artifact, current_backends)
              (inr (
                is_local.store_apart product version filename bytes size w path ∙ r,
                is_local.stores product version filename bytes size w path (rw f at h),
              ))
      ]

  -- Over two backends that keep their artifacts apart, an artifact stored under a path that was
  -- free is read back whole, whichever driver was active and whichever is asked for afterwards.
  pub store_artifact-open :
      (driver d product version filename bytes path : Text) (size : ℕ) (w : W)
      → at_local w path ≡ none
      → at_remote w path ≡ none
      → (store_artifact (both local remote driver) product version filename bytes size w).0
        ≡ done path
      → open_artifact
          (set_active_driver d (both local remote driver)).1
          path
          (store_artifact (both local remote driver) product version filename bytes size w).1
        ≡ done bytes
  store_artifact-open driver d product version filename bytes path size w l r h =
      let (d', e) = switched d driver in
      rw e (
        open_found d' path bytes _ (stored driver product version filename bytes path size w l r h))

  open_missing :
      (driver path : Text) (w : W)
      → at_local w path ≡ none
      → at_remote w path ≡ none
      → open_artifact (both local remote driver) path w ≡ fail not_found
  unfolding open_artifact current_backends
  open_missing driver path w l r = elim (Bool-cases (driver == s3)) [
    | inl s ↦
        rw (s, open_artifact, current_backends, is_remote.opens path w, r, is_local.opens path w, l)
          refl
    | inr f ↦
        rw (f, open_artifact, current_backends, is_local.opens path w, l, is_remote.opens path w, r)
          refl
  ]

  deleted :
      (driver path : Text) (w : W)
      → ((v : W) → (local.delete_artifact path v).0 ≡ none)
      → ((v : W) → (remote.delete_artifact path v).0 ≡ none)
      → let w' = (delete_artifact (both local remote driver) path w).1 in
        (at_local w' path ≡ none) × (at_remote w' path ≡ none)
  unfolding delete_artifact current_backends
  deleted driver path w l r = elim (Bool-cases (driver == s3)) [
    | inl s ↦
        rw (s, delete_artifact, current_backends)
          (
            is_local.deletes path _ (l _),
            is_local.delete_apart path _ ∙ is_remote.deletes path w (r w),
          )
    | inr f ↦
        rw (f, delete_artifact, current_backends)
          (
            is_remote.delete_apart path _ ∙ is_local.deletes path w (l w),
            is_remote.deletes path _ (r _),
          )
  ]

  -- Over two backends that keep their artifacts apart, a deletion that neither refuses removes the
  -- artifact for good: no driver finds it.
  pub delete_artifact-open :
      (driver d path : Text) (w : W)
      → ((v : W) → (local.delete_artifact path v).0 ≡ none)
      → ((v : W) → (remote.delete_artifact path v).0 ≡ none)
      → open_artifact
          (set_active_driver d (both local remote driver)).1
          path
          (delete_artifact (both local remote driver) path w).1
        ≡ fail not_found
  delete_artifact-open driver d path w l r =
      let (d', e) = switched d driver in
      let (ml, mr) = deleted driver path w l r in rw e (open_missing d' path _ ml mr)
