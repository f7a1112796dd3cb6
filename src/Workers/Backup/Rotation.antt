-- ===== src/Workers/Backup/Rotation.antt =====
-- Which files a rotation removes.
use distri_max.Prelude.{
  ℕ, ◌≡◌, refl, ◌∙◌, ap, subst, Bool, true, false, ◌&&◌, inl, inr, Bool-cases, List, [], ◌∷◌,
  Option, none, some, Text, ◌==◌, ==_iff, ==-refl, any_item, ltb, arith, if◌then◌else◌,
}
use distri_max.Db.Sql.{text_le, count_where, order_by}
use distri_max.Db.Store.{refused, later}
use distri_max.Storage.{done}
use distri_max.Storage.Filesystem.{Disk, F, remove, call, removed}
use distri_max.Workers.Backup.{snapshots, to_delete, remove_each, rotate, rotate_local_backups}
use distri_max.Workers.Backup.Newest.{to_delete-eq}

removed-other :
    (path x : Text) (d : Disk) → (path == x) ≡ false → (remove path d).1.files x ≡ d.files x
unfolding call
removed-other path x d h = elim (Bool-cases (refused d.faults)) [
  | inl bad ↦ rw bad refl
  | inr good ↦ rw good (go (d.files path))
]
  where
    go : (o : Option Text) → (removed path d.files o).1 x ≡ d.files x
    go none = refl
    go (some content) = rw h refl

remove_each-other :
    (paths : List Text) (x : Text) (d : Disk)
    → any_item (λ y. y == x) paths ≡ false
    → (remove_each paths d).files x ≡ d.files x
unfolding remove_each any_item
remove_each-other [] x d h = refl
remove_each-other (path ∷ paths) x d h =
    remove_each-other paths x (remove path d).1 (ground arith)
    ∙ removed-other path x d (ground arith)

removed-healthy : (path : Text) (d : Disk) → d.faults ≡ [] → (remove path d).1.files path ≡ none
unfolding call
removed-healthy path d h =
    let good : refused d.faults ≡ false = rw h refl in rw good (go (d.files path) refl)
  where
    go : (o : Option Text) → d.files path ≡ o → (removed path d.files o).1 path ≡ none
    go none e = e
    go (some content) e = rw (==-refl path) refl

remove-keeps-none : (path x : Text) (d : Disk) → d.files x ≡ none → (remove path d).1.files x ≡ none
unfolding call
remove-keeps-none path x d h = elim (Bool-cases (refused d.faults)) [
  | inl bad ↦ rw bad h
  | inr good ↦ rw good (go (d.files path))
]
  where
    go : (o : Option Text) → (removed path d.files o).1 x ≡ none
    go none = h
    go (some content) = elim (Bool-cases (path == x)) [
      | inl same ↦ rw same refl
      | inr other ↦ rw other h
    ]

remove-healthy : (path : Text) (d : Disk) → d.faults ≡ [] → (remove path d).1.faults ≡ []
unfolding call
remove-healthy path d h = let good : refused d.faults ≡ false = rw h refl in rw good (ap later h)

remove_each-none :
    (paths : List Text) (x : Text) (d : Disk)
    → d.files x ≡ none
    → (remove_each paths d).files x ≡ none
unfolding remove_each
remove_each-none [] x d h = h
remove_each-none (path ∷ paths) x d h =
    remove_each-none paths x (remove path d).1 (remove-keeps-none path x d h)

remove_each-gone :
    (paths : List Text) (x : Text) (d : Disk)
    → d.faults ≡ []
    → any_item (λ y. y == x) paths ≡ true
    → (remove_each paths d).files x ≡ none
unfolding remove_each any_item
remove_each-gone [] x d h k = ground arith
remove_each-gone (path ∷ paths) x d h k = elim (Bool-cases (path == x)) [
  | inl same ↦ remove_each-none paths x (remove path d).1 (
      subst (λ y. (remove path d).1.files y ≡ none) ((==_iff path x).0 same)
        (removed-healthy path d h))
  | inr other ↦ remove_each-gone paths x (remove path d).1 (remove-healthy path d h) (rw other at k)
]

-- A snapshot of the directory, for which more than `keep` of them, itself included, do not sort before it.
unfoldable pub is_outdated : Text → ℕ → List Text → Text → Bool
unfolding any_item count_where
is_outdated backup_root keep names x =
    any_item (λ y. y == x) (snapshots backup_root names)
    && ltb keep (count_where (text_le x) (snapshots backup_root names))

rotated-files :
    (keep : ℕ) (backup_root : Text) (names : List Text) (x : Text) (d : Disk)
    → d.faults ≡ []
    → (rotate backup_root keep (done names, d)).files x
      ≡ (if is_outdated backup_root keep names x then none else d.files x)
unfolding is_outdated
rotated-files keep backup_root names x d h =
    let e = to_delete-eq keep (snapshots backup_root names) x in
    let paths = to_delete keep (order_by text_le (snapshots backup_root names)) in
    elim (Bool-cases (is_outdated backup_root keep names x)) [
      | inl old ↦ rw old (remove_each-gone paths x d h (e ∙ old))
      | inr kept ↦ rw kept (remove_each-other paths x d (e ∙ kept))
    ]

-- If the directory can be listed and no later call is refused, a rotation removes exactly the snapshots
-- of the directory that are not among the last `keep` in the order of their paths, which is to say that
-- more than `keep` of them, itself included, do not sort before it, and leaves every other file as it
-- was.
pub rotate_local_backups-files :
    (read_dir : Text → F (List Text)) (backup_root : Text) (keep : ℕ) (d d' : Disk)
    (names : List Text) (x : Text)
    → read_dir backup_root d ≡ (done names, d')
    → d'.faults ≡ []
    → (rotate_local_backups read_dir backup_root keep d).files x
      ≡ (if is_outdated backup_root keep names x then none else d'.files x)
unfolding rotate_local_backups
rotate_local_backups-files read_dir backup_root keep d d' names x h healthy =
    simp h (rotated-files keep backup_root names x d' healthy)

-- A refused call can only leave a snapshot there that would be removed.
pub rotate_local_backups-keeps :
    (read_dir : Text → F (List Text)) (backup_root : Text) (keep : ℕ) (d d' : Disk)
    (names : List Text) (x : Text)
    → read_dir backup_root d ≡ (done names, d')
    → is_outdated backup_root keep names x ≡ false
    → (rotate_local_backups read_dir backup_root keep d).files x ≡ d'.files x
unfolding rotate_local_backups is_outdated
rotate_local_backups-keeps read_dir backup_root keep d d' names x h kept =
    let e = to_delete-eq keep (snapshots backup_root names) x in
    simp h (
      remove_each-other (to_delete keep (order_by text_le (snapshots backup_root names))) x d'
        (e ∙ kept))
