-- ===== src/Syncer/Run/Safety.antt =====
-- What a synchronisation does to the version that is served.
use distri_max.Prelude.{
  ◌≡◌, refl, sym, Bool, true, false, inl, inr, Text, ◌==◌, ==_iff, if◌then◌else◌, Bool-cases,
}
use distri_max.Syncer.Run.{set_lock, with_lock, unlocked, sync_product}
use distri_max.Syncer.Run.Endings.{Ends, Same, Reached}
use distri_max.Syncer.Run.Fetching.{synchronise-Ends}
use distri_max.Syncer.State.{
  SyncError, sync_in_progress, Libraries, Syncer, World, Process, Moment, SyncResult, Sync, reached,
  stopped,
}

module _ {W C : Type 0} (lib : Libraries) (s : Syncer W C) (at : Moment)
    (product_id trigger_type : Text) where
  -- How a synchronisation ends, from the process `p`: with an error, and the catalogue, its versions
  -- and what the callback has been told are as before; or with a result.
  pub data Synced (p : Process W C) : Sync SyncResult × Process W C → Type 0 where
    stops :
        {x : Sync SyncResult × Process W C} (e : SyncError)
        → x.0 ≡ stopped e
        → x.1.world.db.tables.versions ≡ p.world.db.tables.versions
        → x.1.world.db.tables.products ≡ p.world.db.tables.products
        → x.1.world.callbacks ≡ p.world.callbacks
        → Synced p x
    ends :
        {x : Sync SyncResult × Process W C} (r : SyncResult)
        → x.0 ≡ reached r
        → Reached lib s at product_id trigger_type p.world r x.1.world
        → Synced p x

  ended :
      (p : Process W C) (x : Sync SyncResult × World W C) (locks : Text → Bool)
      → Ends
          (Same lib s at product_id trigger_type p.world)
          (Reached lib s at product_id trigger_type p.world)
          x
      → Synced p (x.0, record { world = x.1; locks = locks })
  unfolding Ends
  ended p (reached r, w) locks h = ends r refl h
  ended p (stopped e, w) locks h = stops e refl h.versions h.products h.callbacks

  -- Whatever the driver refuses and the libraries answer, a synchronisation ends in one of three ways:
  -- with an error, and no version, no product and nothing that the callback keeps has changed; without
  -- news, and the same holds; or with news, and then exactly one publication has been committed, of
  -- the enabled product that was asked for, with the checksum and the size of a file that was taken
  -- from the archive that upstream has sent in this run, passed the validation and was stored under the published path beforehand, and
  -- the callback was told of it.
  pub sync_product-Synced :
      (p : Process W C) → Synced p (sync_product lib s at product_id trigger_type p)
  unfolding sync_product
  sync_product-Synced p = go (p.locks product_id) refl
    where
      go :
          (b : Bool)
          → p.locks product_id ≡ b
          → Synced p (
              (if b
                then (stopped sync_in_progress, p)
                else unlocked lib s at product_id trigger_type (
                    with_lock lib s at product_id trigger_type
                      (set_lock lib s at product_id trigger_type true p))))
      go true k = stops sync_in_progress refl refl refl refl
      go false k = ended p _ _ (
          synchronise-Ends lib s at product_id trigger_type p.world p.world
            (record { versions = refl; products = refl; callbacks = refl }, refl))

  -- Whichever way a synchronisation ends, a lock is held after it exactly if it was before: its own
  -- is given back, and no other is touched.
  pub sync_product-locks :
      (p : Process W C) (id : Text)
      → (sync_product lib s at product_id trigger_type p).1.locks id ≡ p.locks id
  unfolding sync_product
  sync_product-locks p id = elim (Bool-cases (p.locks product_id)) [
    | inl held ↦ rw held refl
    | inr open_ ↦ elim (Bool-cases (id == product_id)) [
      | inl same ↦ let e = (==_iff id product_id).0 same in rw (open_, same) (sym (rw e open_))
      | inr other ↦ rw (open_, other) refl
    ]
  ]
