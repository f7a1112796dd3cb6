-- ===== src/Workers/Scheduler/Invariant.antt =====
-- What the background work keeps.
use distri_max.Db.Audit.{purge_old_audit_logs}
use distri_max.Db.Schema.{Time, Product, ProductVersion}
use distri_max.Db.Settings.{get_setting}
use distri_max.Db.Store.{Result, ok, err, Db}
use distri_max.Db.Store.Rules.{exec-Keeps, query-Keeps}
use distri_max.Db.Tokens.{clean_expired_download_tokens}
use distri_max.Db.Users.{clean_expired_sessions}
use distri_max.Db.Versions.{list_products, get_expired_versions}
use distri_max.Db.Versions.Consistent.{IsConsistent, mark_version_deleted-Keeps}
use distri_max.Prelude.{ℕ, inl, inr, Bool-cases, List, [], ◌∷◌, Text, lit}
use distri_max.Syncer.Run.{sync_product}
use distri_max.Syncer.Run.Kept.{sync_product-IsConsistent}
use distri_max.Syncer.State.{Libraries, Syncer, Process, Moment}
use distri_max.Workers.Cleanup.{purge_versions, purge_rest, purge, run_cleanup}
use distri_max.Workers.Scheduler.{
  Tick, cleanup, backup, sync, has_crashed, sync_enabled, sync_listed, run_scheduled_sync, clean_up,
  run_tick, run_ticks, start,
}

rest-Keeps :
    (n : ℕ) (now : Time) (db : Db)
    → IsConsistent db.tables
    → IsConsistent (purge_rest n now db).1.tables
unfolding purge_rest get_setting purge_old_audit_logs clean_expired_sessions
    clean_expired_download_tokens
rest-Keeps n now db c =
    exec-Keeps IsConsistent _
      (λ t k. record { one_current = k.one_current; one_row = k.one_row; one_id = k.one_id }) _
      (exec-Keeps IsConsistent _
        (λ t k. record { one_current = k.one_current; one_row = k.one_row; one_id = k.one_id }) _
        (exec-Keeps IsConsistent _
          (λ t k. record { one_current = k.one_current; one_row = k.one_row; one_id = k.one_id }) _
          (query-Keeps IsConsistent _ db c)))

module _ {W : Type 0} (delete : Text → W → W) where
  purge_versions-Keeps :
      (vs : List ProductVersion) (n : ℕ) (db : Db) (w : W)
      → IsConsistent db.tables
      → IsConsistent (purge_versions delete vs n db w).1.tables
  unfolding purge_versions
  purge_versions-Keeps [] n db w c = c
  purge_versions-Keeps (v ∷ vs) n db w c =
      purge_versions-Keeps vs _ _ _ (mark_version_deleted-Keeps v.id db c)

  purge-Keeps :
      (now : Time) (r : Result (List ProductVersion)) (db : Db) (w : W)
      → IsConsistent db.tables
      → IsConsistent (purge delete now r db w).1.tables
  purge-Keeps now (err e) db w c = c
  purge-Keeps now (ok vs) db w c = rest-Keeps _ now _ (purge_versions-Keeps vs 0 db w c)

  run_cleanup-Keeps :
      (now : Time) (db : Db) (w : W)
      → IsConsistent db.tables
      → IsConsistent (run_cleanup delete now db w).1.tables
  unfolding run_cleanup get_expired_versions
  run_cleanup-Keeps now db w c = purge-Keeps now _ _ w (query-Keeps IsConsistent _ db c)

module _ {W C : Type 0} (lib : Libraries) (s : Syncer W C) (delete : Text → W → W) where
  abbrev Good : Process W C → Type 0
  Good p = IsConsistent p.world.db.tables

  sync_enabled-Good :
      (at : Text → Moment) (ps : List Product) (p : Process W C)
      → Good p
      → Good (sync_enabled lib s delete at ps p).1
  unfolding sync_enabled
  sync_enabled-Good at [] p h = h
  sync_enabled-Good at (x ∷ xs) p h =
      let k = sync_product-IsConsistent lib s (at x.id) x.id (lit "SCHEDULED") p h in
      elim (Bool-cases x.is_enabled) [
        | inl on ↦
            elim (Bool-cases
              (has_crashed (sync_product lib s (at x.id) x.id (lit "SCHEDULED") p).0)) [
                | inl dead ↦ simp (on, dead) k
                | inr alive ↦ simp (on, alive) (sync_enabled-Good at xs _ k)
              ]
        | inr off ↦ simp off (sync_enabled-Good at xs p h)
      ]

  sync_listed-Good :
      (at : Text → Moment) (r : Result (List Product)) (p : Process W C)
      → Good p
      → Good (sync_listed lib s delete at r p).1
  sync_listed-Good at (err e) p h = h
  sync_listed-Good at (ok ps) p h = sync_enabled-Good at ps p h

  run_tick-Good : (t : Tick) (p : Process W C) → Good p → Good (run_tick lib s delete t p).1
  unfolding clean_up run_scheduled_sync list_products
  run_tick-Good (cleanup now) p h = run_cleanup-Keeps delete now p.world.db p.world.disk h
  run_tick-Good (backup now) p h = h
  run_tick-Good (sync at) p h = sync_listed-Good at _ _ (query-Keeps IsConsistent _ p.world.db h)

  run_ticks-Good : (ts : List Tick) (p : Process W C) → Good p → Good (run_ticks lib s delete ts p)
  run_ticks-Good [] p h = h
  run_ticks-Good (t ∷ ts) p h = elim (Bool-cases (run_tick lib s delete t p).0) [
    | inl dead ↦ simp dead (run_tick-Good t p h)
    | inr alive ↦ simp alive (run_ticks-Good ts _ (run_tick-Good t p h))
  ]

  -- Whatever the timers do, in whatever order, and whatever the driver, the storage and upstream answer,
  -- the background work keeps the versions consistent: at most one current version for a product,
  -- and one row for a key and for a row id.
  pub start-IsConsistent :
      (now : Time) (ts : List Tick) (p : Process W C)
      → IsConsistent p.world.db.tables
      → IsConsistent (start lib s delete now ts p).world.db.tables
  unfolding start clean_up
  start-IsConsistent now ts p h =
      run_ticks-Good ts _ (run_cleanup-Keeps delete now p.world.db p.world.disk h)
