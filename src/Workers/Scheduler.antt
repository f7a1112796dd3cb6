-- ===== src/Workers/Scheduler.antt =====
-- internal/workers/scheduler.go. The ticks of its three timers are a list; a backup only
-- changes the files of the backup directory, and is left out here, so that its tick does nothing.
-- A run that dereferences nil ends the goroutine, and the program with it.
pub mod Disabled
pub mod Invariant
use distri_max.Db.Schema.{Time, Product}
use distri_max.Db.Store.{Result, ok, err}
use distri_max.Db.Versions.{list_products}
use distri_max.Prelude.{Bool, true, false, List, [], ◌∷◌, Text, lit, if◌then◌else◌}
use distri_max.Syncer.Run.{sync_product}
use distri_max.Syncer.State.{
  Libraries, Syncer, World, Process, Moment, SyncResult, Sync, reached, stopped, nil_dereference,
}
use distri_max.Workers.Cleanup.{run_cleanup}

pub data Tick : Type 0 where
  cleanup backup : Time → Tick
  sync : (Text → Moment) → Tick

abbrev pub has_crashed : Sync SyncResult → Bool
has_crashed (stopped nil_dereference) = true
has_crashed r = false

module _ {W C : Type 0} (lib : Libraries) (s : Syncer W C) (delete : Text → W → W) where
  -- True if the program has crashed.
  unfoldable pub sync_enabled : (Text → Moment) → List Product → Process W C → Bool × Process W C
  sync_enabled at [] p = (false, p)
  sync_enabled at (x ∷ xs) p =
      let skipped = sync_enabled at xs p in
      let rest = sync_enabled at xs (sync_product lib s (at x.id) x.id (lit "SCHEDULED") p).1 in
      if x.is_enabled
      then (if has_crashed (sync_product lib s (at x.id) x.id (lit "SCHEDULED") p).0
          then (true, (sync_product lib s (at x.id) x.id (lit "SCHEDULED") p).1)
          else rest)
      else skipped

  abbrev pub sync_listed :
      (Text → Moment) → Result (List Product) → Process W C → Bool × Process W C
  sync_listed at (err e) p = (false, p)
  sync_listed at (ok products) p = sync_enabled at products p

  unfoldable pub run_scheduled_sync : (Text → Moment) → Process W C → Bool × Process W C
  run_scheduled_sync at p =
      let (r, db) = list_products p.world.db in
      sync_listed at r (record p { world = record p.world { db = db } })

  unfoldable pub clean_up : Time → Process W C → Process W C
  clean_up now p =
      let (_, db, disk) = run_cleanup delete now p.world.db p.world.disk in
      record p { world = record p.world { db = db; disk = disk } }

  abbrev pub run_tick : Tick → Process W C → Bool × Process W C
  run_tick (cleanup now) p = (false, clean_up now p)
  run_tick (backup now) p = (false, p)
  run_tick (sync at) p = run_scheduled_sync at p

  -- No tick follows a crash.
  abbrev pub run_ticks : List Tick → Process W C → Process W C
  run_ticks [] p = p
  run_ticks (t ∷ ts) p =
      let rest = run_ticks ts (run_tick t p).1 in
      if (run_tick t p).0 then (run_tick t p).1 else rest

  -- A first cleanup, and then the ticks until the context ends.
  unfoldable pub start : Time → List Tick → Process W C → Process W C
  start now ts p = run_ticks ts (clean_up now p)
