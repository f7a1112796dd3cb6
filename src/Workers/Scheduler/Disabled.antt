-- ===== src/Workers/Scheduler/Disabled.antt =====
-- Which products a scheduled synchronisation leaves alone.
use distri_max.Db.Schema.{Product, ProductVersion}
use distri_max.Db.Sql.{order_by, order_by-All}
use distri_max.Db.Store.{Result, ok, err}
use distri_max.Db.Store.Rules.{query-eq-ok, query-Keeps}
use distri_max.Db.Versions.{list_products}
use distri_max.Db.Versions.Others.{Serves}
use distri_max.Prelude.{
  ◌≡◌, ◌≢◌, refl, sym, subst, true, inl, inr, Bool-cases, List, [], ◌∷◌, Option, Text, lit, All,
  arith,
}
use distri_max.Syncer.Run.{sync_product}
use distri_max.Syncer.Run.Kept.{sync_product-Serves_other}
use distri_max.Syncer.State.{Libraries, Syncer, Process, Moment}
use distri_max.Workers.Scheduler.{has_crashed, sync_enabled, sync_listed, run_scheduled_sync}

module _ {W C : Type 0} (lib : Libraries) (s : Syncer W C) (delete : Text → W → W) (q : Text)
    (o : Option ProductVersion) where
  -- Not a product that is synchronised under the id `q`.
  abbrev pub IsIdle : Product → Type 0
  IsIdle x = x.is_enabled ≡ true → x.id ≢ q

  sync_enabled-Serves :
      (at : Text → Moment) (ps : List Product) (p : Process W C)
      → All IsIdle ps
      → Serves q o p.world.db.tables
      → Serves q o (sync_enabled lib s delete at ps p).1.world.db.tables
  unfolding sync_enabled
  sync_enabled-Serves at [] p a h = h
  sync_enabled-Serves at (x ∷ xs) p a h = elim (Bool-cases x.is_enabled) [
    | inl on ↦
        let k =
          sync_product-Serves_other lib s (at x.id) x.id (lit "SCHEDULED") q o (λ e. a.0 on (sym e))
            p h in
        elim (Bool-cases (has_crashed (sync_product lib s (at x.id) x.id (lit "SCHEDULED") p).0)) [
          | inl dead ↦ simp (on, dead) k
          | inr alive ↦ simp (on, alive) (sync_enabled-Serves at xs _ a.1 k)
        ]
    | inr off ↦ simp off (sync_enabled-Serves at xs p a.1 h)
  ]

  sync_listed-Serves :
      (at : Text → Moment) (r : Result (List Product)) (p : Process W C)
      → ((ps : List Product) → r ≡ ok ps → All IsIdle ps)
      → Serves q o p.world.db.tables
      → Serves q o (sync_listed lib s delete at r p).1.world.db.tables
  sync_listed-Serves at (err e) p a h = h
  sync_listed-Serves at (ok ps) p a h = sync_enabled-Serves at ps p (a ps refl) h

  -- A scheduled synchronisation, whatever the driver, the storage and upstream answer, does not change
  -- what a product serves that is disabled.
  pub run_scheduled_sync-disabled :
      (at : Text → Moment) (p : Process W C)
      → All IsIdle p.world.db.tables.products
      → Serves q o p.world.db.tables
      → Serves q o (run_scheduled_sync lib s delete at p).1.world.db.tables
  unfolding run_scheduled_sync list_products
  run_scheduled_sync-disabled at p a h =
      sync_listed-Serves at _ _
        (λ ps e.
          let k = (query-eq-ok _ p.world.db ps e).0 in
          let same : order_by _ p.world.db.tables.products ≡ ps = ok_injective k in
          subst (All IsIdle) same (order_by-All IsIdle _ p.world.db.tables.products a))
        (query-Keeps (Serves q o) _ p.world.db h)
    where
      ok_injective : {x y : List Product} → ok x ≡ ok y → x ≡ y
      ok_injective {x} {y} e = ground arith
