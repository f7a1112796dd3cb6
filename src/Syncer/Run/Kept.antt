-- ===== src/Syncer/Run/Kept.antt =====
-- What a synchronisation leaves alone, however it ends.
use distri_max.Db.Schema.{ProductVersion, Tables}
use distri_max.Db.Sql.{first_where, count_where}
use distri_max.Db.Store.Rules.{Keeps}
use distri_max.Db.Versions.{is_current_of, is_served, has_key, has_row_id, publish_new_version}
use distri_max.Db.Versions.Consistent.{IsConsistent, publish_new_version-Keeps}
use distri_max.Db.Versions.Others.{Serves, publish-Serves_other}
use distri_max.Prelude.{ℕ, ◌≤◌, ◌≡◌, ◌≢◌, refl, sym, ◌∙◌, ap, subst, Option, Text}
use distri_max.Syncer.Run.{sync_product, version_of, version_tag}
use distri_max.Syncer.Run.Endings.{Reached, no_news, news}
use distri_max.Syncer.Run.Safety.{Synced, stops, ends, sync_product-Synced}
use distri_max.Syncer.State.{Libraries, Syncer, Process, Moment, SyncResult, Sync}

-- A property of the versions.
abbrev Respects : (Tables → Type 0) → Type 0
Respects P = (t t' : Tables) → t.versions ≡ t'.versions → P t → P t'

module _ {W C : Type 0} (lib : Libraries) (s : Syncer W C) (at : Moment)
    (product_id trigger_type : Text) where
  keeps :
      (P : Tables → Type 0)
      → Respects P
      → ((v : ProductVersion) (days : ℕ)
          → v.product_id ≡ product_id
          → Keeps P (publish_new_version v days at.now))
      → (p : Process W C) → P p.world.db.tables
      → P (sync_product lib s at product_id trigger_type p).1.world.db.tables
  keeps P respects publishes p h =
      go (sync_product lib s at product_id trigger_type p)
        (sync_product-Synced lib s at product_id trigger_type p)
    where
      told :
          (r : SyncResult) (x : Process W C)
          → Reached lib s at product_id trigger_type p.world r x.world
          → P x.world.db.tables
      told r x (no_news v _ same _ _ _) = respects _ _ (sym same) h
      told r x (news w _) =
          let k =
            publishes
              (version_of lib s at product_id trigger_type
                (version_tag lib s at product_id trigger_type w.meta w.last_modified) w.meta
                w.content w.sha256 w.backend w.path)
              w.product.retention_days refl w.before (respects _ _ (sym w.untouched) h) in
          respects _ _ (sym w.visible) (subst (λ y. P y.1.tables) w.committed k)

      go :
          (x : Sync SyncResult × Process W C)
          → Synced lib s at product_id trigger_type p x
          → P x.1.world.db.tables
      go x (stops e _ same _ _) = respects _ _ (sym same) h
      go x (ends r _ i) = told r x.1 i

  -- A synchronisation, however it ends, keeps the versions consistent: at most one current version for
  -- a product, and one row for a key and for a row id.
  pub sync_product-IsConsistent :
      (p : Process W C)
      → IsConsistent p.world.db.tables
      → IsConsistent (sync_product lib s at product_id trigger_type p).1.world.db.tables
  sync_product-IsConsistent =
      keeps IsConsistent
        (λ t t' e c. record {
          one_current = λ q. subst (λ vs. count_where (is_current_of q) vs ≤ 1) e (c.one_current q);
          one_row = λ q w. subst (λ vs. count_where (has_key q w) vs ≤ 1) e (c.one_row q w);
          one_id = λ id. subst (λ vs. count_where (has_row_id id) vs ≤ 1) e (c.one_id id);
        })
        (λ v days _. publish_new_version-Keeps v days at.now)

  -- And it does not change what any other product serves.
  pub sync_product-Serves_other :
      (q : Text) (o : Option ProductVersion)
      → q ≢ product_id
      → (p : Process W C) → Serves q o p.world.db.tables
      → Serves q o (sync_product lib s at product_id trigger_type p).1.world.db.tables
  sync_product-Serves_other q o ne =
      keeps (Serves q o) (λ t t' e h. ap (first_where (is_served q)) (sym e) ∙ h)
        (λ v days same. publish-Serves_other v days at.now q o (λ k. ne (k ∙ same)))
