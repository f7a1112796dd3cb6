-- ===== src/Db/Versions/Others.antt =====
-- What publications and rollbacks leave alone: the other products, versions that are not due yet,
-- and everything if they fail.
use distri_max.Prelude.{
  ℕ, ◌≡◌, ◌≢◌, refl, ◌∙◌, true, false, inl, inr, Option, Text, ◌==◌, ==_iff, Bool-cases, arith, [],
  ◌∷◌, ◌++◌,
}
use distri_max.Db.Schema.{Time, ProductVersion, Tables}
use distri_max.Db.Sql.{first_where, update_where, first_where-update, first_where-append_unseen}
use distri_max.Db.Store.{query, try, Db, Error, err}
use distri_max.Db.Store.Rules.{
  Keeps, Holds, Establishes, exec-Establishes, bind-Establishes, with_tx-Keeps, query-Keeps,
  with_tx_atomic,
}
use distri_max.Db.Versions.{
  is_some, has_id, is_current_of, is_served, has_key, has_row_id, demoted, supersede, replaced,
  inserted, row_id, insert_version, deadline_of, publish_new_version, promoted, promote, repoint,
  kept_count, rollback_to_version,
}
use distri_max.Db.Versions.Consistent.{checked_count-Establishes}

-- What both transactions keep, from what their statements keep.
module _ (P : Tables → Type 0) where
  pub publish-Keeps :
      (v : ProductVersion) (retention_days : ℕ) (now : Time)
      → ((t : Tables) → P t → P (supersede v.product_id now (deadline_of now retention_days) t))
      → ((t : Tables) → P t → Holds P (insert_version v now t))
      → Keeps P (publish_new_version v retention_days now)
  unfolding publish_new_version
  publish-Keeps v retention_days now hs hi =
      with_tx-Keeps P _
        (bind-Establishes P P P _ _ (exec-Establishes P P _ hs) (λ _. exec-Establishes P P _ hi))

  repoint_keeps :
      (product version : Text) (now deadline : Time)
      → ((t : Tables) → P t → P (supersede product now deadline t))
      → ((t : Tables) → P t → P (promote product version t))
      → Establishes P P (repoint product version now deadline)
  unfolding repoint
  repoint_keeps product version now deadline hs hp =
      bind-Establishes P P P _ _ (exec-Establishes P P _ hs) (λ _. exec-Establishes P P _ hp)

  pub rollback-Keeps :
      (product version : Text) (retention_days : ℕ) (now : Time)
      → ((t : Tables) → P t → P (supersede product now (deadline_of now retention_days) t))
      → ((t : Tables) → P t → P (promote product version t))
      → Keeps P (rollback_to_version product version retention_days now)
  unfolding rollback_to_version
  rollback-Keeps product version retention_days now hs hp = with_tx-Keeps P _ (
      bind-Establishes P P P (try (query (kept_count product version))) _
        (query-Keeps P (kept_count product version))
        (λ r. checked_count-Establishes P P r _ (repoint_keeps product version now _ hs hp)))

  pub insert_version-keeps :
      (v : ProductVersion) (now : Time) (t : Tables)
      → P (record t {
        versions = update_where (has_key v.product_id v.version) (replaced v) t.versions;
      })
      → P (record t { versions = t.versions ++ inserted v now ∷ [] })
      → Holds P (insert_version v now t)
  unfolding insert_version
  insert_version-keeps v now t ho hn =
      elim (Bool-cases (is_some (first_where (has_key v.product_id v.version) t.versions))) [
        | inl old ↦ rw (old, insert_version) ho
        | inr new ↦
            elim (Bool-cases
              (is_some (first_where (has_row_id (row_id v.product_id v.version)) t.versions))) [
                | inl clash ↦ rw (new, clash, insert_version) tt
                | inr free ↦
                    elim (Bool-cases (is_some (first_where (has_id v.product_id) t.products))) [
                      | inl known ↦ rw (new, free, known, insert_version) hn
                      | inr unknown ↦ rw (new, free, unknown, insert_version) tt
                    ]
              ]
      ]

-- The version that a product serves.
abbrev pub Serves : Text → Option ProductVersion → Tables → Type 0
Serves p o t = first_where (is_served p) t.versions ≡ o

module _ {p q : Text} (ne : p ≢ q) where
  other_product : (x : ProductVersion) → (x.product_id == q) ≡ true → is_served p x ≡ false
  unfolding is_served
  other_product x h = ground (arith, ==_iff x.product_id p, ==_iff x.product_id q)

  supersede-Serves :
      (now deadline : Time) (o : Option ProductVersion) (t : Tables)
      → Serves p o t
      → Serves p o (supersede q now deadline t)
  unfolding supersede is_current_of
  supersede-Serves now deadline o t h =
      first_where-update _ _ (demoted now deadline) t.versions
        (λ x k. other_product x (ground arith))
        (λ x k. other_product (demoted now deadline x) (ground arith))
      ∙ h

  update-Serves :
      (w : Text) (f : ProductVersion → ProductVersion)
      → ((x : ProductVersion) → (f x).product_id ≡ x.product_id)
      → (o : Option ProductVersion) (t : Tables) → Serves p o t
      → first_where (is_served p) (update_where (has_key q w) f t.versions) ≡ o
  unfolding has_key
  update-Serves w f hf o t h =
      first_where-update (is_served p) (has_key q w) f t.versions
        (λ x k. other_product x (ground arith))
        (λ x k. other_product (f x) (rw (hf x) (ground arith)))
      ∙ h

  promote-Serves :
      (w : Text) (o : Option ProductVersion) (t : Tables)
      → Serves p o t
      → Serves p o (promote q w t)
  unfolding promote
  promote-Serves w o t h = update-Serves w promoted (λ x. refl) o t h

-- A publication for one product, refused or not, does not change what any other product serves.
pub publish-Serves_other :
    (v : ProductVersion) (retention_days : ℕ) (now : Time) (p : Text) (o : Option ProductVersion)
    → p ≢ v.product_id
    → Keeps (Serves p o) (publish_new_version v retention_days now)
publish-Serves_other v retention_days now p o ne =
    publish-Keeps (Serves p o) v retention_days now
      (supersede-Serves ne now (deadline_of now retention_days) o)
      (λ t h.
        insert_version-keeps (Serves p o) v now t
          (update-Serves ne v.version (replaced v) (λ x. refl) o t h)
          (first_where-append_unseen _ t.versions (inserted v now)
              (other_product ne (inserted v now) ((==_iff _ _).1 refl))
            ∙ h))

-- A rollback of one product, refused or not, does not change what any other product serves.
pub rollback-Serves_other :
    (product version : Text) (retention_days : ℕ) (now : Time) (p : Text)
    (o : Option ProductVersion)
    → p ≢ product
    → Keeps (Serves p o) (rollback_to_version product version retention_days now)
rollback-Serves_other product version retention_days now p o ne =
    rollback-Keeps (Serves p o) product version retention_days now
      (supersede-Serves ne now (deadline_of now retention_days) o) (promote-Serves ne version o)

-- A publication that fails, for whatever reason, leaves every table as it was.
pub publish-atomic :
    (v : ProductVersion) (retention_days : ℕ) (now : Time) (db : Db) (e : Error)
    → (publish_new_version v retention_days now db).0 ≡ err e
    → (publish_new_version v retention_days now db).1.tables ≡ db.tables
unfolding publish_new_version
publish-atomic v retention_days now db e = with_tx_atomic _ db e

-- A rollback that fails, for whatever reason, leaves every table as it was.
pub rollback-atomic :
    (product version : Text) (retention_days : ℕ) (now : Time) (db : Db) (e : Error)
    → (rollback_to_version product version retention_days now db).0 ≡ err e
    → (rollback_to_version product version retention_days now db).1.tables ≡ db.tables
unfolding rollback_to_version
rollback-atomic product version retention_days now db e = with_tx_atomic _ db e
