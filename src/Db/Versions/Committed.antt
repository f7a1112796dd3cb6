-- ===== src/Db/Versions/Committed.antt =====
-- Which version a product serves after a publication that has succeeded, whatever the driver has
-- refused before.
use mathlib.Core.Option
use distri_max.Db.Schema.{Time, ProductVersion, Tables}
use distri_max.Db.Sql.{first_where, first_where-eq-some}
use distri_max.Db.Store.{ok, Db}
use distri_max.Db.Store.Rules.{Holds, OkTo, exec-Establishes, bind-Establishes, with_tx-Establishes}
use distri_max.Db.Versions.{
  is_some, has_id, is_served, has_key, has_row_id, row_id, supersede, insert_version, deadline_of,
  publish_new_version, demoted, is_current_of,
}
use distri_max.Db.Versions.Current.{published, key_kept, served_old, served_new}
use distri_max.Prelude.{
  ℕ, ◌≡◌, refl, sym, ◌∙◌, ap, subst, true, inl, inr, Bool-cases, List, Text, ==_iff, &&-eq-true,
  Option, none, some, if◌then◌else◌,
}

-- The row that is served is the published one, new or renewed, under the published version's name.
abbrev pub ServesNew : ProductVersion → Time → Tables → Type 0
ServesNew v now t =
    (o : Option ProductVersion) × (first_where (is_served v.product_id) t.versions
      ≡ some (published v now o))
    × ((published v now o).version ≡ v.version)

key_version :
    (product version : Text) (xs : List ProductVersion) (w : ProductVersion)
    → first_where (has_key product version) xs ≡ some w
    → w.version ≡ version
unfolding has_key
key_version product version xs w h =
    (==_iff w.version version).0
      (&&-eq-true _ _ (first_where-eq-some (has_key product version) xs w h)).1

module _ (v : ProductVersion) (now deadline : Time) (t : Tables) where
  was_there :
      (o : Option ProductVersion)
      → is_some
          (Option.map (λ x. if is_current_of v.product_id x then demoted now deadline x else x) o)
        ≡ true
      → (w : ProductVersion) × (o ≡ some w)
  was_there none h = absurd (cc h)
  was_there (some w) h = (w, refl)

  inserted-Holds :
      Holds (ServesNew v now) (insert_version v now (supersede v.product_id now deadline t))
  unfolding insert_version
  inserted-Holds =
      elim (Bool-cases (
        is_some (
          first_where (has_key v.product_id v.version)
            (supersede v.product_id now deadline t).versions))) [
              | inl old ↦
                  let (w, e) = was_there _ (ap is_some (sym (key_kept v now deadline t)) ∙ old) in
                  rw old (
                    some w,
                    served_old v now deadline t e,
                    key_version v.product_id v.version t.versions w e,
                  )
              | inr new ↦
                  elim (Bool-cases (
                    is_some (
                      first_where (has_row_id (row_id v.product_id v.version))
                        (supersede v.product_id now deadline t).versions))) [
                          | inl clash ↦ rw (new, clash) tt
                          | inr free ↦
                              elim (Bool-cases (
                                is_some (
                                  first_where (has_id v.product_id)
                                    (supersede v.product_id now deadline t).products))) [
                                      | inl known ↦
                                          rw (new, free, known)
                                            (none, served_new v now deadline t, refl)
                                      | inr unknown ↦ rw (new, free, unknown) tt
                                    ]
                        ]
            ]

-- A publication that has succeeded makes the new version the one that is served, whatever the driver
-- has refused: with everything that was published if its row is new, and else with the old row's id
-- and release time.
pub publish-ServesNew :
    (v : ProductVersion) (retention_days : ℕ) (now : Time) (db after : Db)
    → publish_new_version v retention_days now db ≡ (ok tt, after)
    → ServesNew v now after.tables
unfolding publish_new_version
publish-ServesNew v retention_days now db after e = subst (OkTo (ServesNew v now)) e (
    with_tx-Establishes (λ t. t ≡ db.tables) (ServesNew v now) _
      (bind-Establishes (λ t. t ≡ db.tables)
        (λ t. t ≡ supersede v.product_id now (deadline_of now retention_days) db.tables)
        (ServesNew v now) _ _
        (exec-Establishes _ _ _
          (λ t h. ap (supersede v.product_id now (deadline_of now retention_days)) h))
        (λ _. exec-Establishes _ _ _ (λ t h.
          subst (λ t. Holds (ServesNew v now) (insert_version v now t)) (sym h)
            (inserted-Holds v now (deadline_of now retention_days) db.tables))))
      db refl)
