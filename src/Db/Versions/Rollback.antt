-- ===== src/Db/Versions/Rollback.antt =====
-- Rolling a product back to a version that is kept, and failing to.
use mathlib.Core.Option
use distri_max.Prelude.{
  ℕ, Bool, ◌≡◌, refl, ◌∙◌, ap, true, false, none, some, Text, if◌then◌else◌, arith,
}
use distri_max.Db.Schema.{Time, ProductVersion, Tables}
use distri_max.Db.Sql.{
  first_where, first_where-update_new, first_where-update_same, count_where_of_first,
  first_where-eq-none,
}
use distri_max.Db.Store.{version_not_found, ok, err, exec, query, with_tx, healthy}
use distri_max.Db.Versions.{
  is_current_of, is_served, has_key, is_kept, demoted, supersede, deadline_of, promoted, promote,
  rollback_to_version, get_current_version,
}
use distri_max.Db.Versions.Current.{serves, unserved}

pub rollback-eq :
    (product version : Text) (retention_days : ℕ) (now : Time) (t : Tables) (w : ProductVersion)
    → first_where (is_kept product version) t.versions ≡ some w
    → rollback_to_version product version retention_days now (healthy t) ≡ (
      ok tt,
      healthy (promote product version (supersede product now (deadline_of now retention_days) t)),
    )
unfolding rollback_to_version with_tx exec query
rollback-eq product version retention_days now t w e = rw (count_where_of_first _ _ _ e)

promoted-touched :
    (now deadline : Time) (b : Bool) (w : ProductVersion)
    → promoted (if b then demoted now deadline w else w) ≡ promoted w
promoted-touched now deadline true w = refl
promoted-touched now deadline false w = refl

pub served_promoted :
    (product version : Text) (now deadline : Time) (t : Tables) (w : ProductVersion)
    → first_where (is_kept product version) t.versions ≡ some w
    → first_where
        (is_served product)
        (promote product version (supersede product now deadline t)).versions
      ≡ some (promoted w)
unfolding promote supersede is_served is_kept has_key
served_promoted product version now deadline t w e =
    first_where-update_new _ _ (is_kept product version) promoted
      (supersede product now deadline t).versions (λ x h. ground arith) (λ x h. ground arith)
      (unserved product now deadline t.versions)
    ∙ ap (Option.map promoted)
        (first_where-update_same _ _ _ t.versions (λ x. refl) ∙ ap (Option.map _) e)
    ∙ ap some (promoted-touched now deadline (is_current_of product w) w)

-- A rollback to a version that is there and not deleted succeeds, if the driver refuses nothing,
-- and that row is served from then on, with no cleanup due.
pub rollback-get_current :
    (product version : Text) (retention_days : ℕ) (now : Time) (t : Tables) (w : ProductVersion)
    → first_where (is_kept product version) t.versions ≡ some w
    → ((rollback_to_version product version retention_days now (healthy t)).0 ≡ ok tt)
      × ((get_current_version product
            (rollback_to_version product version retention_days now (healthy t)).1).0
          ≡ ok (promoted w))
rollback-get_current product version retention_days now t w e =
    let deadline = deadline_of now retention_days in
    serves product _ _ (promoted w) (rollback-eq product version retention_days now t w e)
      (served_promoted product version now deadline t w e)

-- A rollback to a version that is missing or deleted reports just that, if the driver refuses
-- nothing, and changes no table.
pub rollback-missing :
    (product version : Text) (retention_days : ℕ) (now : Time) (t : Tables)
    → first_where (is_kept product version) t.versions ≡ none
    → rollback_to_version product version retention_days now (healthy t)
      ≡ (err version_not_found, healthy t)
unfolding rollback_to_version with_tx exec query
rollback-missing product version retention_days now t e = rw (first_where-eq-none _ _ e)
