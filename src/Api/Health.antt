-- ===== src/Api/Health.antt =====
-- internal/api/handlers_health.go. A time.Duration is the 64-bit pattern of its nanoseconds.
pub mod Ready
use distri_max.Api.Http.{H, ◌>>=◌, answer}
use distri_max.Db.Clock.{days_duration}
use distri_max.Db.Schema.{Time, Product, ProductVersion}
use distri_max.Db.Settings.{get_setting}
use distri_max.Db.Store.{Result, ok, err, query}
use distri_max.Db.Versions.{list_products, get_current_version}
use distri_max.Prelude.{
  ℕ, ◌-◌, ◌^◌, Bool, true, false, List, [], ◌∷◌, ◌++◌, Option, none, some, Text, lit, leb, ltb,
  if◌then◌else◌,
}

pub data Report : Type 0 where
  alive ready : Report
  unready : Text → Report
  degraded : List Text → Report

abbrev pub http_status : Report → ℕ
http_status alive = 200
http_status ready = 200
http_status (unready e) = 503
http_status (degraded names) = 503

abbrev pub liveness : H Report
liveness = answer alive

abbrev pub at_most : ℕ → ℕ → ℕ
at_most bound n = if leb n bound then n else bound

-- now.Sub(t) > limit: the difference stops at the bounds of a duration.
unfoldable pub age_exceeds : Time → Time → ℕ → Bool
age_exceeds now t limit =
    if leb t now
    then (if ltb limit (2 ^ 63) then ltb limit (at_most (2 ^ 63 - 1) (now - t)) else true)
    else (if ltb limit (2 ^ 63) then false else ltb (at_most (2 ^ 63) (t - now)) (2 ^ 64 - limit))

unfoldable pub is_stale : Time → ℕ → ProductVersion → Bool
unfolding age_exceeds
is_stale now staleness_days v = age_exceeds now v.released_at (days_duration staleness_days)

abbrev pub labelled : Time → Product → Result ProductVersion → List Text → List Text
labelled now p (err e) names = (p.id ++ lit " (missing)") ∷ names
labelled now p (ok v) names =
    if is_stale now p.staleness_days v then (p.id ++ lit " (stale)") ∷ names else names

unfoldable pub stale_products : Time → List Product → H (List Text)
stale_products now [] = answer []
stale_products now (p ∷ ps) =
    let rest = stale_products now ps in
    if p.is_enabled
    then (do r ← get_current_version p.id; names ← rest; answer (labelled now p r names))
    else rest

abbrev pub verdict : List Text → Report
verdict [] = ready
verdict (name ∷ names) = degraded (name ∷ names)

abbrev pub listed : Time → Result (List Product) → H Report
listed now (err e) = answer (unready (lit "failed to query products"))
listed now (ok products) = do names ← stale_products now products; answer (verdict names)

abbrev pub pinged : Time → Result (Unit {0}) → H Report
pinged now (err e) = answer (unready (lit "database ping failed"))
pinged now (ok _) = do products ← list_products; listed now products

unfoldable pub readiness : Time → H Report
readiness now = do ping ← query (λ t. ok tt); pinged now ping

pub record ProductStatus : Type 0 where
  pub id : Text
  pub enabled : Bool
  pub version : Text
  pub released : Option Time
  pub size_bytes : ℕ

abbrev pub status_of : Product → Result ProductVersion → ProductStatus
status_of p (err e) = record {
  id = p.id;
  enabled = p.is_enabled;
  version = [];
  released = none;
  size_bytes = 0;
}
status_of p (ok v) = record {
  id = p.id;
  enabled = p.is_enabled;
  version = v.version;
  released = some v.released_at;
  size_bytes = v.size_bytes;
}

unfoldable pub statuses : List Product → H (List ProductStatus)
statuses [] = answer []
statuses (p ∷ ps) = do
  r ← get_current_version p.id
  rest ← statuses ps
  answer (status_of p r ∷ rest)

pub record StatusPage : Type 0 where
  pub storage_backend : Text
  pub products : List ProductStatus
  pub server_time : Time

abbrev pub setting_or_empty : Result (Text × Bool) → Text
setting_or_empty (err e) = []
setting_or_empty (ok (val, is_encrypted)) = val

-- none: the error that the products could not be retrieved.
abbrev pub page : Time → Result (List Product) → H (Option StatusPage)
page now (err e) = answer none
page now (ok products) = do
  list ← statuses products
  backend ← get_setting (lit "storage_backend")
  answer (
      some
        (record { storage_backend = setting_or_empty backend; products = list; server_time = now }))

unfoldable pub status : Time → H (Option StatusPage)
unfolding statuses
status now = do products ← list_products; page now products
