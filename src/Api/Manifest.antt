-- ===== src/Api/Manifest.antt =====
-- internal/api/handlers_manifest.go, and handleProductRollback of internal/ui/ui.go.
pub mod Freshness
use distri_max.Prelude.{ℕ, [], ◌++◌, Option, none, some, Text, lit, ◌==◌, if◌then◌else◌}
use distri_max.Api.Http.{Request, Response, json_error, json_manifest, H, ◌>>=◌, answer}
use distri_max.Api.Download.{quoted}
use distri_max.Cache
use distri_max.Cache.{ProductManifest, ManifestCache}
use distri_max.Db.Schema.{Time, Product, ProductVersion}
use distri_max.Db.Store.{product_not_found, version_not_found, Result, ok, err, M}
use distri_max.Db.Versions.{get_product, get_current_version, rollback_to_version}

abbrev pub manifest_of : Product → ProductVersion → ProductManifest
manifest_of p v = record {
  product = p.id;
  edition_id = p.edition_id;
  version = v.version;
  released_at = v.released_at;
  sha256 = v.sha256;
  size_bytes = v.size_bytes;
  filename = p.artifact_filename;
  download_url = lit "/v1/products/" ++ (p.id ++ lit "/download");
}

-- The answer and the cache that it leaves.
abbrev pub refusal : ManifestCache → ℕ → Text → H (Response × ManifestCache)
refusal c status code = answer (json_error status code, c)

abbrev pub send : ManifestCache → ProductManifest → Response × ManifestCache
send c m = (json_manifest (quoted m.sha256) m, c)

abbrev pub with_current :
    ManifestCache → Text → Time → Product → Result ProductVersion → H (Response × ManifestCache)
with_current c product now p (ok v) =
    answer (send (Cache.set c product (manifest_of p v) now) (manifest_of p v))
with_current c product now p (err version_not_found) = refusal c 404 (lit "version_not_found")
with_current c product now p (err _) = refusal c 500 (lit "database_error")

abbrev pub with_product :
    ManifestCache → Text → Time → Result Product → H (Response × ManifestCache)
with_product c product now (ok p) = do
  v ← get_current_version product
  with_current c product now p v
with_product c product now (err product_not_found) = refusal c 404 (lit "product_not_found")
with_product c product now (err _) = refusal c 500 (lit "database_error")

abbrev pub cached_or :
    ManifestCache
    → Option ProductManifest
    → H (Response × ManifestCache)
    → H (Response × ManifestCache)
cached_or c (some m) next = answer (send c m)
cached_or c none next = next

unfoldable pub manifest_handler : ManifestCache → Time → Request → H (Response × ManifestCache)
manifest_handler c now r =
    if r.product == []
    then refusal c 400 (lit "bad_request")
    else cached_or c (Cache.get c r.product now)
        do p ← get_product r.product; with_product c r.product now p

-- handleProductRollback: a rollback with 30 days of retention, and no call of the cache.
abbrev pub rollback_days : ℕ
rollback_days = 30

unfoldable pub handle_product_rollback : Text → Text → Time → M (Unit {0})
handle_product_rollback product version now = rollback_to_version product version rollback_days now
