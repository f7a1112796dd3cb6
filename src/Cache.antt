-- ===== src/Cache.antt =====
-- internal/cache/manifest_cache.go: the map of entries is a function of the key, and the clock is
-- an argument of each call. The mutex makes each call one step.
pub mod Expiry
use distri_max.Prelude.{ℕ, ◌-◌, Bool, Option, none, some, Text, ◌==◌, ltb, eqb, if◌then◌else◌}
use distri_max.Db.Schema.{Time}

pub record ProductManifest : Type 0 where
  pub product : Text
  pub edition_id : Text
  pub version : Text
  pub released_at : Time
  pub sha256 : Text
  pub size_bytes : ℕ
  pub filename : Text
  pub download_url : Text

pub record CacheEntry : Type 0 where
  pub manifest : ProductManifest
  pub cached_at : Time

pub record ManifestCache : Type 0 where
  pub entries : Text → Option CacheEntry
  pub ttl : ℕ

-- 60 * time.Second
abbrev pub default_ttl : ℕ
default_ttl = 60000000000

unfoldable pub new_manifest_cache : ℕ → ManifestCache
new_manifest_cache ttl = record {
  entries = λ id. none;
  ttl = if eqb ttl 0 then default_ttl else ttl;
}

abbrev pub fresh : ℕ → Time → Option CacheEntry → Option ProductManifest
fresh ttl now none = none
fresh ttl now (some e) = if ltb ttl (now - e.cached_at) then none else some e.manifest

unfoldable pub get : ManifestCache → Text → Time → Option ProductManifest
get c id now = fresh c.ttl now (c.entries id)

unfoldable pub set : ManifestCache → Text → ProductManifest → Time → ManifestCache
set c id m now = record c {
  entries = λ j. if id == j then some (record { manifest = m; cached_at = now }) else c.entries j;
}

unfoldable pub invalidate : ManifestCache → Text → ManifestCache
invalidate c id = record c { entries = λ j. if id == j then none else c.entries j }

unfoldable pub invalidate_all : ManifestCache → ManifestCache
invalidate_all c = record c { entries = λ j. none }
