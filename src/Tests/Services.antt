-- ===== src/Tests/Services.antt =====
-- The manifest cache, the settings, the logs, the storage, the limiter and the proxies at samples.
use distri_max.Prelude.{
  ℕ, List, ==_iff, arith, ◌≢◌, ◌+◌, ◌≤◌, ◌≡◌, ◌↔◌, ◌||◌, split, trim_space, trim_left, trim_right,
  refl, true, [], ◌∷◌, ◌++◌, Option, none, some, Text, lit, ◌==◌, if◌then◌else◌,
}
use distri_max.Api.Http.{Request, json_manifest}
use distri_max.Api.Limiter.{new_concurrency_limiter, acquire, Server, Reaches, start, next, admit}
use distri_max.Api.Limiter.Reachable.{limiter-bounded}
use distri_max.Api.Proxy.{first_ip, forwarded, resolve_client_ip}
use distri_max.Api.Proxy.Trust.{Source, resolve_client_ip-Source}
use distri_max.Cache
use distri_max.Api.Download.{quoted}
use distri_max.Api.Manifest.{manifest_of, manifest_handler, handle_product_rollback}
use distri_max.Api.Manifest.Freshness.{manifest_handler-rolled_back}
use distri_max.Db.Sql.{first_where}
use distri_max.Db.Store.{healthy}
use distri_max.Db.Versions.{has_id, is_kept}
use distri_max.Cache.{ManifestCache, new_manifest_cache, set, fresh}
use distri_max.Cache.Expiry.{Call, sets, invalidates, run, Stored, get-run}
use distri_max.Storage.{done, StorageBackend}
use distri_max.Storage.Manager.Switching.{reading}
use distri_max.Tests.Samples.{catalogue, city, first, link_request, manifest}

abbrev history : List Call
history = sets (lit "city") manifest 10 ∷ invalidates (lit "asn") ∷ []

-- Forty nanoseconds after the entry was stored, of the sixty that it lives.
get-run_example :
    (Cache.get (run (new_manifest_cache 60) history) (lit "city") 50 ≡ some manifest)
    ↔ ((at : ℕ) × Stored (lit "city") manifest at history × (50 ≤ at + 60))
get-run_example = get-run 60 history (lit "city") manifest 50

city-given : link_request.product ≢ []
unfolding ◌==◌
city-given e = ground (arith, ==_iff (lit "city") [])

first-kept : first_where (is_kept (lit "city") (lit "1")) catalogue.versions ≡ some first
unfolding first_where is_kept ◌==◌
first-kept = refl

city-known : first_where (has_id (lit "city")) catalogue.products ≡ some city
unfolding first_where has_id ◌==◌
city-known = refl

-- The other version's manifest has been stored at 10 for 60 nanoseconds.
abbrev warm : ManifestCache
warm = set (new_manifest_cache 60) (lit "city") manifest 10

manifest_handler-rolled_back_example :
    (manifest_handler warm 71 link_request
      (handle_product_rollback (lit "city") (lit "1") 40 (healthy catalogue)).1).0.0
    ≡ json_manifest (quoted (lit "aa")) (manifest_of city first)
unfolding set new_manifest_cache ◌==◌
manifest_handler-rolled_back_example =
    manifest_handler-rolled_back warm 40 71 link_request (lit "1")
      (record { manifest = manifest; cached_at = 10 }) catalogue city first city-given refl
      (omega arith) city-known first-kept

-- Two maps from paths to artifacts.
abbrev Disks : Type 0
Disks = (Text → Option Text) × (Text → Option Text)

abbrev placed : Text → Option Text → (Text → Option Text) → Text → Option Text
placed path o disk p = if path == p then o else disk p

abbrev local : StorageBackend Disks
local = record {
  store_artifact = λ product version filename bytes size w.
      (done (product ++ filename), (placed (product ++ filename) (some bytes) w.0, w.1));
  open_artifact = λ path w. reading (w.0 path);
  delete_artifact = λ path w. (none, (placed path none w.0, w.1));
  verify_artifact = λ path size w. none;
}

-- One download is in flight, of at most two.
abbrev busy : Server
busy = record { limiter = record { capacity = 2; held = 1 }; in_flight = 1 }

busy-Reaches : Reaches 2 busy
unfolding new_concurrency_limiter acquire
busy-Reaches = next start (admit (record { capacity = 2; held = 1 }) refl)

limiter-bounded_example : (1 ≤ 2) × ((acquire busy.limiter ≡ none) ↔ (busy.in_flight ≡ 2))
limiter-bounded_example = limiter-bounded 2 busy busy-Reaches

-- Behind a proxy, whose header names nothing and then an address.
abbrev forwarded_request : Request
forwarded_request = record link_request {
  header = λ name. if name == lit "X-Forwarded-For" then lit "unknown, 10.0.0.7" else [];
}

abbrev parse_ip : Text → Option Text
parse_ip s = if (s == lit "unknown") || (s == []) then none else some s

resolve_client_ip-Source_example :
    Source parse_ip (λ s. none) (λ ip. true) forwarded_request (lit "10.0.0.7")
unfolding resolve_client_ip forwarded first_ip split trim_space trim_left trim_right ◌==◌
resolve_client_ip-Source_example =
    resolve_client_ip-Source parse_ip (λ s. none) (λ ip. true) forwarded_request
