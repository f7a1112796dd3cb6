-- ===== src/Api/Download/Served.antt =====
-- What a download hands out.
use distri_max.Prelude.{
  ◌≡◌, inl, inr, refl, subst, false, ◌||◌, [], Option, some, Text, lit, ◌==◌, Bool-cases,
  if◌then◌else◌, arith,
}
use distri_max.Api.Http.{Request, Context, Content, serve_content}
use distri_max.Api.Download.{
  Env, wrong_filename, requested_version, target_version, quoted, matches_etag, unmodified, serve,
  respond, with_version, with_product, download_handler,
}
use distri_max.Db.Schema.{Product, ProductVersion, Tables}
use distri_max.Db.Sql.{first_where}
use distri_max.Db.Store.{product_not_found, version_not_found, Result, ok, err, Db}
use distri_max.Db.Store.Rules.{query-eq-ok}
use distri_max.Db.Versions.{
  get_product, get_product_version, get_current_version, has_id, is_served, is_kept, found-eq-ok,
}
use distri_max.Storage.{
  Outcome, done, fail, not_found, size_mismatch, invalid_path, no_backend, not_configured,
  unknown_driver, failed,
}

-- The row that a request is answered from.
abbrev pub target : Text → Text → Tables → Option ProductVersion
target product version t =
    if version == []
    then first_where (is_served product) t.versions
    else first_where (is_kept product version) t.versions

pub record IsServed (env : Env) (r : Request) (version : Text) (t : Tables) (c : Content)
    : Type 0 where
  pub product : Product
  pub row : ProductVersion
  pub catalogued : first_where (has_id r.product) t.products ≡ some product
  pub chosen : target r.product version t ≡ some row
  pub present : row.is_deleted ≡ false
  pub body : env.open_artifact row.storage_path ≡ done c.body
  pub etag : c.etag ≡ quoted row.sha256
  pub modified : c.modified ≡ row.released_at

serve-eq :
    (p : Product) (v : ProductVersion) (o : Outcome Text) (c : Content)
    → serve p v o ≡ serve_content c
    → (o ≡ done c.body) × (c.etag ≡ quoted v.sha256) × (c.modified ≡ v.released_at)
serve-eq p v (done b) c h = ground arith
serve-eq p v (fail not_found) c h = cc
serve-eq p v (fail size_mismatch) c h = cc
serve-eq p v (fail invalid_path) c h = cc
serve-eq p v (fail no_backend) c h = cc
serve-eq p v (fail not_configured) c h = cc
serve-eq p v (fail unknown_driver) c h = cc
serve-eq p v (fail failed) c h = cc

respond-eq :
    (env : Env) (r : Request) (p : Product) (v : ProductVersion) (c : Content)
    → respond env r p v ≡ serve_content c
    → (v.is_deleted ≡ false) × (serve p v (env.open_artifact v.storage_path) ≡ serve_content c)
unfolding respond
respond-eq env r p v c h = elim (Bool-cases (v.is_deleted || (v.storage_path == []))) [
  | inl gone ↦ let k = rw gone at h in absurd (cc k)
  | inr there ↦
      elim (Bool-cases (matches_etag (r.header (lit "If-None-Match")) (quoted v.sha256))) [
        | inl same ↦ let k = rw (there, same) at h in absurd (cc k)
        | inr differs ↦ elim (Bool-cases (unmodified env r v.released_at)) [
          | inl old ↦ let k = rw (there, differs, old) at h in absurd (cc k)
          | inr news ↦ (ground arith, rw (there, differs, news) at h)
        ]
      ]
]

with_version-eq :
    (env : Env) (r : Request) (p : Product) (res : Result ProductVersion) (c : Content)
    → with_version env r p res ≡ serve_content c
    → (v : ProductVersion) × (res ≡ ok v) × (respond env r p v ≡ serve_content c)
with_version-eq env r p (ok v) c h = (v, refl, h)
with_version-eq env r p (err version_not_found) c h = absurd (cc h)
with_version-eq env r p (err _) c h = absurd (cc h)

target_version-eq :
    (product version : Text) (db : Db) (v : ProductVersion)
    → (target_version product version db).0 ≡ ok v
    → target product version db.tables ≡ some v
unfolding target_version get_current_version get_product_version
target_version-eq product version db v h = elim (Bool-cases (version == [])) [
  | inl none_asked ↦
      rw none_asked (found-eq-ok version_not_found _ v (query-eq-ok _ db v (rw none_asked at h)).0)
  | inr asked ↦ rw asked (found-eq-ok version_not_found _ v (query-eq-ok _ db v (rw asked at h)).0)
]

get_product-eq :
    (product : Text) (db : Db) (p : Product)
    → (get_product product db).0 ≡ ok p
    → (first_where (has_id product) db.tables.products ≡ some p)
      × ((get_product product db).1.tables ≡ db.tables)
unfolding get_product
get_product-eq product db p h =
    let (read, same) = query-eq-ok _ db p h in (found-eq-ok product_not_found _ p read, same)

with_product-eq :
    (env : Env) (r : Request) (ctx : Context) (res : Result Product) (db : Db) (c : Content)
    → (with_product env r ctx res db).0 ≡ serve_content c
    → (p : Product) × (res ≡ ok p)
      × (with_version env r p (target_version r.product (requested_version r ctx) db).0
          ≡ serve_content c)
with_product-eq env r ctx (ok p) db c h = elim (Bool-cases (wrong_filename env r p)) [
  | inl wrong ↦ let k = rw wrong at h in absurd (cc k)
  | inr right ↦ (p, refl, rw right at h)
]
with_product-eq env r ctx (err product_not_found) db c h = absurd (cc h)
with_product-eq env r ctx (err _) db c h = absurd (cc h)

-- A file is handed out only if the product is in the catalogue, and then it is what the storage has
-- for a row of that product that is not deleted: the version that the request or its token asks
-- for, or else the current one. Its entity tag is the row's checksum and its date the release time.
pub download_handler-IsServed :
    (env : Env) (r : Request) (ctx : Context) (db : Db) (c : Content)
    → (download_handler env r ctx db).0 ≡ serve_content c
    → IsServed env r (requested_version r ctx) db.tables c
unfolding download_handler
download_handler-IsServed env r ctx db c h = elim (Bool-cases (r.product == [])) [
  | inl missing ↦ let k = rw missing at h in absurd (cc k)
  | inr given ↦
      let x = get_product r.product db in
      let (p, ep, h1) = with_product-eq env r ctx x.0 x.1 c (rw given at h) in
      let (v, ev, h2) = with_version-eq env r p _ c h1 in
      let (present, h3) = respond-eq env r p v c h2 in
      let (body, etag, modified) = serve-eq p v _ c h3 in
      let (read, same) = get_product-eq r.product db p ep in
      record {
        product = p;
        row = v;
        catalogued = read;
        chosen =
            subst (λ t. target r.product (requested_version r ctx) t ≡ some v) same
              (target_version-eq r.product (requested_version r ctx) x.1 v ev);
        present = present;
        body = body;
        etag = etag;
        modified = modified;
      }
]
