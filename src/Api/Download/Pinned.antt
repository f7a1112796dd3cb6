-- ===== src/Api/Download/Pinned.antt =====
-- Downloads with a temporary token.
use distri_max.Prelude.{
  Bool, List, ◌≡◌, ◌≢◌, ◌⊎◌, inl, inr, refl, ap, sym, subst, ◌∙◌, true, false, [], some, Text, lit,
  ◌==◌, ==_iff, Bool-cases, if◌then◌else◌, arith,
}
use distri_max.Api.Http.{Request, Context, Content, Response, serve_content, ◌>>=◌}
use distri_max.Api.Download.{Env, requested_version, download_handler}
use distri_max.Api.Download.Served.{target, download_handler-IsServed}
use distri_max.Api.DownloadAuth.{token_of, require_download_auth}
use distri_max.Api.DownloadAuth.Tokens.{
  Permits, Decides, refuses, passes, require_download_auth-Decides,
}
use distri_max.Db.Schema.{Time, ProductVersion, DownloadToken, Tables}
use distri_max.Db.Sql.{first_where, first_where-eq-some}
use distri_max.Db.Store.{Db}
use distri_max.Db.Store.Rules.{Keeps, exec-Keeps}
use distri_max.Db.Tokens.{is_token, increment_download_token_usage}
use distri_max.Db.Versions.{is_served, is_kept}
use distri_max.Storage.{done}

-- The part of the tables that a download reads.
abbrev SameCatalogue : Tables → Tables → Type 0
SameCatalogue t u = (u.products ≡ t.products) × (u.versions ≡ t.versions)

increment-SameCatalogue :
    (token : Text) (t : Tables) → Keeps (SameCatalogue t) (increment_download_token_usage token)
unfolding increment_download_token_usage
increment-SameCatalogue token t = exec-Keeps (SameCatalogue t) _ (λ u h. h)

served_product :
    (product : Text) (v : ProductVersion) → is_served product v ≡ true → v.product_id ≡ product
unfolding is_served
served_product product v h = ground (arith, ==_iff v.product_id product)

kept_key :
    (product version : Text) (v : ProductVersion)
    → is_kept product version v ≡ true
    → (v.product_id ≡ product) × (v.version ≡ version)
unfolding is_kept
kept_key product version v h = ground (arith, ==_iff v.product_id product, ==_iff v.version version)

target-product :
    (product version : Text) (t : Tables) (v : ProductVersion)
    → target product version t ≡ some v
    → (v.product_id ≡ product) × ((version ≡ []) ⊎ (v.version ≡ version))
target-product product version t v h = elim (Bool-cases (version == [])) [
  | inl none_asked ↦
      let e : first_where (is_served product) t.versions ≡ some v = rw none_asked at h in
      (
        served_product product v (first_where-eq-some _ _ v e),
        inl ((==_iff version []).0 none_asked),
      )
  | inr asked ↦
      let e : first_where (is_kept product version) t.versions ≡ some v = rw asked at h in
      let (same, k) = kept_key product version v (first_where-eq-some _ _ v e) in (same, inr k)
]

-- A row that one of the look-ups of the handler finds.
pub data IsRow (v : ProductVersion) (t : Tables) : Type 0 where
  finds : (product version : Text) → target product version t ≡ some v → IsRow v t

-- Whom and what a download with a token is for.
pub record IsTokenDownload (env : Env) (r : Request) (now : Time) (t : Tables) (c : Content)
    : Type 0 where
  pub token : DownloadToken
  pub row : ProductVersion
  pub issued : first_where (is_token (token_of r)) t.tokens ≡ some token
  pub permits : Permits r.product (r.query (lit "version")) now token
  pub present : row.is_deleted ≡ false
  pub listed : IsRow row t
  pub product : row.product_id ≡ r.product
  pub version : (token.version ≡ []) ⊎ (row.version ≡ token.version)
  pub body : env.open_artifact row.storage_path ≡ done c.body

ne-nil : (s : Text) → (s == []) ≡ false → s ≢ []
ne-nil s h e = ground (arith, ==_iff s [])

given_version :
    (q v w : Text)
    → (q ≡ []) ⊎ (w ≡ q)
    → q ≢ []
    → (v ≡ []) ⊎ ((q ≡ []) ⊎ (q ≡ v))
    → (v ≡ []) ⊎ (w ≡ v)
given_version q v w (inl e) ne h = absurd (ne e)
given_version q v w (inr e) ne (inl f) = inl f
given_version q v w (inr e) ne (inr (inl f)) = absurd (ne f)
given_version q v w (inr e) ne (inr (inr f)) = inr (e ∙ f)

-- The version asked for is the token's, if the token has one.
asked_version :
    (r : Request) (ctx : Context) (now : Time) (d : DownloadToken) (w : Text)
    → Permits r.product (r.query (lit "version")) now d
    → (requested_version r (record ctx { download_token = some d }) ≡ [])
      ⊎ (w ≡ requested_version r (record ctx { download_token = some d }))
    → (d.version ≡ []) ⊎ (w ≡ d.version)
unfolding requested_version
asked_version r ctx now d w p h = elim (Bool-cases (r.query (lit "version") == [])) [
  | inl unasked ↦ rw unasked at h
  | inr asked ↦ given_version _ d.version w (rw asked at h) (ne-nil _ asked) p.for_version
]

served_for :
    (env : Env) (now : Time) (r : Request) (ctx : Context) (t : Tables) (bs : List Bool)
    (d : DownloadToken) (c : Content)
    → first_where (is_token (token_of r)) t.tokens ≡ some d
    → Permits r.product (r.query (lit "version")) now d
    → ((increment_download_token_usage (token_of r) >>= λ _.
          download_handler env r (record ctx { download_token = some d }))
        (record { tables = t; faults = bs })).0
      ≡ serve_content c
    → IsTokenDownload env r now t c
served_for env now r ctx t bs d c found p k =
    let db' : Db =
      (increment_download_token_usage (token_of r) (record { tables = t; faults = bs })).1 in
    let s = download_handler-IsServed env r (record ctx { download_token = some d }) db' c k in
    let version_asked = requested_version r (record ctx { download_token = some d }) in
    let same =
      increment-SameCatalogue (token_of r) t (record { tables = t; faults = bs }) (refl, refl) in
    let (product, version) = target-product r.product _ db'.tables s.row s.chosen in
    record {
      token = d;
      row = s.row;
      issued = found;
      permits = p;
      present = s.present;
      listed = finds r.product version_asked (
          subst
            (λ vs.
              (if version_asked == []
                then first_where (is_served r.product) vs
                else first_where (is_kept r.product version_asked) vs)
              ≡ some s.row)
            same.1 s.chosen);
      product = product;
      version = asked_version r ctx now d s.row.version p version;
      body = s.body;
    }

-- A file that is handed out for a download token is one of the product of the request, and where
-- the token is restricted to a version, it is that version's, whether the request names it or not;
-- the token is in the table, not revoked, not past its expiry and issued for the product.
pub download-IsTokenDownload :
    (verify : Text → Text → Bool) (env : Env) (now : Time) (r : Request) (ctx : Context) (db : Db)
    (c : Content)
    → token_of r ≢ []
    → (require_download_auth verify (download_handler env) now r ctx db).0 ≡ serve_content c
    → IsTokenDownload env r now db.tables c
download-IsTokenDownload verify env now r ctx db c h e =
    go (require_download_auth-Decides verify (download_handler env) now r ctx db h) e
  where
    go :
        {x : Response × Db}
        → Decides (download_handler env) now r ctx db x
        → x.0 ≡ serve_content c
        → IsTokenDownload env r now db.tables c
    go (refuses status code answered _) k = absurd (cc (sym answered ∙ k))
    go (passes d bs found p same) k =
        served_for env now r ctx db.tables bs d c found p
          (sym (ap (λ (y : Response × Db). y.0) same) ∙ k)
