-- ===== src/Api/Download.antt =====
-- internal/api/handlers_download.go. The standard library's PathUnescape and ParseTime, and the
-- opening of an artifact, are parameters; ServeContent answers with what it is given.
pub mod Pinned
pub mod Served
use distri_max.Prelude.{
  Bool, true, false, not, ◌&&◌, ◌||◌, [], ◌∷◌, ◌++◌, Option, none, some, Text, lit, ◌==◌, leb,
  if◌then◌else◌, trim_space, split, any_item,
}
use distri_max.Api.Http.{
  Request, Context, Content, Response, json_error, not_modified, serve_content, H, ◌>>=◌, answer,
  Handler,
}
use distri_max.Db.Schema.{Time, Product, ProductVersion, DownloadToken}
use distri_max.Db.Store.{Error, product_not_found, version_not_found, Result, ok, err, M}
use distri_max.Db.Versions.{get_product, get_product_version, get_current_version}
use distri_max.Storage.{Outcome, done, fail, not_found}

-- What the standard library and the storage do for the handler.
pub record Env : Type 0 where
  pub path_unescape : Text → Option Text
  pub parse_time : Text → Option Time
  pub open_artifact : Text → Outcome Text

abbrev pub filename_of : Product → Text
filename_of p = if p.artifact_filename == [] then p.id ++ lit ".mmdb" else p.artifact_filename

abbrev pub misnamed : Product → Option Text → Bool
misnamed p none = false
misnamed p (some name) =
    (not (name == filename_of p) && not (name == p.id)) && not (name == p.artifact_filename)

-- A file name in the route that names another artifact.
unfoldable pub wrong_filename : Env → Request → Product → Bool
wrong_filename env r p = not (r.filename == []) && misnamed p (env.path_unescape r.filename)

abbrev pub pinned : Option DownloadToken → Text
pinned none = []
pinned (some d) = d.version

-- The version that is asked for, by the request or else by its token; none is the current one.
unfoldable pub requested_version : Request → Context → Text
requested_version r ctx =
    if r.query (lit "version") == [] then pinned ctx.download_token else r.query (lit "version")

unfoldable pub target_version : Text → Text → M ProductVersion
target_version product version =
    if version == [] then get_current_version product else get_product_version product version

abbrev pub quoted : Text → Text
quoted sha = lit "\"" ++ (sha ++ lit "\"")

unfoldable pub matches_etag : Text → Text → Bool
matches_etag inm etag =
    not (inm == [])
    && any_item (λ tag. (trim_space tag == etag) || (trim_space tag == lit "*")) (split 44 inm)

abbrev pub not_after : Time → Option Time → Bool
not_after released none = false
not_after released (some t) = leb released t

unfoldable pub unmodified : Env → Request → Time → Bool
unmodified env r released =
    (not (r.header (lit "If-Modified-Since") == []) && (r.header (lit "If-None-Match") == []))
    && not_after released (env.parse_time (r.header (lit "If-Modified-Since")))

abbrev pub serve : Product → ProductVersion → Outcome Text → Response
serve p v (done body) =
    serve_content (record {
      etag = quoted v.sha256;
      name = filename_of p;
      modified = v.released_at;
      body = body;
    })
serve p v (fail not_found) = json_error 404 (lit "artifact_missing")
serve p v (fail e) = json_error 500 (lit "storage_error")

-- From the version on, nothing is asked of the database.
unfoldable pub respond : Env → Request → Product → ProductVersion → Response
respond env r p v =
    if v.is_deleted || (v.storage_path == [])
    then json_error 404 (lit "artifact_missing")
    else if matches_etag (r.header (lit "If-None-Match")) (quoted v.sha256)
    then not_modified
    else if unmodified env r v.released_at
    then not_modified
    else serve p v (env.open_artifact v.storage_path)

abbrev pub with_version : Env → Request → Product → Result ProductVersion → Response
with_version env r p (ok v) = respond env r p v
with_version env r p (err version_not_found) = json_error 404 (lit "version_not_found")
with_version env r p (err _) = json_error 500 (lit "database_error")

abbrev pub with_product : Env → Request → Context → Result Product → H Response
with_product env r ctx (err product_not_found) = answer (json_error 404 (lit "product_not_found"))
with_product env r ctx (err _) = answer (json_error 500 (lit "database_error"))
with_product env r ctx (ok p) =
    if wrong_filename env r p
    then answer (json_error 404 (lit "artifact_not_found"))
    else do v ← target_version r.product (requested_version r ctx); answer (with_version env r p v)

unfoldable pub download_handler : Env → Handler
download_handler env r ctx =
    if r.product == []
    then answer (json_error 400 (lit "bad_request"))
    else do p ← get_product r.product; with_product env r ctx p
