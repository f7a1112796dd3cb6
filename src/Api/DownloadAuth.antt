-- ===== src/Api/DownloadAuth.antt =====
-- internal/api/middleware.go: RequireDownloadAuth.
pub mod Tokens
use distri_max.Prelude.{ℕ, Bool, not, ◌&&◌, [], some, Text, lit, ◌==◌, ltb, if◌then◌else◌}
use distri_max.Api.Http.{Request, Context, Response, json_error, H, ◌>>=◌, answer, Handler}
use distri_max.Api.Keys.{Verdict, deny, admit, require_api_key}
use distri_max.Db.Schema.{Time, DownloadToken}
use distri_max.Db.Store.{Result, ok, err}
use distri_max.Db.Tokens.{get_download_token, increment_download_token_usage}

unfoldable pub token_of : Request → Text
token_of r =
    if r.query (lit "token") == [] then r.query (lit "download_token") else r.query (lit "token")

-- The checks on a token that was looked up, in the order of the source.
unfoldable pub judge_token : Text → Text → Time → Result DownloadToken → Verdict DownloadToken
judge_token product req_version now (err e) = deny 401 (lit "invalid_token")
judge_token product req_version now (ok d) =
    if d.is_revoked
    then deny 401 (lit "token_revoked")
    else if ltb d.expires_at now
    then deny 401 (lit "token_expired")
    else if not (product == []) && not (d.product_id == product)
    then deny 403 (lit "product_access_denied")
    else if not (d.version == []) && (not (req_version == []) && not (req_version == d.version))
    then deny 403 (lit "version_access_denied")
    else admit d

-- The counter is incremented by a goroutine, here before the next handler runs.
abbrev pub proceed_token : Handler → Request → Context → Text → Verdict DownloadToken → H Response
proceed_token next r ctx token (deny status code) = answer (json_error status code)
proceed_token next r ctx token (admit d) = do
  _ ← increment_download_token_usage token
  next r (record ctx { download_token = some d })

module _ (verify : Text → Text → Bool) where
  unfoldable pub require_download_auth : Handler → Time → Handler
  require_download_auth next now r ctx =
      let token = token_of r in
      if token == [] then require_api_key verify (lit "download") next now r ctx else do
        found ← get_download_token token
        proceed_token next r ctx token (judge_token r.product (r.query (lit "version")) now found)
