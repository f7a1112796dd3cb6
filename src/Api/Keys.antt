-- ===== src/Api/Keys.antt =====
-- internal/api/middleware.go: extractToken, hasScope and RequireAPIKey.
pub mod Access
pub mod Admission
use distri_max.Prelude.{
  ℕ, Bool, true, false, not, ◌&&◌, ◌||◌, List, [], ◌∷◌, Option, none, some, Text, lit, ◌==◌, ltb,
  leb, if◌then◌else◌, trim_space, strip_prefix, is_listed, length, take,
}
use distri_max.Api.Http.{Request, Context, Response, json_error, H, ◌>>=◌, answer, Handler}
use distri_max.Db.ApiKeys.{get_api_keys_by_prefix, update_api_key_usage}
use distri_max.Db.Schema.{Time, ApiKey}
use distri_max.Db.Sql.{first_where}
use distri_max.Db.Store.{Result, ok, err}

-- auth.ExtractPrefix: 16 bytes, "dm_live_" and 8 hexadecimal digits.
abbrev pub prefix_length : ℕ
prefix_length = 16

unfoldable pub extract_prefix : Text → Text
extract_prefix token =
    let t = trim_space token in if leb prefix_length (length t) then take prefix_length t else t

abbrev pub or_else : Option Text → Text → Text
or_else none d = d
or_else (some s) d = s

unfoldable pub extract_token : Request → Text
extract_token r = or_else (strip_prefix (lit "Bearer ") (r.header (lit "Authorization"))) (
    if not (r.header (lit "X-API-Key") == [])
    then trim_space (r.header (lit "X-API-Key"))
    else if not (r.query (lit "api_key") == [])
    then trim_space (r.query (lit "api_key"))
    else [])

unfoldable pub has_scope : Text → Text → Bool
has_scope granted required = (granted == lit "*") || is_listed required granted

-- An answer without a call of the next handler, or a key to go on with.
pub data Verdict (A : Type 0) : Type 0 where
  deny : ℕ → Text → Verdict A
  admit : A → Verdict A

abbrev pub is_past : Option Time → Time → Bool
is_past none now = false
is_past (some expiry) now = ltb expiry now

unfoldable pub lacks_scope : Text → ApiKey → Bool
lacks_scope required k = not (required == []) && not (has_scope k.scopes required)

unfoldable pub lacks_product : Text → ApiKey → Bool
lacks_product product k =
    (not (product == []) && not (k.allowed_products == lit "*"))
    && not (is_listed product k.allowed_products)

-- The checks on the key that matched, in the order of the source.
unfoldable pub judge_match : Text → Text → Time → Option ApiKey → Verdict ApiKey
judge_match scope product now none = deny 401 (lit "invalid_api_key")
judge_match scope product now (some k) =
    if k.is_revoked
    then deny 401 (lit "invalid_api_key")
    else if is_past k.expires_at now
    then deny 401 (lit "api_key_expired")
    else if lacks_scope scope k
    then deny 403 (lit "insufficient_permissions")
    else if lacks_product product k
    then deny 403 (lit "product_access_denied")
    else admit k

-- The usage is recorded by a goroutine, here before the next handler runs.
abbrev pub proceed : Handler → Request → Context → Time → Verdict ApiKey → H Response
proceed next r ctx now (deny status code) = answer (json_error status code)
proceed next r ctx now (admit k) = do
  _ ← update_api_key_usage k.id r.remote_addr now
  next r (record ctx { api_key = some k })

-- `verify` is auth.VerifyPassword, true if it reports a match and no error.
module _ (verify : Text → Text → Bool) where
  unfoldable pub judge_candidates :
      Text → Text → Text → Time → Result (List ApiKey) → Verdict ApiKey
  judge_candidates token scope product now (err e) = deny 401 (lit "invalid_api_key")
  judge_candidates token scope product now (ok ks) =
      judge_match scope product now (first_where (λ k. verify token k.key_hash) ks)

  unfoldable pub require_api_key : Text → Handler → Time → Handler
  require_api_key scope next now r ctx =
      let token = extract_token r in
      if token == [] then answer (json_error 401 (lit "unauthorized")) else do
        candidates ← get_api_keys_by_prefix (extract_prefix token)
        proceed next r ctx now (judge_candidates token scope r.product now candidates)
