-- ===== src/Api/Recover.antt =====
-- internal/api/handlers_recover.go. `decode_body` is the JSON decoder on the request's body,
-- `form_value` the parsed form, `hash_password` is auth.HashPassword, `uuid` a fresh id. The
-- constant-time comparison of two secrets is their equality.
pub mod Guards
pub mod Reset
use distri_max.Prelude.{
  ℕ, Bool, true, false, not, ◌||◌, [], ◌∷◌, Option, none, some, Text, lit, ◌==◌, ltb, length,
  contains, trim_space, if◌then◌else◌,
}
use distri_max.Api.Http.{Request, Response, json_error, json_success, H, ◌>>=◌, answer}
use distri_max.Db.Schema.{Time, User}
use distri_max.Db.Store.{Error, user_not_found, Result, ok, err}
use distri_max.Db.Users.{
  get_user_by_username, update_user_password, set_user_disabled, revoke_user_sessions, create_user,
}

pub record RecoverRequest : Type 0 where
  pub recovery_secret : Text
  pub username : Text
  pub new_password : Text

pub record RecoverEnv : Type 0 where
  pub decode_body : Request → Option RecoverRequest
  pub form_value : Request → Text → Text
  pub hash_password : Text → Option Text
  pub uuid : Text

unfoldable pub body_of : RecoverEnv → Request → Option RecoverRequest
unfolding contains
body_of env r =
    if contains (lit "application/json") (r.header (lit "Content-Type"))
    then env.decode_body r
    else some (record {
      recovery_secret = env.form_value r (lit "recovery_secret");
      username = env.form_value r (lit "username");
      new_password = env.form_value r (lit "new_password");
    })

abbrev pub success_if : {A : Type 0} → Result A → H Response
success_if (ok a) = answer json_success
success_if (err e) = answer (json_error 500 (lit "error"))

-- An existing user is given the password, enabled, and logged out; errors of the latter two are
-- ignored.
abbrev pub reinstate : Time → Text → Result (Unit {0}) → H Response
reinstate now id (err e) = answer (json_error 500 (lit "error"))
reinstate now id (ok _) = do
  _ ← set_user_disabled id false now
  _ ← revoke_user_sessions id
  answer json_success

abbrev pub reset : RecoverEnv → Time → Text → Text → Result User → H Response
reset env now username hash (ok u) = do
  updated ← update_user_password u.id hash now
  reinstate now u.id updated
reset env now username hash (err user_not_found) = do
  created ← create_user env.uuid username hash now
  success_if created
reset env now username hash (err _) = answer (json_error 500 (lit "database_error"))

abbrev pub hashed : RecoverEnv → Time → RecoverRequest → Option Text → H Response
hashed env now q none = answer (json_error 500 (lit "error"))
hashed env now q (some hash) = do
  u ← get_user_by_username q.username
  reset env now q.username hash u

abbrev pub too_short : RecoverRequest → Bool
too_short q = (trim_space q.username == []) || ltb (length q.new_password) 8

abbrev pub checked : RecoverEnv → Text → Time → Option RecoverRequest → H Response
checked env secret now none = answer (json_error 400 (lit "bad_request"))
checked env secret now (some q) =
    if not (q.recovery_secret == secret)
    then answer (json_error 401 (lit "invalid_secret"))
    else if too_short q
    then answer (json_error 400 (lit "bad_request"))
    else hashed env now q (env.hash_password q.new_password)

unfoldable pub recover_handler : RecoverEnv → Text → Time → Request → H Response
unfolding body_of
recover_handler env secret now r =
    if not (r.method == lit "POST")
    then answer (json_error 405 (lit "method_not_allowed"))
    else if secret == []
    then answer (json_error 403 (lit "recovery_disabled"))
    else checked env secret now (body_of env r)
