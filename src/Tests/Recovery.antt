-- ===== src/Tests/Recovery.antt =====
-- Resets of the sample administrators.
use distri_max.Prelude.{
  ◌≡◌, ◌≢◌, refl, ◌++◌, none, some, lit, ◌==◌, ==_iff, arith, if◌then◌else◌, strip_prefix, contains,
}
use distri_max.Api.Http.{Request, json_success}
use distri_max.Api.Recover.{RecoverRequest, RecoverEnv, body_of, recover_handler}
use distri_max.Api.Recover.Guards.{recover_handler-guarded}
use distri_max.Db.Sql.{count_where}
use distri_max.Db.Store.{healthy}
use distri_max.Db.Users.Admins.{HasAdmin}
use distri_max.Tests.Samples.{catalogue, link_request}

-- A form, and a hash that puts a letter before the password.
abbrev env : RecoverEnv
env = record {
  decode_body = λ r. none;
  form_value = λ r name.
      if name == lit "recovery_secret"
      then lit "glass"
      else if name == lit "username"
      then lit "alice"
      else lit "longenough";
  hash_password = λ s. some (lit "#" ++ s);
  uuid = lit "u";
}

abbrev form : RecoverRequest
form = record {
  recovery_secret = lit "glass";
  username = lit "alice";
  new_password = lit "longenough";
}

abbrev post : Request
post = record link_request { method = lit "POST" }

post-body : body_of env post ≡ some form
unfolding body_of contains strip_prefix ◌==◌
post-body = refl

hammer-ne : form.recovery_secret ≢ lit "hammer"
unfolding ◌==◌
hammer-ne e = ground (arith, ==_iff (lit "glass") (lit "hammer"))

recover_handler-guarded_example :
    ((recover_handler env (lit "hammer") 50 post (healthy catalogue)).1 ≡ healthy catalogue)
    × ((recover_handler env (lit "hammer") 50 post (healthy catalogue)).0 ≢ json_success)
recover_handler-guarded_example =
    recover_handler-guarded env (lit "hammer") 50 post form (healthy catalogue) post-body hammer-ne

catalogue-HasAdmin : HasAdmin catalogue
unfolding count_where
catalogue-HasAdmin = omega arith
