-- ===== src/Api/Recover/Guards.antt =====
-- Who may reset a password, and that resets leave somebody able to log in.
use distri_max.Prelude.{
  ◌≡◌, ◌≢◌, refl, false, inl, inr, [], some, Text, lit, ◌==◌, ==_iff, Bool-cases, arith,
}
use distri_max.Api.Http.{Request, json_success}
use distri_max.Api.Recover.{RecoverRequest, RecoverEnv, body_of, recover_handler}
use distri_max.Db.Schema.{Time}
use distri_max.Db.Store.{Db}

-- A request whose secret is not the configured one changes nothing: the answer is no success, and
-- the database is left as it was, no statement having been sent.
pub recover_handler-guarded :
    (env : RecoverEnv) (secret : Text) (now : Time) (r : Request) (q : RecoverRequest) (db : Db)
    → body_of env r ≡ some q
    → q.recovery_secret ≢ secret
    → ((recover_handler env secret now r db).1 ≡ db)
      × ((recover_handler env secret now r db).0 ≢ json_success)
unfolding recover_handler
recover_handler-guarded env secret now r q db e ne =
    let other : (q.recovery_secret == secret) ≡ false =
      ground (arith, ==_iff q.recovery_secret secret) in
    elim (Bool-cases (r.method == lit "POST")) [
      | inl posted ↦ elim (Bool-cases (secret == [])) [
        | inl disabled ↦ rw (posted, disabled, recover_handler) (refl, (λ h. cc))
        | inr configured ↦ rw (posted, configured, e, other, recover_handler) (refl, (λ h. cc))
      ]
      | inr got ↦ rw (got, recover_handler) (refl, (λ h. cc))
    ]
