-- ===== src/Api/Recover/Reset.antt =====
-- What a reset does to the users.
use mathlib.Core.Option
use native.Mathlib.Nat.{le_trans}
use distri_max.Prelude.{
  ◌≡◌, refl, false, ◌||◌, inl, inr, [], ◌∷◌, Option, none, some, Text, lit, ◌==◌, Bool-cases, arith,
}
use distri_max.Api.Http.{Request}
use distri_max.Api.Recover.{
  RecoverRequest, RecoverEnv, recover_handler, checked, hashed, reset, reinstate, success_if,
  too_short,
}
use distri_max.Db.Schema.{Time, Tables, User}
use distri_max.Db.Sql.{first_where, count_where-update-grows, count_where-append}
use distri_max.Db.Store.{user_not_found, Db, Result, ok, err}
use distri_max.Db.Store.Rules.{Keeps, Holds, exec-Keeps, query-Keeps}
use distri_max.Db.Users.{
  has_username, user_has_id, get_user_by_username, update_user_password, revoke_user_sessions,
  create_user, rehashed, with_disabled, insert_user,
}
use distri_max.Db.Users.Admins.{HasAdmin, is_active, set_user_disabled-HasAdmin}
use distri_max.Db.Versions.{is_some}

-- The user after a reset.
abbrev pub reinstated : Text → Time → User → User
reinstated hash now u = with_disabled false now (rehashed hash now u)

reinstate-HasAdmin :
    (now : Time) (id : Text) (r : Result (Unit {0})) (db : Db)
    → HasAdmin db.tables
    → HasAdmin (reinstate now id r db).1.tables
unfolding revoke_user_sessions
reinstate-HasAdmin now id (err e) db h = h
reinstate-HasAdmin now id (ok _) db h =
    exec-Keeps HasAdmin _ (λ t k. k) _ (set_user_disabled-HasAdmin id false now db h)

update_user_password-HasAdmin :
    (id hash : Text) (now : Time) → Keeps HasAdmin (update_user_password id hash now)
unfolding update_user_password
update_user_password-HasAdmin id hash now = exec-Keeps HasAdmin _ λ t h.
    le_trans h
      (count_where-update-grows is_active (user_has_id id) (rehashed hash now) t.users (λ u k. k))

insert_user-HasAdmin : (u : User) (t : Tables) → HasAdmin t → Holds HasAdmin (insert_user u t)
insert_user-HasAdmin u t h =
    elim (Bool-cases (
      is_some (first_where (user_has_id u.id) t.users)
      || is_some (first_where (has_username u.username) t.users))) [
        | inl clash ↦ rw clash tt
        | inr free ↦ rw free (omega (arith, h, count_where-append is_active t.users (u ∷ [])))
      ]

success_if-tables : {A : Type 0} (r : Result A) (db : Db) → (success_if r db).1 ≡ db
success_if-tables (ok a) db = refl
success_if-tables (err e) db = refl

reset-HasAdmin :
    (env : RecoverEnv) (now : Time) (username hash : Text) (r : Result User) (db : Db)
    → HasAdmin db.tables
    → HasAdmin (reset env now username hash r db).1.tables
unfolding create_user
reset-HasAdmin env now username hash (ok u) db h =
    reinstate-HasAdmin now u.id _ _ (update_user_password-HasAdmin u.id hash now db h)
reset-HasAdmin env now username hash (err user_not_found) db h =
    rw (success_if-tables (create_user env.uuid username hash now db).0 _)
      (exec-Keeps HasAdmin _ (insert_user-HasAdmin _) db h)
reset-HasAdmin env now username hash (err _) db h = h

hashed-HasAdmin :
    (env : RecoverEnv) (now : Time) (q : RecoverRequest) (o : Option Text) (db : Db)
    → HasAdmin db.tables
    → HasAdmin (hashed env now q o db).1.tables
unfolding get_user_by_username
hashed-HasAdmin env now q none db h = h
hashed-HasAdmin env now q (some hash) db h =
    reset-HasAdmin env now q.username hash _ _ (query-Keeps HasAdmin _ db h)

checked-HasAdmin :
    (env : RecoverEnv) (secret : Text) (now : Time) (o : Option RecoverRequest) (db : Db)
    → HasAdmin db.tables
    → HasAdmin (checked env secret now o db).1.tables
checked-HasAdmin env secret now none db h = h
checked-HasAdmin env secret now (some q) db h = elim (Bool-cases (q.recovery_secret == secret)) [
  | inl same ↦ elim (Bool-cases (too_short q)) [
    | inl short ↦ rw (same, short) h
    | inr long ↦ rw (same, long) (hashed-HasAdmin env now q _ db h)
  ]
  | inr other ↦ rw other h
]

-- A reset, whatever it is asked and whatever the driver refuses, never leaves the program without an
-- active user.
pub recover_handler-HasAdmin :
    (env : RecoverEnv) (secret : Text) (now : Time) (r : Request) (db : Db)
    → HasAdmin db.tables
    → HasAdmin (recover_handler env secret now r db).1.tables
unfolding recover_handler
recover_handler-HasAdmin env secret now r db h = elim (Bool-cases (r.method == lit "POST")) [
  | inl posted ↦ elim (Bool-cases (secret == [])) [
    | inl disabled ↦ rw (posted, disabled, recover_handler) h
    | inr configured ↦
        rw (posted, configured, recover_handler) (checked-HasAdmin env secret now _ db h)
  ]
  | inr got ↦ rw (got, recover_handler) h
]
