-- ===== src/Db/Users/Sessions.antt =====
-- Who a session admits.
use distri_max.Prelude.{
  ◌≤◌, ◌<◌, lt→ltb, false, ◌≡◌, ◌≢◌, refl, ap, true, false, Option, none, some, Text, ==_iff, ltb,
  Bool-cases, inl, inr, arith,
}
use distri_max.Db.Schema.{Time, User, Session, Tables}
use distri_max.Db.Sql.{
  first_where, first_where-eq-some, first_where-delete_self, first_where-All, delete_where-All,
}
use distri_max.Db.Store.{
  session_not_found, session_expired, Result, ok, err, Db, exec, query, healthy,
}
use distri_max.Db.Store.Rules.{bind-eq-ok, query-eq-ok}
use distri_max.Db.Versions.{found-eq-ok}
use distri_max.Db.Users.{
  user_has_id, session_has_id, join_user, with_user, read_session, admit_session, get_session,
  revoke_session, is_session_of, revoke_user_sessions,
}

-- The session and the user that a session id stands for.
pub record Admitted (id : Text) (now : Time) (t : Tables) (s : Session) (u : User) : Type 0 where
  pub listed : first_where (session_has_id id) t.sessions ≡ some s
  pub known : first_where (user_has_id s.user_id) t.users ≡ some u
  pub live : now ≤ s.expires_at

joined :
    (t : Tables) (o : Option Session) (s : Session) (u : User)
    → join_user t o ≡ some (s, u)
    → (o ≡ some s) × (first_where (user_has_id s.user_id) t.users ≡ some u)
joined t none s u h = cc
joined t (some s') s u h = go (first_where (user_has_id s'.user_id) t.users) refl h
  where
    go :
        (o : Option User)
        → first_where (user_has_id s'.user_id) t.users ≡ o
        → with_user s' o ≡ some (s, u)
        → (some s' ≡ some s) × (first_where (user_has_id s.user_id) t.users ≡ some u)
    go none e k = cc
    go (some u') e k =
        let es : s' ≡ s = ground arith in
        let eu : u' ≡ u = ground arith in (ap some es, rw (← es, ← eu) e)

admitted :
    (id : Text) (now : Time) (x : Session × User) (db : Db) (s : Session) (u : User)
    → (admit_session id now x db).0 ≡ ok (s, u)
    → (x ≡ (s, u)) × (now ≤ s.expires_at)
admitted id now (s', u') db s u h = elim (Bool-cases (ltb s'.expires_at now)) [
  | inl over ↦ let k = rw over at h in absurd (cc k)
  | inr live ↦
      let k : ◌≡◌ {A = Result (Session × User)} (ok (s', u')) (ok (s, u)) = rw live at h in
      let es : s' ≡ s = ground arith in
      let eu : u' ≡ u = ground arith in (cc (es, eu), rw (← es) (ground arith))
]

-- A session is admitted only if it is in the table, its user too, and it has not run out; whatever
-- the driver refuses.
pub get_session-Admitted :
    (id : Text) (now : Time) (db : Db) (s : Session) (u : User)
    → (get_session id now db).0 ≡ ok (s, u)
    → Admitted id now db.tables s u
unfolding get_session
get_session-Admitted id now db s u h =
    let (x, ex, h') = bind-eq-ok (query (read_session id) db) (admit_session id now) (s, u) h in
    let (read, same) = query-eq-ok (read_session id) db x ex in
    let (e, live) = admitted id now x (query (read_session id) db).1 s u h' in
    let (listed, known) =
      joined db.tables (first_where (session_has_id id) db.tables.sessions) s u
        (found-eq-ok session_not_found _ (s, u) (rw e at read)) in
    record { listed = listed; known = known; live = live }

-- A session that has run out is refused, and removed if the driver refuses nothing.
pub get_session_expired :
    (id : Text) (now : Time) (t : Tables) (s : Session) (u : User)
    → read_session id t ≡ ok (s, u)
    → s.expires_at < now
    → ((get_session id now (healthy t)).0 ≡ err session_expired)
      × (first_where (session_has_id id) (get_session id now (healthy t)).1.tables.sessions ≡ none)
unfolding get_session query revoke_session exec
get_session_expired id now t s u e h = rw (e, lt→ltb _ _ h) (refl, first_where-delete_self _ _)

kept_out :
    (user_id : Text) (s : Session) (u : User)
    → is_session_of user_id s ≡ false
    → user_has_id s.user_id u ≡ true
    → u.id ≢ user_id
unfolding is_session_of user_has_id
kept_out user_id s u h k e = ground (arith, ==_iff s.user_id user_id, ==_iff u.id s.user_id)

-- Once the sessions of a user are revoked, the driver refusing nothing, no session id admits that
-- user.
pub revoke_user_sessions-get_session :
    (user_id id : Text) (now : Time) (t : Tables) (s : Session) (u : User)
    → (get_session id now (revoke_user_sessions user_id (healthy t)).1).0 ≡ ok (s, u)
    → u.id ≢ user_id
unfolding revoke_user_sessions exec
revoke_user_sessions-get_session user_id id now t s u h e =
    let a : Admitted id now _ s u =
      get_session-Admitted id now (revoke_user_sessions user_id (healthy t)).1 s u h in
    let gone : is_session_of user_id s ≡ false =
      first_where-All _ (session_has_id id) _ s
        (delete_where-All (is_session_of user_id) t.sessions) a.listed in
    let same : user_has_id s.user_id u ≡ true = first_where-eq-some _ _ u a.known in
    kept_out user_id s u gone same e
