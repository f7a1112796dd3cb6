-- ===== src/Db/Users.antt =====
-- internal/db/users.go: administrators and their sessions.
pub mod Admins
pub mod Sessions
use distri_max.Prelude.{
  ◌*◌, ◌/◌, ℕ, Bool, true, false, not, ◌&&◌, ◌||◌, List, [], ◌∷◌, ◌++◌, Option, none, some, Text,
  ◌==◌, leb, ltb, if◌then◌else◌,
}
use distri_max.Db.Schema.{Time, User, Session, Tables}
use distri_max.Db.Sql.{first_where, update_where, delete_where, count_where, order_by}
use distri_max.Db.Store.{
  Error, user_not_found, cannot_disable_last_admin, session_not_found, session_expired,
  constraint_failed, Result, ok, err, M, ◌>>=◌, ◌>>◌, pure, throw, try, exec, query,
}
use distri_max.Db.Versions.{found, is_some}

unfoldable pub user_has_id : Text → User → Bool
user_has_id id u = u.id == id

unfoldable pub has_username : Text → User → Bool
has_username username u = u.username == username

-- The primary key and UNIQUE(username) refuse a second row.
abbrev pub insert_user : User → Tables → Result (User × Tables)
insert_user u t =
    if is_some (first_where (user_has_id u.id) t.users)
      || is_some (first_where (has_username u.username) t.users)
    then err constraint_failed
    else ok (u, record t { users = t.users ++ u ∷ [] })

-- `id` is the fresh uuid.
unfoldable pub create_user : Text → Text → Text → Time → M User
create_user id username password_hash now = exec (
    insert_user (record {
      id = id;
      username = username;
      password_hash = password_hash;
      is_disabled = false;
      created_at = now;
      updated_at = now;
    }))

unfoldable pub get_user_by_username : Text → M User
get_user_by_username username =
    query λ t. found user_not_found (first_where (has_username username) t.users)

unfoldable pub get_user_by_id : Text → M User
get_user_by_id id = query λ t. found user_not_found (first_where (user_has_id id) t.users)

unfoldable pub list_users : M (List User)
list_users = query λ t. ok (order_by (λ u w. leb u.created_at w.created_at) t.users)

abbrev pub rehashed : Text → Time → User → User
rehashed new_hash now u = record u { password_hash = new_hash; updated_at = now }

unfoldable pub update_user_password : Text → Text → Time → M (Unit {0})
update_user_password id new_hash now =
    exec λ t.
      ok (tt, record t { users = update_where (user_has_id id) (rehashed new_hash now) t.users })

-- is_disabled = 0 AND id != ?
unfoldable pub is_other_active : Text → User → Bool
is_other_active id u = not u.is_disabled && not (u.id == id)

abbrev pub with_disabled : Bool → Time → User → User
with_disabled disabled now u = record u { is_disabled = disabled; updated_at = now }

unfoldable pub write_disabled : Text → Bool → Time → M (Unit {0})
write_disabled id disabled now = exec λ t.
    ok (tt, record t { users = update_where (user_has_id id) (with_disabled disabled now) t.users })

abbrev pub other_active_count : Text → Tables → Result ℕ
other_active_count id t = ok (count_where (is_other_active id) t.users)

-- Disabling counts the other active users first, in a statement of its own.
unfoldable pub set_user_disabled : Text → Bool → Time → M (Unit {0})
set_user_disabled id false now = write_disabled id false now
set_user_disabled id true now = do
  n ← query (other_active_count id)
  if ltb n 1 then throw cannot_disable_last_admin else write_disabled id true now

unfoldable pub session_has_id : Text → Session → Bool
session_has_id id s = s.id == id

-- The primary key, and the reference to users.
unfoldable pub create_session : Text → Text → Time → Time → M (Unit {0})
create_session id user_id expires_at now = exec λ t.
    if is_some (first_where (session_has_id id) t.sessions)
      || not (is_some (first_where (user_has_id user_id) t.users))
    then err constraint_failed
    else ok (
      tt,
      record t {
        sessions =
            t.sessions
            ++ record {
              id = id;
              user_id = user_id;
              expires_at = expires_at;
              created_at = now;
              last_active_at = now;
            }
              ∷ [];
      },
    )

-- sessions s JOIN users u ON s.user_id = u.id
abbrev pub with_user : Session → Option User → Option (Session × User)
with_user s none = none
with_user s (some u) = some (s, u)

abbrev pub join_user : Tables → Option Session → Option (Session × User)
join_user t none = none
join_user t (some s) = with_user s (first_where (user_has_id s.user_id) t.users)

unfoldable pub revoke_session : Text → M (Unit {0})
revoke_session id =
    exec λ t. ok (tt, record t { sessions = delete_where (session_has_id id) t.sessions })

unfoldable pub touch_session : Text → Time → M (Unit {0})
touch_session id now = exec λ t. ok (
  tt,
  record t {
    sessions = update_where (session_has_id id) (λ s. record s { last_active_at = now }) t.sessions;
  },
)

abbrev pub read_session : Text → Tables → Result (Session × User)
read_session id t =
    found session_not_found (join_user t (first_where (session_has_id id) t.sessions))

abbrev pub admit_session : Text → Time → Session × User → M (Session × User)
admit_session id now (s, u) =
    if ltb s.expires_at now
    then (do _ ← try (revoke_session id); throw session_expired)
    else (do _ ← try (touch_session id now); pure (s, u))

unfoldable pub get_session : Text → Time → M (Session × User)
get_session id now = do x ← query (read_session id); admit_session id now x

unfoldable pub is_session_of : Text → Session → Bool
is_session_of user_id s = s.user_id == user_id

unfoldable pub revoke_user_sessions : Text → M (Unit {0})
revoke_user_sessions user_id =
    exec λ t. ok (tt, record t { sessions = delete_where (is_session_of user_id) t.sessions })

-- CURRENT_TIMESTAMP has whole seconds.
abbrev pub current_timestamp : Time → Time
current_timestamp now = now / 1000000000 * 1000000000

unfoldable pub clean_expired_sessions : Time → M (Unit {0})
clean_expired_sessions now = exec λ t. ok (
  tt,
  record t { sessions = delete_where (λ s. ltb s.expires_at (current_timestamp now)) t.sessions },
)
