-- ===== src/Db/Users/Admins.antt =====
-- The last administrator.
use native.Mathlib.Nat.{le_trans}
use distri_max.Prelude.{
  ℕ, Bool, List, refl, if◌then◌else◌, ◌≤◌, ◌≡◌, true, false, not, Text, ltb, Bool-cases, inl, inr,
  arith,
}
use distri_max.Db.Schema.{Time, User, Tables}
use distri_max.Db.Sql.{count_where, update_where, count_where-update-ge, count_where-update-grows}
use distri_max.Db.Store.{cannot_disable_last_admin, ok, throw}
use distri_max.Db.Store.Rules.{Keeps, exec-Keeps, exec-at, bind_query-Keeps}
use distri_max.Db.Users.{
  user_has_id, is_other_active, with_disabled, write_disabled, other_active_count,
  set_user_disabled,
}

abbrev pub is_active : User → Bool
is_active u = not u.is_disabled

-- Somebody can still log in.
abbrev pub HasAdmin : Tables → Type 0
HasAdmin t = 1 ≤ count_where is_active t.users

enabled-HasAdmin :
    (id : Text) (now : Time) (t : Tables)
    → HasAdmin t
    → HasAdmin
        (record t { users = update_where (user_has_id id) (with_disabled false now) t.users })
enabled-HasAdmin id now t h = le_trans h (
    count_where-update-grows is_active (user_has_id id) (with_disabled false now) t.users
      (λ u _. refl))

disabled-HasAdmin :
    (id : Text) (now : Time) (t : Tables)
    → 1 ≤ count_where (is_other_active id) t.users
    → HasAdmin (record t { users = update_where (user_has_id id) (with_disabled true now) t.users })
unfolding is_other_active user_has_id
disabled-HasAdmin id now t h = le_trans h (
    count_where-update-ge is_active (user_has_id id) (is_other_active id) (with_disabled true now)
      t.users (λ u e. ground arith) (λ u e. ground arith))

disable-HasAdmin :
    (id : Text) (now : Time) (n : ℕ) (t : Tables) (bs : List Bool)
    → HasAdmin t
    → other_active_count id t ≡ ok n
    → HasAdmin
        ((if ltb n 1 then throw cannot_disable_last_admin else write_disabled id true now)
          (record { tables = t; faults = bs })).1.tables
unfolding write_disabled
disable-HasAdmin id now n t bs h e = elim (Bool-cases (ltb n 1)) [
  | inl few ↦ rw few h
  | inr enough ↦ rw enough (
      exec-at HasAdmin _ (record { tables = t; faults = bs }) h
        (disabled-HasAdmin id now t (ground arith)))
]

-- Enabling and disabling users one call after the other, whatever the driver refuses, never leaves
-- the program without an active user.
pub set_user_disabled-HasAdmin :
    (id : Text) (disabled : Bool) (now : Time) → Keeps HasAdmin (set_user_disabled id disabled now)
unfolding set_user_disabled write_disabled
set_user_disabled-HasAdmin id false now = exec-Keeps HasAdmin _ (enabled-HasAdmin id now)
set_user_disabled-HasAdmin id true now =
    bind_query-Keeps HasAdmin (other_active_count id) _
      (λ t n bs h e. disable-HasAdmin id now n t bs h e)
