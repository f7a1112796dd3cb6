-- ===== src/Workers/Cleanup.antt =====
-- internal/workers/cleanup.go. `delete` is the storage's DeleteArtifact, whose error the worker
-- ignores; `W` is what the storage keeps.
pub mod Safety
use distri_max.Prelude.{
  ℕ, suc, ◌+◌, ◌-◌, ◌*◌, ◌^◌, Bool, ◌&&◌, List, [], ◌∷◌, Option, none, some, Text, lit, ◌==◌, leb,
  ltb, eqb, if◌then◌else◌,
}
use distri_max.Db.Audit.{purge_old_audit_logs}
use distri_max.Db.Schema.{Time, ProductVersion}
use distri_max.Db.Settings.{get_setting}
use distri_max.Db.Store.{Result, ok, err, Db}
use distri_max.Db.Tokens.{clean_expired_download_tokens}
use distri_max.Db.Users.{clean_expired_sessions}
use distri_max.Db.Versions.{get_expired_versions, mark_version_deleted}

pub record CleanupResult : Type 0 where
  pub purged_versions : ℕ
  pub purged_audit_logs : ℕ

-- The value of a row of digits, none at any other byte.
unfoldable pub parse_digits : ℕ → Text → Option ℕ
parse_digits n [] = some n
parse_digits n (c ∷ s) =
    let rest = parse_digits (n * 10 + (c - b'0')) s in
    if leb b'0' c && leb c b'9' then rest else none

abbrev pub in_range : Option ℕ → Option ℕ
in_range none = none
in_range (some n) = if ltb 0 n && ltb n (2 ^ 63) then some n else none

abbrev pub digits_after_sign : Text → Option ℕ
digits_after_sign [] = none
digits_after_sign (c ∷ s) = in_range (parse_digits 0 (c ∷ s))

-- strconv.Atoi, where it gives a positive number.
unfoldable pub positive_atoi : Text → Option ℕ
unfolding parse_digits
positive_atoi [] = none
positive_atoi (c ∷ s) = if eqb c b'+' then digits_after_sign s else digits_after_sign (c ∷ s)

abbrev pub default_days : ℕ
default_days = 90

abbrev pub days_or_default : Option ℕ → ℕ
days_or_default none = default_days
days_or_default (some n) = n

unfoldable pub audit_days : Result (Text × Bool) → ℕ
audit_days (ok (val, enc)) = days_or_default (positive_atoi val)
audit_days (err e) = default_days

abbrev pub purged_count : Result ℕ → ℕ
purged_count (ok n) = n
purged_count (err e) = 0

abbrev pub one_if_ok : {A : Type 0} → Result A → ℕ
one_if_ok (ok a) = 1
one_if_ok (err e) = 0

-- What follows the loop.
unfoldable pub purge_rest : ℕ → Time → Db → CleanupResult × Db
purge_rest n now db =
    let (setting, db1) = get_setting (lit "audit_retention_days") db in
    let (logs, db2) = purge_old_audit_logs (audit_days setting) now db1 in
    let (_, db3) = clean_expired_sessions now db2 in
    let (_, db4) = clean_expired_download_tokens now db3 in
    (record { purged_versions = n; purged_audit_logs = purged_count logs }, db4)

abbrev pub finish : {W : Type 0} → Time → ℕ × Db × W → Result CleanupResult × Db × W
finish now (n, db, w) = (ok (purge_rest n now db).0, (purge_rest n now db).1, w)

module _ {W : Type 0} (delete : Text → W → W) where
  -- The loop over the expired versions.
  unfoldable pub purge_versions : List ProductVersion → ℕ → Db → W → ℕ × Db × W
  purge_versions [] n db w = (n, db, w)
  purge_versions (v ∷ vs) n db w =
      purge_versions vs (n + one_if_ok (mark_version_deleted v.id db).0)
        (mark_version_deleted v.id db).1
        (if v.storage_path == [] then w else delete v.storage_path w)

  abbrev pub purge : Time → Result (List ProductVersion) → Db → W → Result CleanupResult × Db × W
  purge now (err e) db w = (err e, db, w)
  purge now (ok vs) db w = finish now (purge_versions vs 0 db w)

  unfoldable pub run_cleanup : Time → Db → W → Result CleanupResult × Db × W
  run_cleanup now db w = let (expired, db') = get_expired_versions now db in purge now expired db' w
