-- ===== src/Workers/Cleanup/Safety.antt =====
-- What a cleanup run leaves alone, and what it does when a rollback gets between its query and its
-- updates.
use distri_max.Prelude.{
  ℕ, ◌≡◌, refl, ◌∙◌, inl, inr, Option, some, List, [], ◌∷◌, Text, ==-refl, Bool-cases, ◌&&◌, arith,
  All, All-imp,
}
use native.Mathlib.Nat.{le_trans}
use distri_max.Db.Audit.{purge_old_audit_logs}
use distri_max.Db.Schema.{Time, ProductVersion, Tables}
use distri_max.Db.Settings.{get_setting}
use distri_max.Db.Sql.{
  select_where, first_where, count_where, count_where_mono, count_where-disjoint,
  count_where-update, select_where-counted, first_where-update_unseen, first_where-update_lost,
}
use distri_max.Db.Store.{Result, ok, err, Db, healthy, query, exec, refused, version_not_found}
use distri_max.Db.Store.Rules.{Keeps, exec-Keeps, exec-at, query-Keeps}
use distri_max.Db.Tokens.{clean_expired_download_tokens}
use distri_max.Db.Users.{clean_expired_sessions}
use distri_max.Db.Versions.{
  is_served, is_expired, is_current_of, is_kept, has_row_id, purged, promote, promoted, supersede,
  deadline_of, get_current_version, rollback_to_version, get_expired_versions, mark_version_deleted,
}
use distri_max.Db.Versions.Consistent.{IsConsistent, rollback_to_version-Keeps}
use distri_max.Db.Versions.Others.{Serves}
use distri_max.Db.Versions.Rollback.{rollback-eq, served_promoted}
use distri_max.Workers.Cleanup.{purge_versions, purge_rest, purge, run_cleanup}

-- No current version has this row id.
IsFree : Tables → ProductVersion → Type 0
IsFree t v = count_where (λ x. has_row_id v.id x && x.is_current) t.versions ≡ 0

-- What a run may mark, if its query has not failed.
Marks : Tables → Result (List ProductVersion) → Type 0
Marks t (ok vs) = All (IsFree t) vs
Marks t (err e) = Unit

-- An expired row is not current, and its id is its own.
expired-IsFree :
    (now : Time) (t : Tables)
    → IsConsistent t
    → All (IsFree t) (select_where (is_expired now) t.versions)
unfolding IsFree is_expired has_row_id
expired-IsFree now t c =
    All-imp _ _
      (λ v h.
        let one = c.one_id v.id in
        let both =
          count_where-disjoint (λ x. has_row_id v.id x && is_expired now x)
            (λ x. has_row_id v.id x && x.is_current) (has_row_id v.id) t.versions
            (λ x k. ground arith) (λ x k. ground arith) (λ x k. ground arith) in
        omega arith)
      (select_where (is_expired now) t.versions)
      (select_where-counted (is_expired now) (λ v x. has_row_id v.id x) (λ v. ==-refl v.id)
        t.versions)

mark-IsFree : (v : ProductVersion) (id : Text) → Keeps (λ t. IsFree t v) (mark_version_deleted id)
unfolding IsFree mark_version_deleted has_row_id
mark-IsFree v id =
    exec-Keeps (λ t. IsFree t v) _ λ t h. count_where-update _ _ purged t.versions (λ x _. refl) ∙ h

module _ (p : Text) (o : Option ProductVersion) where
  mark-Serves :
      (v : ProductVersion) (db : Db)
      → IsFree db.tables v
      → Serves p o db.tables
      → Serves p o (mark_version_deleted v.id db).1.tables
  unfolding IsFree mark_version_deleted is_served
  mark-Serves v db f h = exec-at (Serves p o) _ db h (
      first_where-update_unseen (is_served p) (has_row_id v.id) purged db.tables.versions
        (omega (
          arith,
          f,
          count_where_mono (λ x. has_row_id v.id x && is_served p x)
              (λ x. has_row_id v.id x && x.is_current) db.tables.versions (λ x k. ground arith),
        ))
        (λ x k l. ground arith)
      ∙ h)

  rest-Serves :
      (n : ℕ) (now : Time) (db : Db)
      → Serves p o db.tables
      → Serves p o (purge_rest n now db).1.tables
  unfolding purge_rest get_setting purge_old_audit_logs clean_expired_sessions
      clean_expired_download_tokens
  rest-Serves n now db h =
      exec-Keeps (Serves p o) _ (λ t k. k) _
        (exec-Keeps (Serves p o) _ (λ t k. k) _
          (exec-Keeps (Serves p o) _ (λ t k. k) _ (query-Keeps (Serves p o) _ db h)))

  module _ {W : Type 0} (delete : Text → W → W) where
    purge_versions-Serves :
        (vs : List ProductVersion) (n : ℕ) (db : Db) (w : W)
        → All (IsFree db.tables) vs
        → Serves p o db.tables
        → Serves p o (purge_versions delete vs n db w).1.tables
    unfolding purge_versions
    purge_versions-Serves [] n db w f h = h
    purge_versions-Serves (v ∷ vs) n db w f h =
        purge_versions-Serves vs _ (mark_version_deleted v.id db).1 _
          (All-imp _ _ (λ x. mark-IsFree x v.id db) vs f.1) (mark-Serves v db f.0 h)

    purge-Serves :
        (now : Time) (r : Result (List ProductVersion)) (db : Db) (w : W)
        → Marks db.tables r
        → Serves p o db.tables
        → Serves p o (purge delete now r db w).1.tables
    unfolding Marks
    purge-Serves now (err e) db w f h = h
    purge-Serves now (ok vs) db w f h = rest-Serves _ now _ (purge_versions-Serves vs 0 db w f h)

-- A cleanup run changes what no product serves, whatever the driver refuses, if the versions are
-- consistent when it starts.
pub run_cleanup-Serves :
    {W : Type 0} (delete : Text → W → W) (p : Text) (o : Option ProductVersion) (now : Time)
    (db : Db) (w : W)
    → IsConsistent db.tables
    → Serves p o db.tables
    → Serves p o (run_cleanup delete now db w).1.tables
unfolding run_cleanup get_expired_versions query Marks
run_cleanup-Serves delete p o now db w c h = elim (Bool-cases (refused db.faults)) [
  | inl bad ↦ rw (bad, run_cleanup, get_expired_versions, query) h
  | inr good ↦
      rw (good, run_cleanup, get_expired_versions, query)
        (purge-Serves p o delete now (ok (select_where (is_expired now) db.tables.versions)) _ w
          (expired-IsFree now db.tables c) h)
]

-- Marking a version as deleted after a rollback to it, as a cleanup run does that has read it as
-- expired before the rollback, leaves the product with no version to serve, if the tables were
-- consistent and the driver refuses nothing.
pub late_mark-get_current :
    (product version : Text) (retention_days : ℕ) (now : Time) (t : Tables) (w : ProductVersion)
    → IsConsistent t
    → first_where (is_kept product version) t.versions ≡ some w
    → (get_current_version product
        (mark_version_deleted w.id
          (rollback_to_version product version retention_days now (healthy t)).1).1).0
      ≡ err version_not_found
unfolding get_current_version mark_version_deleted query exec is_served is_current_of has_row_id
late_mark-get_current product version retention_days now t w c e =
    let t' = promote product version (supersede product now (deadline_of now retention_days) t) in
    let served = served_promoted product version now (deadline_of now retention_days) t w e in
    let one =
      le_trans
        (count_where_mono (is_served product) (is_current_of product) t'.versions
          (λ x h. ground arith))
        ((rw (rollback-eq product version retention_days now t w e) at (
            rollback_to_version-Keeps product version retention_days now (healthy t) c)).one_current
          product) in
    rw
      (
        rollback-eq product version retention_days now t w e,
        first_where-update_lost (is_served product) (has_row_id w.id) purged t'.versions
            (promoted w) one served (==-refl w.id) (λ y h. ground arith),
      )
      refl
