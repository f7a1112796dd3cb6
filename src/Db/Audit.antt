-- ===== src/Db/Audit.antt =====
-- internal/db/audit.go
pub mod Stats
use distri_max.Prelude.{
  ℕ, suc, ◌+◌, ◌-◌, ◌*◌, ◌%◌, ◌^◌, Bool, true, false, ◌&&◌, ◌||◌, List, [], ◌∷◌, ◌++◌, Option, none,
  some, Text, ◌==◌, leb, ltb, eqb, if◌then◌else◌, take, drop,
}
use distri_max.Db.Clock.{days_back, hours_back, add_duration}
use distri_max.Db.Schema.{Time, AuditLog, Tables}
use distri_max.Db.Sql.{first_where, select_where, delete_where, count_where, order_by}
use distri_max.Db.Store.{constraint_failed, Result, ok, err, M, ◌>>=◌, pure, exec, query}
use distri_max.Db.Versions.{is_some}

pub record DownloadStats : Type 0 where
  pub total_requests : ℕ
  pub success_count : ℕ
  pub bytes_transferred : ℕ
  pub unique_ips : ℕ

-- A log without an id or a time gets them, from a fresh uuid and the clock.
abbrev pub completed : AuditLog → Text → Time → AuditLog
completed l uuid now = record l {
  id = if l.id == [] then uuid else l.id;
  timestamp = if eqb l.timestamp 0 then now else l.timestamp;
}

-- A key that is named must exist.
abbrev pub refers : Tables → Option Text → Bool
refers t none = true
refers t (some id) = is_some (first_where (λ k. k.id == id) t.api_keys)

abbrev pub insert_log : AuditLog → Tables → Result (Unit {0} × Tables)
insert_log l t =
    if is_some (first_where (λ k. k.id == l.id) t.audit_logs)
    then err constraint_failed
    else if refers t l.api_key_id
    then ok (tt, record t { audit_logs = t.audit_logs ++ l ∷ [] })
    else err constraint_failed

unfoldable pub record_audit_log : AuditLog → Text → Time → M (Unit {0})
record_audit_log l uuid now = exec (insert_log (completed l uuid now))

-- `product_id = ?`, which a NULL never satisfies.
abbrev pub is_some_text : Option Text → Text → Bool
is_some_text none s = false
is_some_text (some p) s = p == s

-- product_id = ? OR ? = ''
unfoldable pub concerns : Text → AuditLog → Bool
concerns product l = is_some_text l.product_id product || (product == [])

unfoldable pub list_audit_logs : ℕ → ℕ → Text → M (List AuditLog × ℕ)
list_audit_logs limit offset product = do
  total ← query (λ t. ok (count_where (concerns product) t.audit_logs))
  logs ← query (λ t. ok (
      take limit (
        drop offset (
          order_by (λ l k. leb k.timestamp l.timestamp)
            (select_where (concerns product) t.audit_logs)))))
  pure (logs, total)

-- The result is RowsAffected.
unfoldable pub purge_old_audit_logs : ℕ → Time → M ℕ
purge_old_audit_logs retention_days now = exec λ t.
    let threshold = add_duration now (days_back retention_days) in
    ok (
      count_where (λ l. ltb l.timestamp threshold) t.audit_logs,
      record t { audit_logs = delete_where (λ l. ltb l.timestamp threshold) t.audit_logs },
    )

unfoldable pub is_recent : Time → AuditLog → Bool
is_recent since l = leb since l.timestamp

unfoldable pub is_success : AuditLog → Bool
is_success l = leb 200 l.status && ltb l.status 300

unfoldable pub total_bytes : List AuditLog → ℕ
total_bytes [] = 0
total_bytes (l ∷ ls) = l.bytes_sent + total_bytes ls

-- COUNT(DISTINCT source_ip): a row counts if no later row has its address.
unfoldable pub distinct_ips : List AuditLog → ℕ
distinct_ips [] = 0
distinct_ips (l ∷ ls) =
    if is_some (first_where (λ k. k.source_ip == l.source_ip) ls)
    then distinct_ips ls
    else suc (distinct_ips ls)

unfoldable pub all_logs : AuditLog → Bool
all_logs l = true

unfoldable pub stats_of : List AuditLog → DownloadStats
stats_of ls = record {
  total_requests = count_where all_logs ls;
  success_count = count_where is_success ls;
  bytes_transferred = total_bytes ls;
  unique_ips = distinct_ips ls;
}

unfoldable pub get_download_stats : ℕ → Time → M DownloadStats
get_download_stats hours now =
    query λ t.
      ok (stats_of (select_where (is_recent (add_duration now (hours_back hours))) t.audit_logs))
