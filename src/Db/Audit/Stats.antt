-- ===== src/Db/Audit/Stats.antt =====
-- The audit log's numbers: what a purge removes, and what the statistics add up to.
use distri_max.Prelude.{
  ℕ, ◌+◌, ◌≤◌, ◌≡◌, refl, ap, true, List, [], ◌∷◌, ◌++◌, none, arith, length, All, All-imp, ltb,
  Text, ◌==◌, ==_iff, ◌||◌, Bool, Bool-cases, inl, inr, if◌then◌else◌, ◌∙◌,
}
use distri_max.Db.Clock.{add_duration, days_back, hours_back}
use distri_max.Db.Schema.{Time, AuditLog, Tables}
use distri_max.Db.Sql.{
  first_where, select_where, count_where, delete_where-All, length-delete, count_where-append,
  select_where-append_one,
}
use distri_max.Db.Store.{ok, healthy, exec, query}
use distri_max.Db.Versions.{is_some}
use distri_max.Db.Audit.{
  DownloadStats, all_logs, is_success, total_bytes, distinct_ips, stats_of, is_recent,
  get_download_stats, record_audit_log, completed, refers, purge_old_audit_logs,
}

-- A purge that the driver does not refuse reports how many logs it has removed, and leaves none
-- that is older than its threshold.
pub purge_old_audit_logs_lem :
    (retention_days : ℕ) (now : Time) (t : Tables)
    → let (r, db) = purge_old_audit_logs retention_days now (healthy t) in
      (n : ℕ) × (r ≡ ok n)
      × (length db.tables.audit_logs + n ≡ length t.audit_logs)
      × All (λ l. add_duration now (days_back retention_days) ≤ l.timestamp) db.tables.audit_logs
unfolding purge_old_audit_logs exec
purge_old_audit_logs_lem retention_days now t =
    let threshold = add_duration now (days_back retention_days) in
    (
      count_where (λ l. ltb l.timestamp threshold) t.audit_logs,
      refl,
      length-delete _ t.audit_logs,
      All-imp _ _ (λ l h. ground arith) _
          (delete_where-All (λ l. ltb l.timestamp threshold) t.audit_logs),
    )

abbrev has_ip : List AuditLog → AuditLog → Bool
has_ip ls l = is_some (first_where (λ k. k.source_ip == l.source_ip) ls)

has_ip-append :
    (ls : List AuditLog) (l x : AuditLog)
    → has_ip (ls ++ l ∷ []) x ≡ (has_ip ls x || (l.source_ip == x.source_ip))
unfolding first_where
has_ip-append [] l x = ground arith
has_ip-append (y ∷ ls) l x = ground (arith, has_ip-append ls l x)

has_ip-cong :
    (ls : List AuditLog) (l x : AuditLog) → l.source_ip ≡ x.source_ip → has_ip ls l ≡ has_ip ls x
has_ip-cong ls l x e = ap (λ ip. is_some (first_where (λ (k : AuditLog). k.source_ip == ip) ls)) e

distinct_ips-append :
    (ls : List AuditLog) (l : AuditLog)
    → distinct_ips (ls ++ l ∷ []) ≡ (if has_ip ls l then distinct_ips ls else distinct_ips ls + 1)
unfolding distinct_ips first_where
distinct_ips-append [] l = ground arith
distinct_ips-append (x ∷ ls) l = elim (Bool-cases (x.source_ip == l.source_ip)) [
  | inl same ↦
      let e : has_ip ls x ≡ has_ip ls l = has_ip-cong ls x l ((==_iff _ _).0 same) in
      ground (
        arith,
        e,
        has_ip-append ls l x,
        distinct_ips-append ls l,
        ==_iff l.source_ip x.source_ip,
        ==_iff x.source_ip l.source_ip,
      )
  | inr other ↦ ground (
    arith,
    has_ip-append ls l x,
    distinct_ips-append ls l,
    ==_iff l.source_ip x.source_ip,
    ==_iff x.source_ip l.source_ip,
  )
]

total_bytes-append :
    (ls : List AuditLog) (l : AuditLog) → total_bytes (ls ++ l ∷ []) ≡ total_bytes ls + l.bytes_sent
unfolding total_bytes
total_bytes-append [] l = omega arith
total_bytes-append (x ∷ ls) l = omega (arith, total_bytes-append ls l)

-- One more log in the statistics.
abbrev pub added : AuditLog → List AuditLog → DownloadStats → DownloadStats
added l ls s = record {
  total_requests = s.total_requests + 1;
  success_count = if is_success l then s.success_count + 1 else s.success_count;
  bytes_transferred = s.bytes_transferred + l.bytes_sent;
  unique_ips = if has_ip ls l then s.unique_ips else s.unique_ips + 1;
}

stats_of-append :
    (ls : List AuditLog) (l : AuditLog) → stats_of (ls ++ l ∷ []) ≡ added l ls (stats_of ls)
unfolding stats_of count_where all_logs
stats_of-append ls l = ground (
  arith,
  count_where-append all_logs ls (l ∷ []),
  count_where-append is_success ls (l ∷ []),
  total_bytes-append ls l,
  distinct_ips-append ls l,
)

-- A log that is recorded within the window counts once in the statistics: one request, one success
-- if its status is 2xx, its bytes, and its address if no log of the window has it; if the driver
-- refuses nothing, its id is new and the key that it names exists.
pub get_download_stats-record :
    (l : AuditLog) (uuid : Text) (hours : ℕ) (now : Time) (t : Tables)
    → first_where (λ k. k.id == (completed l uuid now).id) t.audit_logs ≡ none
    → refers t l.api_key_id ≡ true
    → is_recent (add_duration now (hours_back hours)) (completed l uuid now) ≡ true
    → let recent = select_where (is_recent (add_duration now (hours_back hours))) t.audit_logs in
      (get_download_stats hours now (record_audit_log l uuid now (healthy t)).1).0
      ≡ ok (added (completed l uuid now) recent (stats_of recent))
unfolding get_download_stats record_audit_log exec query
get_download_stats-record l uuid hours now t e f g =
    rw (e, f)
      (ap ok (
        ap stats_of (select_where-append_one _ t.audit_logs (completed l uuid now) g)
        ∙ stats_of-append _ (completed l uuid now)))
