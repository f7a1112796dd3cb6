-- ===== src/Api/AuditLogger.antt =====
-- AuditLoggerMiddleware, responseWriterWrapper and SanitizeURL of internal/api/middleware.go. A query is
-- the list of its keys with their values, as url.Values holds them; `encode` is its Encode, and
-- `request_uri` gives the URI of a path and an encoded query. What a handler writes is the list of its
-- calls of the writer.
pub mod Redacted
pub mod Secret
pub mod Written
use distri_max.Api.Http.{Request, Context}
use distri_max.Config.{to_lower}
use distri_max.Db.Audit.{record_audit_log}
use distri_max.Db.Schema.{Time, ApiKey, AuditLog}
use distri_max.Db.Store.{Db}
use distri_max.Prelude.{
  ℕ, ◌+◌, Bool, true, false, ◌||◌, List, [], ◌∷◌, Option, none, some, Text, lit, contains,
  if◌then◌else◌,
}

abbrev pub Query : Type 0
Query = List (Text × List Text)

unfoldable pub is_sensitive : Text → Bool
is_sensitive key =
    ((contains (lit "key") (to_lower key) || contains (lit "token") (to_lower key))
      || contains (lit "secret") (to_lower key))
    || contains (lit "password") (to_lower key)

abbrev pub redacted : Text × List Text → Text × List Text
redacted (key, values) = if is_sensitive key then (key, lit "[REDACTED]" ∷ []) else (key, values)

unfoldable pub redact : Query → Query
redact [] = []
redact (p ∷ q) = redacted p ∷ redact q

abbrev pub sanitize_url : (Query → Text) → (Text → Text → Text) → Text → Query → Text
sanitize_url encode request_uri path q = request_uri path (encode (redact q))

pub record ResponseWriter : Type 0 where
  pub status : ℕ
  pub bytes_sent : ℕ
  pub wrote_header : Bool

-- A call of the writer: a status, or the number of bytes that were written.
pub data WriterCall : Type 0 where
  header bytes : ℕ → WriterCall

abbrev pub new_writer : ResponseWriter
new_writer = record { status = 200; bytes_sent = 0; wrote_header = false }

unfoldable pub write_header : ℕ → ResponseWriter → ResponseWriter
write_header code w = if w.wrote_header then w else record w { status = code; wrote_header = true }

unfoldable pub write : ℕ → ResponseWriter → ResponseWriter
unfolding write_header
write n w =
    let w' = if w.wrote_header then w else write_header 200 w in
    record w' { bytes_sent = w'.bytes_sent + n }

abbrev pub call : WriterCall → ResponseWriter → ResponseWriter
call (header code) w = write_header code w
call (bytes n) w = write n w

unfoldable pub run_calls : List WriterCall → ResponseWriter → ResponseWriter
run_calls [] w = w
run_calls (c ∷ cs) w = run_calls cs (call c w)

abbrev pub key_id : Option ApiKey → Option Text
key_id none = none
key_id (some k) = some k.id

-- The row is written after the handler has run; the error of that is ignored. The API key is that of the
-- middleware's own context.
abbrev pub log_of : Text → Text → Request → Context → Time → ℕ → ResponseWriter → AuditLog
log_of client_ip path r ctx started duration_ms w = record {
  id = [];
  timestamp = started;
  source_ip = client_ip;
  method = r.method;
  path = path;
  status = w.status;
  duration_ms = duration_ms;
  bytes_sent = w.bytes_sent;
  api_key_id = key_id ctx.api_key;
  product_id = none;
  version = none;
  user_agent = r.header (lit "User-Agent");
  failure_reason = none;
}

module _ (resolve_client_ip : Request → Text) (sanitized : Request → Text) (started now : Time)
    (duration_ms : ℕ) (uuid : Text) where
  unfoldable pub audit_logger :
      (Request → Db → List WriterCall × Db) → Request → Context → Db → List WriterCall × Db
  unfolding run_calls
  audit_logger next r ctx db =
      let (calls, db') = next r db in
      (
        calls,
        (record_audit_log
            (log_of (resolve_client_ip r) (sanitized r) r ctx started duration_ms
              (run_calls calls new_writer))
            uuid now db').1,
      )
