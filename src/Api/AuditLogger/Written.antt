-- ===== src/Api/AuditLogger/Written.antt =====
-- What the audit log holds of an answer.
use distri_max.Api.AuditLogger.{
  WriterCall, header, bytes, new_writer, write_header, write, run_calls,
}
use distri_max.Prelude.{ℕ, ◌+◌, ◌≡◌, refl, ◌∙◌, ap, true, List, [], ◌∷◌, arith}

-- The status that is sent: the first one, 200 if something is written before or nothing at all.
pub sent_status : List WriterCall → ℕ
sent_status [] = 200
sent_status (header code ∷ cs) = code
sent_status (bytes n ∷ cs) = 200

-- The bytes that are written in all.
pub sent_bytes : List WriterCall → ℕ
sent_bytes [] = 0
sent_bytes (header code ∷ cs) = sent_bytes cs
sent_bytes (bytes n ∷ cs) = n + sent_bytes cs

settled :
    (cs : List WriterCall) (status sent : ℕ)
    → run_calls cs (record { status = status; bytes_sent = sent; wrote_header = true })
      ≡ record { status = status; bytes_sent = sent + sent_bytes cs; wrote_header = true }
unfolding run_calls write_header write sent_bytes
settled [] status sent =
    ap (λ n. record { status = status; bytes_sent = n; wrote_header = true }) (omega arith)
settled (header code ∷ cs) status sent = settled cs status sent
settled (bytes n ∷ cs) status sent =
    settled cs status (sent + n)
    ∙ ap (λ m. record { status = status; bytes_sent = m; wrote_header = true }) (omega arith)

-- The wrapper records the status that is sent and the number of bytes that are written.
pub run_calls_lem :
    (cs : List WriterCall)
    → ((run_calls cs new_writer).status ≡ sent_status cs)
      × ((run_calls cs new_writer).bytes_sent ≡ sent_bytes cs)
unfolding run_calls write_header write sent_status sent_bytes
run_calls_lem [] = (refl, refl)
run_calls_lem (header code ∷ cs) =
    let h = settled cs code 0 in (ap (λ w. w.status) h, ap (λ w. w.bytes_sent) h ∙ omega arith)
run_calls_lem (bytes n ∷ cs) =
    let h = settled cs 200 (0 + n) in (ap (λ w. w.status) h, ap (λ w. w.bytes_sent) h ∙ omega arith)
