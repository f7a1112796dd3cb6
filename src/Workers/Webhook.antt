-- ===== src/Workers/Webhook.antt =====
-- internal/workers/webhook.go. `post n` is the answer to the n-th request of a delivery, none if there
-- was none; `is_done n` says whether the context has ended while the n-th answer is waited out.
pub mod Retries
use distri_max.Db.Schema.{Time, WebhookDelivery, Tables}
use distri_max.Db.Sql.{first_where}
use distri_max.Db.Store.{constraint_failed, Result, ok, err, Db, exec}
use distri_max.Db.Versions.{is_some}
use distri_max.Prelude.{
  ℕ, zero, suc, ◌+◌, ◌*◌, Bool, true, false, not, ◌&&◌, List, [], ◌∷◌, ◌++◌, Option, none, some,
  Text, lit, ◌==◌, eqb, leb, ltb, if◌then◌else◌,
}

pub record WebhookEvent : Type 0 where
  pub event : Text
  pub event_id : Text
  pub occurred_at : Time
  pub product : Text
  pub version : Text
  pub released_at : Time
  pub sha256 : Text
  pub size_bytes : ℕ
  pub download_path : Text

abbrev pub max_retries : ℕ
max_retries = 5

-- 100 * time.Millisecond
abbrev pub first_backoff : ℕ
first_backoff = 100000000

abbrev pub is_success : ℕ → Bool
is_success status = leb 200 status && ltb status 300

-- A client error is not retried, but for 429.
unfoldable pub is_final : ℕ → Bool
is_final status = (leb 400 status && ltb status 500) && not (eqb status 429)

-- The variable statusCode keeps the last status if a request is not answered.
abbrev pub status_after : ℕ → Option ℕ → ℕ
status_after status none = status
status_after status (some new) = new

abbrev pub accepted : Option ℕ → Bool
accepted none = false
accepted (some status) = is_success status

-- How the attempts end: with the number of the attempt, and the status that is recorded.
pub data Ended : Type 0 where
  delivered gave_up : ℕ → ℕ → Ended
  cancelled : ℕ → Ended

pub record Attempts : Type 0 where
  pub ended : Ended
  pub posts : ℕ
  pub waited : ℕ

abbrev pub stopped : Ended → ℕ → ℕ → Attempts
stopped e posts waited = record { ended = e; posts = posts; waited = waited }

module _ (post : ℕ → Option ℕ) (is_done : ℕ → Bool) where
  -- The attempts from the n-th on, if some are left: what has been waited so far, the next backoff, and
  -- the last status.
  unfoldable pub attempts : ℕ → ℕ → ℕ → ℕ → ℕ → Attempts
  unfolding is_final
  attempts zero n waited backoff status = stopped (gave_up n status) n waited
  attempts (suc zero) n waited backoff status =
      if accepted (post n)
      then stopped (delivered n (status_after status (post n))) n waited
      else stopped (gave_up n (status_after status (post n))) n waited
  attempts (suc (suc left)) n waited backoff status =
      let rest =
        attempts (suc left) (n + 1) (waited + backoff) (backoff * 2)
          (status_after status (post n)) in
      if accepted (post n)
      then stopped (delivered n (status_after status (post n))) n waited
      else if is_final (status_after status (post n))
      then stopped (gave_up n (status_after status (post n))) n waited
      else if is_done n
      then stopped (cancelled n) n waited
      else rest

pub data WebhookError : Type 0 where
  marshal_failed bad_request not_delivered context_done : WebhookError

-- The libraries: JSON, HMAC-SHA-256 in hex, numbers in digits, and times in seconds since 1970; whether
-- a request for the URL can be made, its answers, the context, and the text of the last error.
pub record Delivery : Type 0 where
  pub marshal : WebhookEvent → Option Text
  pub hmac_hex : Text → Text → Text
  pub digits : ℕ → Text
  pub unix : Time → ℕ
  pub is_request : Text → Bool
  pub post : Text → Text → Text → ℕ → Option ℕ
  pub is_done : ℕ → Bool
  pub last_error : Text
  pub duration_ms : ℕ
  pub row_id : Text
  pub now : Time

unfoldable pub insert_delivery : WebhookDelivery → Tables → Result (Unit {0} × Tables)
insert_delivery d t =
    if is_some (first_where (λ x. x.id == d.id) t.webhook_deliveries)
    then err constraint_failed
    else ok (tt, record t { webhook_deliveries = t.webhook_deliveries ++ d ∷ [] })

module _ (w : Delivery) (url secret : Text) where
  abbrev pub completed : Text → WebhookEvent → WebhookEvent
  completed new_id e = record e {
    event_id = if e.event_id == [] then new_id else e.event_id;
    occurred_at = if eqb e.occurred_at 0 then w.now else e.occurred_at;
  }

  abbrev pub signature_header : WebhookEvent → Text → Text
  signature_header e payload =
      if secret == []
      then []
      else lit "t="
        ++ (w.digits (w.unix e.occurred_at)
            ++ (lit ",v1="
                ++ w.hmac_hex secret (w.digits (w.unix e.occurred_at) ++ (lit "." ++ payload))))

  -- The error of the statement is ignored.
  abbrev pub record_webhook_delivery : WebhookEvent → ℕ → ℕ → ℕ → Text → Db → Db
  record_webhook_delivery e status attempt duration_ms message db =
      (exec
        (insert_delivery (record {
          id = w.row_id;
          event_type = e.event;
          product_id = e.product;
          version = e.version;
          target_url = url;
          status_code = status;
          attempt_count = attempt;
          duration_ms = duration_ms;
          error_message = message;
          created_at = w.now;
        }))
        db).1

  abbrev pub concluded : WebhookEvent → Ended → Db → Option WebhookError × Db
  concluded e (delivered n status) db =
      (none, record_webhook_delivery e status n w.duration_ms [] db)
  concluded e (cancelled n) db = (some context_done, db)
  concluded e (gave_up n status) db =
      (some not_delivered, record_webhook_delivery e status max_retries 0 w.last_error db)

  abbrev pub posted : WebhookEvent → Option Text → Db → Option WebhookError × Db
  posted e none db = (some marshal_failed, db)
  posted e (some payload) db =
      if w.is_request url
      then concluded e
          (attempts (w.post url (signature_header e payload) payload) w.is_done max_retries 1 0
            first_backoff 0).ended
          db
      else (some bad_request, db)

  unfoldable pub send_webhook : Text → WebhookEvent → Db → Option WebhookError × Db
  unfolding attempts insert_delivery
  send_webhook new_id e db =
      if url == []
      then (none, db)
      else posted (completed new_id e) (w.marshal (completed new_id e)) db
