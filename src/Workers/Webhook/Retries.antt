-- ===== src/Workers/Webhook/Retries.antt =====
-- How the attempts at a delivery end.
use distri_max.Prelude.{
  ℕ, zero, suc, ◌+◌, ◌*◌, ◌≤◌, ◌<◌, ◌≡◌, ◌⊎◌, Bool, true, false, inl, inr, Option, none, some,
  Bool-cases, arith,
}
use distri_max.Workers.Webhook.{
  is_success, is_final, status_after, accepted, Ended, delivered, gave_up, cancelled, attempts,
  max_retries, first_backoff,
}

-- An answer after which one more attempt is made: none, or one that is neither a success nor a final
-- client error.
pub data Retried : Option ℕ → Type 0 where
  unanswered : Retried none
  refused :
      (status : ℕ) → is_success status ≡ false → is_final status ≡ false → Retried (some status)

-- What is waited after k attempts, the backoff being doubled each time.
abbrev total_wait : ℕ → ℕ → ℕ
total_wait zero backoff = 0
total_wait (suc k) backoff = backoff + total_wait k (backoff * 2)

module _ (post : ℕ → Option ℕ) (is_done : ℕ → Bool) where
  -- The attempts before the n-th have all been waited out.
  abbrev Reached : ℕ → Type 0
  Reached n = (j : ℕ) → 1 ≤ j → j < n → Retried (post j) × (is_done j ≡ false)

  -- How at most `last` attempts end.
  pub data Fate (last : ℕ) : Ended → Type 0 where
    succeeds :
        (n status : ℕ)
        → n ≤ last
        → post n ≡ some status
        → is_success status ≡ true
        → Reached n
        → Fate last (delivered n status)
    fails :
        (n status : ℕ)
        → n ≤ last
        → accepted (post n) ≡ false
        → (n ≡ last) ⊎ ((post n ≡ some status) × (is_final status ≡ true))
        → Reached n
        → Fate last (gave_up n status)
    ends : (n : ℕ) → n < last → is_done n ≡ true → Reached n → Fate last (cancelled n)

  attempts-bounds :
      (k n waited backoff status : ℕ)
      → let a = attempts post is_done (suc k) n waited backoff status in
        (a.posts ≤ n + k) × (a.waited ≤ waited + total_wait k backoff)
  unfolding attempts
  attempts-bounds zero n waited backoff status = elim (Bool-cases (accepted (post n))) [
    | inl good ↦ rw good (omega arith, omega arith)
    | inr bad ↦ rw bad (omega arith, omega arith)
  ]
  attempts-bounds (suc k) n waited backoff status = elim (Bool-cases (accepted (post n))) [
    | inl good ↦ rw good (omega arith, omega arith)
    | inr bad ↦ elim (Bool-cases (is_final (status_after status (post n)))) [
      | inl final ↦ rw (bad, final) (omega arith, omega arith)
      | inr open_ ↦ elim (Bool-cases (is_done n)) [
        | inl over ↦ rw (bad, open_, over) (omega arith, omega arith)
        | inr on ↦
            let h =
              attempts-bounds k (n + 1) (waited + backoff) (backoff * 2)
                (status_after status (post n)) in
            rw (bad, open_, on) (omega (arith, h.0), omega (arith, h.1))
      ]
    ]
  ]

  -- A delivery makes at most five requests and waits for at most a second and a half between them,
  -- whatever is answered.
  pub attempts_of_delivery-bounds :
      let a = attempts post is_done max_retries 1 0 first_backoff 0 in
      (a.posts ≤ max_retries) × (a.waited ≤ 1500000000)
  attempts_of_delivery-bounds = attempts-bounds 4 1 0 first_backoff 0
