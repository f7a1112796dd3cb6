-- ===== src/Api/AuditLogger/Redacted.antt =====
-- What the audit log holds of a query.
use distri_max.Api.AuditLogger.{Query, is_sensitive, redacted, redact}
use distri_max.Prelude.{
  ◌≡◌, refl, sym, ◌∙◌, ap, true, inl, inr, Bool-cases, List, [], ◌∷◌, ◌++◌, Text, lit, All,
  All-Listed, Listed, map, any_item,
}
use distri_max.Api.AuditLogger.Secret.{secret_words, folds, secret-is_sensitive}

redacted-hides :
    (p : Text × List Text)
    → is_sensitive (redacted p).0 ≡ true
    → (redacted p).1 ≡ lit "[REDACTED]" ∷ []
redacted-hides (k, vs) = elim (Bool-cases (is_sensitive k)) [
  | inl hidden ↦ rw hidden (λ h. refl)
  | inr shown ↦ rw shown (λ h. absurd (let e = sym h ∙ shown in cc e))
]

redact-hides_all :
    (q : Query) → All (λ p. is_sensitive p.0 ≡ true → p.1 ≡ lit "[REDACTED]" ∷ []) (redact q)
unfolding redact
redact-hides_all [] = tt
redact-hides_all (p ∷ q) = (redacted-hides p, redact-hides_all q)

redacted-key : (p : Text × List Text) → (redacted p).0 ≡ p.0
redacted-key (k, vs) = elim (Bool-cases (is_sensitive k)) [
  | inl hidden ↦ rw hidden refl
  | inr shown ↦ rw shown refl
]

redact-keys : (q : Query) → map (λ p. p.0) (redact q) ≡ map (λ p. p.0) q
unfolding redact
redact-keys [] = refl
redact-keys (p ∷ q) =
    ap (λ ks. (redacted p).0 ∷ ks) (redact-keys q) ∙ ap (λ k. k ∷ map (λ p. p.0) q) (redacted-key p)

-- After the redaction of a query, its keys are as before, and a key that has the letters of "key", "token",
-- "secret" or "password" anywhere in it, each in either case, has no value but the mark.
pub redact-hides :
    (q : Query) (before word after : Text) (values : List Text)
    → any_item (folds word) secret_words ≡ true
    → Listed (before ++ (word ++ after), values) (redact q)
    → (values ≡ lit "[REDACTED]" ∷ []) × (map (λ p. p.0) (redact q) ≡ map (λ p. p.0) q)
redact-hides q before word after values h l = (
  All-Listed (λ p. is_sensitive p.0 ≡ true → p.1 ≡ lit "[REDACTED]" ∷ [])
      (before ++ (word ++ after), values) (redact q) (redact-hides_all q) l
      (secret-is_sensitive before word after h),
  redact-keys q,
)
