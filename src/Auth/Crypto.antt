-- ===== src/Auth/Crypto.antt =====
-- internal/auth/crypto.go and internal/auth/session.go. `base64` and `unbase64` are the standard
-- encoding and its decoder, `seal` and `unseal` AES-256-GCM under a key and a nonce, without additional
-- data; neither aes.NewCipher nor cipher.NewGCM refuses a key of 32 bytes. `random` is what
-- crypto/rand gives for the number of bytes asked for, none on its error.
pub mod Sealed
use distri_max.Prelude.{
  ℕ, Bool, false, not, ◌||◌, List, [], ◌∷◌, ◌++◌, Option, none, some, Text, ◌==◌, eqb, ltb, length,
  take, drop, if◌then◌else◌,
}

pub data CryptoError : Type 0 where
  invalid_key_size random_failed invalid_base64 invalid_ciphertext : CryptoError

pub data Crypto (A : Type 0) : Type 0 where
  result : A → Crypto A
  failure : CryptoError → Crypto A

-- AES-256
abbrev pub key_size : ℕ
key_size = 32

module _ (base64 : Text → Text) (seal : Text → Text → Text → Text) where
  abbrev pub sealed : Text → Text → Option Text → Crypto Text
  sealed plaintext key none = failure random_failed
  sealed plaintext key (some nonce) = result (base64 (nonce ++ seal key nonce plaintext))

  unfoldable pub encrypt : Text → Text → Option Text → Crypto Text
  encrypt plaintext key random =
      if not (eqb (length key) key_size)
      then failure invalid_key_size
      else sealed plaintext key random

module _ (unbase64 : Text → Option Text) (unseal : Text → Text → Text → Option Text)
    (nonce_size : ℕ) where
  abbrev pub opened : Option Text → Crypto Text
  opened none = failure invalid_ciphertext
  opened (some plaintext) = result plaintext

  abbrev pub unsealed : Text → Option Text → Crypto Text
  unsealed key none = failure invalid_base64
  unsealed key (some sealed_text) =
      if ltb (length sealed_text) nonce_size
      then failure invalid_ciphertext
      else opened (unseal key (take nonce_size sealed_text) (drop nonce_size sealed_text))

  unfoldable pub decrypt : Text → Text → Crypto Text
  decrypt ciphertext key =
      if not (eqb (length key) key_size)
      then failure invalid_key_size
      else unsealed key (unbase64 ciphertext)

-- GenerateSessionToken and GenerateCSRFToken: `base64_url` of 32 random bytes.
abbrev pub generate_session_token : (Text → Text) → Option Text → Option Text
generate_session_token base64_url none = none
generate_session_token base64_url (some bytes) = some (base64_url bytes)

abbrev pub generate_csrf_token : (Text → Text) → Option Text → Option Text
generate_csrf_token base64_url none = none
generate_csrf_token base64_url (some bytes) = some (base64_url bytes)

unfoldable pub validate_csrf_token : Text → Text → Bool
validate_csrf_token expected provided =
    if (expected == []) || (provided == []) then false else expected == provided
