-- ===== src/Auth/Crypto/Sealed.antt =====
-- What encryption gives back.
use distri_max.Auth.Crypto.{result, key_size, encrypt, decrypt}
use distri_max.Prelude.{
  ◌≡◌, refl, ap, false, inl, inr, [], ◌∷◌, ◌++◌, Option, some, Text, eqb, ltb, length, take, drop,
  Bool-cases, arith,
}

length-append : (s t : Text) → ltb (length (s ++ t)) (length s) ≡ false
length-append [] t = ground arith
length-append (c ∷ s) t = let h = length-append s t in ground arith

take-append : (s t : Text) → take (length s) (s ++ t) ≡ s
take-append [] t = refl
take-append (c ∷ s) t = ap (λ r. c ∷ r) (take-append s t)

drop-append : (s t : Text) → drop (length s) (s ++ t) ≡ t
drop-append [] t = refl
drop-append (c ∷ s) t = drop-append s t

module _ (base64 : Text → Text) (unbase64 : Text → Option Text) (seal : Text → Text → Text → Text)
    (unseal : Text → Text → Text → Option Text)
    (decodes : (s : Text) → unbase64 (base64 s) ≡ some s)
    (opens : (key nonce s : Text) → unseal key nonce (seal key nonce s) ≡ some s) where
  -- What has been encrypted, under whatever nonce crypto/rand has given, is decrypted by the same key
  -- to the same text, where the codec's decoder and the cipher's opening undo the encoder and the
  -- sealing.
  pub decrypt-encrypt :
      (plaintext key nonce ciphertext : Text)
      → encrypt base64 seal plaintext key (some nonce) ≡ result ciphertext
      → decrypt unbase64 unseal (length nonce) ciphertext key ≡ result plaintext
  unfolding encrypt decrypt
  decrypt-encrypt plaintext key nonce ciphertext h = elim (Bool-cases (eqb (length key) key_size)) [
    | inl sized ↦
        let k : result (base64 (nonce ++ seal key nonce plaintext)) ≡ result ciphertext =
          rw sized at h in
        let e : ciphertext ≡ base64 (nonce ++ seal key nonce plaintext) = ground arith in
        rw
          (
            sized,
            e,
            decodes (nonce ++ seal key nonce plaintext),
            length-append nonce (seal key nonce plaintext),
            take-append nonce (seal key nonce plaintext),
            drop-append nonce (seal key nonce plaintext),
            opens key nonce plaintext,
          )
          refl
    | inr other ↦ absurd (let k = rw other at h in cc k)
  ]
