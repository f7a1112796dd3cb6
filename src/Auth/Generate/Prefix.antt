-- ===== src/Auth/Generate/Prefix.antt =====
-- A new key is found again by the prefix that is stored with it.
use distri_max.Prelude.{
  ℕ, ◌*◌, ◌/◌, ◌%◌, ◌<◌, ◌≡◌, refl, true, false, List, [], ◌∷◌, ◌++◌, Option, none, some, Text, lit,
  leb, length, All, take, is_space, trim_left, trim_right, trim_space, arith,
}
use distri_max.Api.Keys.{extract_prefix, prefix_length}
use distri_max.Auth.Generate.{digit, hex, GeneratedKey, with_hash, generate_api_key}

IsDense : Text → Type 0
IsDense s = All (λ c. is_space c ≡ false) s

trim_left-IsDense : (s : Text) → IsDense s → trim_left s ≡ s
unfolding trim_left IsDense
trim_left-IsDense [] h = refl
trim_left-IsDense (c ∷ s) h = rw h.0 refl

trim_right-IsDense : (s : Text) → IsDense s → trim_right s ≡ s
unfolding trim_right IsDense
trim_right-IsDense [] h = refl
trim_right-IsDense (c ∷ []) h = rw h.0 refl
trim_right-IsDense (c ∷ d ∷ s) h = rw (trim_right-IsDense (d ∷ s) h.1) refl

trim_space-IsDense : (s : Text) → IsDense s → trim_space s ≡ s
unfolding trim_space
trim_space-IsDense s h = rw (trim_left-IsDense s h) (trim_right-IsDense s h)

digit-IsDense : (n : ℕ) → n < 16 → is_space (digit n) ≡ false
unfolding digit
digit-IsDense n h = ground arith

hex-IsDense : (bs : List ℕ) → All (λ b. b < 256) bs → IsDense (hex bs)
unfolding hex IsDense
hex-IsDense [] h = tt
hex-IsDense (b ∷ bs) h = (
  digit-IsDense (b / 16) (let l = h.0 in omega arith),
  (digit-IsDense (b % 16) (omega arith), hex-IsDense bs h.1),
)

length-hex : (bs : List ℕ) → length (hex bs) ≡ 2 * length bs
unfolding hex
length-hex [] = omega arith
length-hex (b ∷ bs) = omega (arith, length-hex bs)

secret-IsDense : (s : Text) → IsDense s → IsDense (lit "dm_live_" ++ s)
unfolding IsDense
secret-IsDense s h = (refl, (refl, (refl, (refl, (refl, (refl, (refl, (refl, h))))))))

with_hash-eq :
    (secret : Text) (o : Option Text) (k : GeneratedKey)
    → with_hash secret o ≡ some k
    → (k.full_secret ≡ secret) × (k.prefix ≡ take prefix_length secret) × (o ≡ some k.hash)
with_hash-eq secret none k h = absurd (cc h)
with_hash-eq secret (some hash) k h = (ground arith, ground arith, ground arith)

-- The prefix that is handed out with a generated key is the one under which the middleware looks
-- the key up, and the hash is the full secret's; the random source gives 24 bytes.
pub generate_api_key-extract_prefix :
    (bytes : List ℕ) (hash_password : Text → Option Text) (k : GeneratedKey)
    → length bytes ≡ 24
    → All (λ b. b < 256) bytes
    → generate_api_key (some bytes) hash_password ≡ some k
    → (extract_prefix k.full_secret ≡ k.prefix) × (hash_password k.full_secret ≡ some k.hash)
unfolding generate_api_key extract_prefix
generate_api_key-extract_prefix bytes hash_password k l b h =
    let secret = lit "dm_live_" ++ hex bytes in
    let (full, prefix, hash) = with_hash-eq secret (hash_password secret) k h in
    let dense : trim_space secret ≡ secret =
      trim_space-IsDense secret (secret-IsDense (hex bytes) (hex-IsDense bytes b)) in
    let long : leb prefix_length (length secret) ≡ true = ground (arith, length-hex bytes) in
    rw full (rw (dense, long, prefix) refl, hash)
