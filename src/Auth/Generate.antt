-- ===== src/Auth/Generate.antt =====
-- GenerateAPIKey of internal/auth/apikey.go and GenerateDownloadToken of
-- internal/auth/download_token.go. `random` is what crypto/rand gives for 24 bytes, none on its
-- error; `hash_password` is HashPassword of internal/auth/argon2.go, none on its error.
pub mod Prefix
use distri_max.Prelude.{
  ℕ, ◌+◌, ◌/◌, ◌%◌, List, [], ◌∷◌, ◌++◌, Option, none, some, Text, lit, ltb, take, if◌then◌else◌,
}
use distri_max.Api.Keys.{prefix_length}

unfoldable pub digit : ℕ → ℕ
digit n = if ltb n 10 then 48 + n else 87 + n

-- hex.EncodeToString
unfoldable pub hex : List ℕ → Text
unfolding digit
hex [] = []
hex (b ∷ bs) = digit (b / 16) ∷ digit (b % 16) ∷ hex bs

pub record GeneratedKey : Type 0 where
  pub full_secret : Text
  pub prefix : Text
  pub hash : Text

abbrev pub with_hash : Text → Option Text → Option GeneratedKey
with_hash secret none = none
with_hash secret (some hash) =
    some (record { full_secret = secret; prefix = take prefix_length secret; hash = hash })

unfoldable pub generate_api_key : Option (List ℕ) → (Text → Option Text) → Option GeneratedKey
unfolding hex
generate_api_key none hash_password = none
generate_api_key (some bytes) hash_password =
    with_hash (lit "dm_live_" ++ hex bytes) (hash_password (lit "dm_live_" ++ hex bytes))

unfoldable pub generate_download_token : Option (List ℕ) → Option Text
unfolding hex
generate_download_token none = none
generate_download_token (some bytes) = some (lit "dmt_" ++ hex bytes)
