-- ===== src/Tests/Environment.antt =====
-- A sample environment, and the query of a request.
use distri_max.Api.AuditLogger.{Query, is_sensitive, redact}
use distri_max.Api.AuditLogger.Redacted.{redact-hides}
use distri_max.Api.AuditLogger.Secret.{folds}
use distri_max.Config.{
  Environment, Config, loaded, get_env, to_lower, decode_hex, parse_encryption_key, cut,
  trim_quotes_left, trim_quotes_right, load_dot_env, parse_parts, parse_cidr_list, load,
}
use distri_max.Config.Loaded.{IsValid, load-IsValid}
use distri_max.Prelude.{
  ◌≡◌, refl, List, [], ◌∷◌, Option, none, some, Text, lit, ◌==◌, map, here, there, any_item, split,
  trim_space, trim_left, trim_right, strip_prefix, contains, if◌then◌else◌,
}

abbrev variables : Environment
variables = λ key. if key == lit "STORAGE_BACKEND" then some (lit " S3 ") else none

abbrev dot_env : Option (List Text)
dot_env =
    some (lit "# local" ∷ lit "SETTINGS_ENCRYPTION_KEY='0123456789abcdef0123456789abcdef'" ∷ [])

-- Networks are their texts.
abbrev config : Config Text
config = record {
  http_bind_address = lit ":8080";
  sqlite_path = lit "/var/lib/distrimax/distrimax.sqlite3";
  artifact_root = lit "/var/lib/distrimax/artifacts";
  staging_root = lit "/var/lib/distrimax/staging";
  backup_root = lit "/var/lib/distrimax/backups";
  bootstrap_secret = [];
  recovery_secret = [];
  settings_encryption_key = lit "0123456789abcdef0123456789abcdef";
  storage_backend = lit "s3";
  trusted_proxies = lit "127.0.0.1/32" ∷ [];
  trusted_proxies_raw = lit "127.0.0.1/32";
}

loads : load some dot_env variables ≡ loaded config
unfolding load load_dot_env cut trim_quotes_left trim_quotes_right get_env to_lower
    parse_encryption_key decode_hex parse_cidr_list parse_parts split trim_space trim_left
    trim_right strip_prefix contains ◌==◌
loads = refl

load-IsValid_example : IsValid config
load-IsValid_example = load-IsValid some dot_env variables config loads

abbrev query : Query
query = (lit "version", lit "1" ∷ []) ∷ (lit "API_Key", lit "dm_live_0" ∷ []) ∷ []

redact-hides_example :
    ((lit "[REDACTED]" ∷ []) ≡ (lit "[REDACTED]" ∷ []))
    × (map (λ p. p.0) (redact query) ≡ map (λ p. p.0) query)
unfolding redact is_sensitive to_lower contains strip_prefix any_item folds
redact-hides_example =
    redact-hides query (lit "API_") (lit "Key") [] (lit "[REDACTED]" ∷ []) refl (there here)
