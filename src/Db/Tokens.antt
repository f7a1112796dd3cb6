-- ===== src/Db/Tokens.antt =====
-- internal/db/download_tokens.go
pub mod Live
use distri_max.Prelude.{
  ℕ, suc, ◌+◌, Bool, true, false, not, ◌&&◌, ◌||◌, List, [], ◌∷◌, ◌++◌, Text, ◌==◌, ltb, eqb,
  if◌then◌else◌,
}
use distri_max.Db.Schema.{Time, DownloadToken, Tables}
use distri_max.Db.Sql.{first_where, update_where, delete_where, count_where}
use distri_max.Db.Store.{token_not_found, constraint_failed, Result, ok, err, M, exec, query}
use distri_max.Db.Versions.{found, is_some, has_id}

unfoldable pub is_token : Text → DownloadToken → Bool
is_token token d = d.token == token

abbrev pub stamped : DownloadToken → Time → DownloadToken
stamped d now = record d { created_at = if eqb d.created_at 0 then now else d.created_at }

-- The primary key, and the reference to products.
unfoldable pub create_download_token : DownloadToken → Time → M (Unit {0})
create_download_token d now = exec λ t.
    if is_some (first_where (is_token d.token) t.tokens)
      || not (is_some (first_where (has_id d.product_id) t.products))
    then err constraint_failed
    else ok (tt, record t { tokens = t.tokens ++ stamped d now ∷ [] })

abbrev pub read_token : Text → Tables → Result DownloadToken
read_token token t = found token_not_found (first_where (is_token token) t.tokens)

unfoldable pub get_download_token : Text → M DownloadToken
get_download_token token = query (read_token token)

unfoldable pub increment_download_token_usage : Text → M (Unit {0})
increment_download_token_usage token = exec λ t. ok (
  tt,
  record t {
    tokens =
        update_where (is_token token) (λ d. record d { download_count = d.download_count + 1 })
          t.tokens;
  },
)

unfoldable pub revoke_download_token : Text → M (Unit {0})
revoke_download_token token = exec λ t. ok (
  tt,
  record t {
    tokens = update_where (is_token token) (λ d. record d { is_revoked = true }) t.tokens;
  },
)

-- expires_at < ? OR is_revoked = 1
unfoldable pub is_spent : Time → DownloadToken → Bool
is_spent now d = ltb d.expires_at now || d.is_revoked

-- The result is RowsAffected.
unfoldable pub clean_expired_download_tokens : Time → M ℕ
clean_expired_download_tokens now = exec λ t. ok (
  count_where (is_spent now) t.tokens,
  record t { tokens = delete_where (is_spent now) t.tokens },
)
