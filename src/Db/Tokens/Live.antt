-- ===== src/Db/Tokens/Live.antt =====
-- What cleaning leaves of the download tokens.
use distri_max.Prelude.{◌≤◌, ◌≡◌, ap, false, some, Text, arith}
use distri_max.Db.Schema.{Time, DownloadToken, Tables}
use distri_max.Db.Sql.{
  first_where, delete_where, first_where-All, first_where-delete_live, delete_where-All,
}
use distri_max.Db.Store.{ok, healthy, exec, query}
use distri_max.Db.Versions.{found, found-eq-ok}
use distri_max.Db.Tokens.{is_token, is_spent, get_download_token, clean_expired_download_tokens}

-- After a cleaning, a token that is found is neither revoked nor past its expiry, if the driver
-- refuses nothing.
pub clean-is_spent :
    (now : Time) (token : Text) (t : Tables) (d : DownloadToken)
    → (get_download_token token (clean_expired_download_tokens now (healthy t)).1).0 ≡ ok d
    → (d.is_revoked ≡ false) × (now ≤ d.expires_at)
unfolding get_download_token clean_expired_download_tokens exec query is_spent
clean-is_spent now token t d h =
    let e : first_where (is_token token) (delete_where (is_spent now) t.tokens) ≡ some d =
      found-eq-ok _ _ d h in
    let live : is_spent now d ≡ false =
      first_where-All _ (is_token token) _ d (delete_where-All (is_spent now) t.tokens) e in
    (ground arith, ground arith)

-- A token that is not spent is found after a cleaning just as before, if the driver refuses nothing.
pub clean-live :
    (now : Time) (token : Text) (t : Tables) (d : DownloadToken)
    → first_where (is_token token) t.tokens ≡ some d
    → is_spent now d ≡ false
    → (get_download_token token (clean_expired_download_tokens now (healthy t)).1).0 ≡ ok d
unfolding get_download_token clean_expired_download_tokens exec query
clean-live now token t d e h = ap (found _) (first_where-delete_live _ _ t.tokens d e h)
