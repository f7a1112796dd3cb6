-- ===== src/Tests/Access.antt =====
-- Requests, sessions, keys and tokens of the sample catalogue.
use distri_max.Prelude.{
  ◌≡◌, ◌≢◌, refl, true, inl, inr, [], some, lit, ◌==◌, ==_iff, arith, split, trim_left, trim_right,
  trim_space, any_item, is_listed, strip_prefix,
}
use distri_max.Api.Http.{Context, no_context, json_error, serve_content}
use distri_max.Api.Keys.{extract_token, extract_prefix, require_api_key}
use distri_max.Api.Keys.Access.{require_api_key-revoked}
use distri_max.Api.Keys.Admission.{Grants, key_of, Decides, require_api_key-Decides}
use distri_max.Api.DownloadAuth.{token_of, judge_token, require_download_auth}
use distri_max.Api.DownloadAuth.Tokens
use distri_max.Api.DownloadAuth.Tokens.{
  Permits, require_download_auth-Decides, require_download_auth-admits,
}
use distri_max.Api.Download.{
  download_handler, requested_version, target_version, wrong_filename, respond, matches_etag,
  unmodified,
}
use distri_max.Api.Download.Pinned.{IsTokenDownload, download-IsTokenDownload}
use distri_max.Api.Download.Served.{IsServed, download_handler-IsServed}
use distri_max.Db.ApiKeys.{is_candidate, key_has_id, revoke_api_key}
use distri_max.Db.Sql.{first_where, count_where, update_where}
use distri_max.Db.Store.{ok, healthy, exec, query}
use distri_max.Db.Tokens.{is_token, get_download_token, increment_download_token_usage}
use distri_max.Db.Users.{set_user_disabled, get_session, touch_session, session_has_id, user_has_id}
use distri_max.Db.Users.Admins.{HasAdmin, set_user_disabled-HasAdmin}
use distri_max.Db.Users.Sessions.{Admitted, get_session-Admitted}
use distri_max.Db.Versions.{get_product, get_product_version, has_id, is_kept}
use distri_max.Tests.Samples.{
  catalogue, alice, login, reader, link, key_request, link_request, env, verify, next, content,
}

require_api_key-Decides_example :
    Decides verify
      (lit "download")
      next
      50
      key_request
      no_context
      (healthy catalogue)
      (require_api_key verify (lit "download") next 50 key_request no_context (healthy catalogue))
require_api_key-Decides_example =
    require_api_key-Decides verify (lit "download") next 50 key_request no_context
      (healthy catalogue)

key_request-given : extract_token key_request ≢ []
unfolding extract_token strip_prefix trim_space trim_left trim_right ◌==◌
key_request-given e = ground (arith, ==_iff (extract_token key_request) [])

reader-key_of : key_of verify (extract_token key_request) catalogue ≡ some reader
unfolding extract_token extract_prefix strip_prefix first_where is_candidate ◌==◌ trim_space
    trim_left trim_right
reader-key_of = refl

reader-Grants : Grants (lit "download") (lit "city") 50 reader
unfolding is_listed ◌==◌
reader-Grants = record {
  active = refl;
  live = refl;
  scoped = inr (inr refl);
  allowed = inr (inl refl);
}

reader-listed : first_where (key_has_id (lit "k")) catalogue.api_keys ≡ some reader
unfolding first_where key_has_id ◌==◌
reader-listed = refl

require_api_key-revoked_example :
    require_api_key verify
      (lit "download")
      next
      50
      key_request
      no_context
      (revoke_api_key (lit "k") (healthy catalogue)).1
    ≡ (json_error 401 (lit "invalid_api_key"), (revoke_api_key (lit "k") (healthy catalogue)).1)
unfolding key_has_id ◌==◌
require_api_key-revoked_example =
    require_api_key-revoked verify (lit "download") next 50 key_request no_context catalogue reader
      (lit "k") key_request-given reader-listed ((λ e. refl), tt)

link_request-given : token_of link_request ≢ []
unfolding token_of ◌==◌
link_request-given e = ground (arith, ==_iff (token_of link_request) [])

require_download_auth-Decides_example :
    Tokens.Decides next 50 link_request no_context
      (healthy catalogue)
      (require_download_auth verify next 50 link_request no_context (healthy catalogue))
require_download_auth-Decides_example =
    require_download_auth-Decides verify next 50 link_request no_context (healthy catalogue)
      link_request-given

link_request-content :
    (require_download_auth verify
      (download_handler env)
      50
      link_request
      no_context
      (healthy catalogue)).0
    ≡ serve_content content
unfolding require_download_auth token_of judge_token get_download_token
    increment_download_token_usage download_handler get_product requested_version target_version
    get_product_version wrong_filename respond matches_etag unmodified first_where update_where
    is_token has_id is_kept exec query split trim_space trim_left trim_right any_item ◌==◌
link_request-content = refl

download-IsTokenDownload_example : IsTokenDownload env link_request 50 catalogue content
download-IsTokenDownload_example =
    download-IsTokenDownload verify env 50 link_request no_context (healthy catalogue) content
      link_request-given link_request-content

-- With the link in its context already.
abbrev link_context : Context
link_context = record no_context { download_token = some link }

linked-content :
    (download_handler env link_request link_context (healthy catalogue)).0 ≡ serve_content content
unfolding download_handler get_product requested_version target_version get_product_version
    wrong_filename respond matches_etag unmodified first_where has_id is_kept query split trim_space
    trim_left trim_right any_item ◌==◌
linked-content = refl

download_handler-IsServed_example :
    IsServed env link_request (requested_version link_request link_context) catalogue content
download_handler-IsServed_example =
    download_handler-IsServed env link_request link_context (healthy catalogue) content
      linked-content

catalogue-HasAdmin : HasAdmin catalogue
unfolding count_where
catalogue-HasAdmin = omega arith

set_user_disabled-HasAdmin_example :
    HasAdmin (set_user_disabled (lit "a") true 50 (healthy catalogue)).1.tables
set_user_disabled-HasAdmin_example =
    set_user_disabled-HasAdmin (lit "a") true 50 (healthy catalogue) catalogue-HasAdmin

login-read : (get_session (lit "s") 50 (healthy catalogue)).0 ≡ ok (login, alice)
unfolding get_session touch_session exec query first_where session_has_id user_has_id ◌==◌
login-read = refl

get_session-Admitted_example : Admitted (lit "s") 50 catalogue login alice
get_session-Admitted_example =
    get_session-Admitted (lit "s") 50 (healthy catalogue) login alice login-read
