-- ===== src/Syncer/Maxmind.antt =====
-- internal/syncer/maxmind.go. `send` is the HTTP client's Do, none on its error; `path_escape` is
-- url.PathEscape, `format_http` and `parse_http` a time in http.TimeFormat. An empty header is a
-- missing one.
use distri_max.Db.Schema.{Time}
use distri_max.Prelude.{
  ℕ, Bool, not, ◌&&◌, ◌||◌, [], ◌∷◌, ◌++◌, Option, none, some, Text, lit, ◌==◌, eqb, leb,
  if◌then◌else◌,
}

pub record MaxMindClient : Type 0 where
  pub timeout : ℕ
  pub base_url : Text

abbrev pub cons_unless_slash : ℕ → Text → Text
cons_unless_slash c [] = if eqb c b'/' then [] else c ∷ []
cons_unless_slash c (d ∷ s) = c ∷ d ∷ s

-- strings.TrimRight(s, "/")
unfoldable pub trim_slashes : Text → Text
trim_slashes [] = []
trim_slashes (c ∷ s) = cons_unless_slash c (trim_slashes s)

-- 10 * time.Minute; a timeout below 0 is 0.
abbrev pub default_timeout : ℕ
default_timeout = 600000000000

unfoldable pub new_maxmind_client : Text → ℕ → MaxMindClient
unfolding trim_slashes
new_maxmind_client base_url timeout = record {
  timeout = if eqb timeout 0 then default_timeout else timeout;
  base_url = trim_slashes (if base_url == [] then lit "https://download.maxmind.com" else base_url);
}

-- CheckRedirect, by the number of requests already made.
unfoldable pub check_redirect : ℕ → Bool
check_redirect via = not (leb 10 via)

pub record UpstreamRequest : Type 0 where
  pub method : Text
  pub url : Text
  pub account_id : Text
  pub license_key : Text
  pub if_modified_since : Option Text

pub record UpstreamResponse : Type 0 where
  pub status : ℕ
  pub last_modified : Text
  pub body : Text

pub data UpstreamError : Type 0 where
  request_failed invalid_credentials : UpstreamError
  upstream_status : ℕ → UpstreamError

pub data Download : Type 0 where
  refused : UpstreamError → Download
  unmodified : Download
  downloaded : Text → Time → Download

module _ (send : UpstreamRequest → Option UpstreamResponse) where
  abbrev pub credentials_error : Option UpstreamResponse → Option UpstreamError
  credentials_error none = some request_failed
  credentials_error (some r) =
      if eqb r.status 401 || eqb r.status 403
      then some invalid_credentials
      else if (not (eqb r.status 200) && not (eqb r.status 302)) && not (eqb r.status 304)
      then some (upstream_status r.status)
      else none

  unfoldable pub check_credentials : MaxMindClient → Text → Text → Option UpstreamError
  check_credentials c account_id license_key = credentials_error (
      send (record {
        method = lit "HEAD";
        url = c.base_url ++ lit "/geoip/databases/GeoLite2-Country/download?suffix=tar.gz";
        account_id = account_id;
        license_key = license_key;
        if_modified_since = none;
      }))

  module _ (path_escape : Text → Text) (format_http : Time → Text)
      (parse_http : Text → Option Time) where
    abbrev pub condition : Option Time → Option Text
    condition none = none
    condition (some since) = if eqb since 0 then none else some (format_http since)

    abbrev pub time_or_zero : Option Time → Time
    time_or_zero none = 0
    time_or_zero (some parsed) = parsed

    abbrev pub parsed_header : Text → Time
    parsed_header header = if header == [] then 0 else time_or_zero (parse_http header)

    abbrev pub or_now : Time → Time → Time
    or_now now last_modified = if eqb last_modified 0 then now else last_modified

    abbrev pub received : Time → Option UpstreamResponse → Download
    received now none = refused request_failed
    received now (some r) =
        if eqb r.status 304
        then unmodified
        else if not (eqb r.status 200)
        then refused (upstream_status r.status)
        else downloaded r.body (or_now now (parsed_header r.last_modified))

    abbrev pub download_request : MaxMindClient → Text → Text → Text → Option Time → UpstreamRequest
    download_request c account_id license_key edition_id since = record {
      method = lit "GET";
      url =
          c.base_url
          ++ (lit "/geoip/databases/" ++ (path_escape edition_id ++ lit "/download?suffix=tar.gz"));
      account_id = account_id;
      license_key = license_key;
      if_modified_since = condition since;
    }

    unfoldable pub download_database :
        MaxMindClient → Text → Text → Text → Option Time → Time → Download
    download_database c account_id license_key edition_id since now =
        received now (send (download_request c account_id license_key edition_id since))
