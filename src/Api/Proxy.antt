-- ===== src/Api/Proxy.antt =====
-- internal/api/proxy.go. `split_host` is net.SplitHostPort's host, none on its error; `parse_ip` is
-- net.ParseIP, none on nil; a nil predicate on addresses is one that is false everywhere.
pub mod Trust
use distri_max.Prelude.{
  ◌≡◌, Bool, List, [], ◌∷◌, Option, none, some, Text, lit, ◌==◌, split, trim_space, if◌then◌else◌,
}
use distri_max.Api.Http.{Request}

abbrev pub or_text : Text → Option Text → Text
or_text s none = s
or_text s (some t) = t

abbrev pub host_of : (Text → Option Text) → Request → Text
host_of split_host r = or_text r.remote_addr (split_host r.remote_addr)

abbrev pub keep_if : {A Ip : Type 0} → Option Ip → A → A → A
keep_if none candidate other = other
keep_if (some ip) candidate other = candidate

module _ {Ip : Type 0} (parse_ip : Text → Option Ip) where
  -- The first part that is an address, without the white space around it.
  unfoldable pub first_ip : List Text → Option Text
  first_ip [] = none
  first_ip (part ∷ parts) =
      keep_if (parse_ip (trim_space part)) (some (trim_space part)) (first_ip parts)

  unfoldable pub from_real_ip : Text → Text → Text
  from_real_ip host xri = if xri == [] then host else keep_if (parse_ip xri) xri host

  unfoldable pub forwarded : Text → Option Text
  unfolding first_ip
  forwarded xff = if xff == [] then none else first_ip (split b',' xff)

  abbrev pub forwarded_or : Option Text → Text → Text → Text
  forwarded_or (some client) host xri = client
  forwarded_or none host xri = from_real_ip host xri

  abbrev pub resolve_from : (Ip → Bool) → Request → Text → Option Ip → Text
  resolve_from is_trusted_proxy r host none = host
  resolve_from is_trusted_proxy r host (some direct) =
      if is_trusted_proxy direct
      then forwarded_or (forwarded (r.header (lit "X-Forwarded-For"))) host
          (trim_space (r.header (lit "X-Real-IP")))
      else host

  unfoldable pub resolve_client_ip : (Text → Option Text) → (Ip → Bool) → Request → Text
  unfolding forwarded from_real_ip
  resolve_client_ip split_host is_trusted_proxy r =
      resolve_from is_trusted_proxy r (host_of split_host r) (parse_ip (host_of split_host r))
