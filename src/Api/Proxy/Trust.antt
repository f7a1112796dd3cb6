-- ===== src/Api/Proxy/Trust.antt =====
-- Whose word the server takes for a client's address.
use distri_max.Prelude.{
  ◌≡◌, ◌⊎◌, refl, ap, Bool, true, false, inl, inr, List, [], ◌∷◌, ◌++◌, Option, none, some, Text,
  lit, ◌==◌, split, trim_space, Bool-cases, All,
}
use distri_max.Api.Http.{Request}
use distri_max.Api.Proxy.{
  keep_if, first_ip, from_real_ip, forwarded, forwarded_or, host_of, resolve_from,
  resolve_client_ip,
}

module _ {Ip : Type 0} (parse_ip : Text → Option Ip) where
  -- The first of the parts that is an address, without the white space around it.
  pub data Named (parts : List Text) : Text → Type 0 where
    named :
        (before after : List Text) (part : Text) (ip : Ip)
        → parts ≡ before ++ part ∷ after
        → All (λ q. parse_ip (trim_space q) ≡ none) before
        → parse_ip (trim_space part) ≡ some ip
        → Named parts (trim_space part)

  abbrev pub Unnamed : List Text → Type 0
  Unnamed parts = All (λ q. parse_ip (trim_space q) ≡ none) parts

  -- X-Forwarded-For, which is there if it is not empty.
  abbrev pub Forwards : Request → Text → Type 0
  Forwards r client =
      ((r.header (lit "X-Forwarded-For") == []) ≡ false)
      × Named (split b',' (r.header (lit "X-Forwarded-For"))) client

  abbrev pub Unforwarded : Request → Type 0
  Unforwarded r =
      ((r.header (lit "X-Forwarded-For") == []) ≡ true)
      ⊎ Unnamed (split b',' (r.header (lit "X-Forwarded-For")))

  -- Where an answer comes from. It is the connection's address, if this is none that can be trusted, or if
  -- no header names an address; the first address in X-Forwarded-For; or, if there is none in it, the
  -- address in X-Real-IP.
  pub data Source (split_host : Text → Option Text) (is_trusted_proxy : Ip → Bool) (r : Request)
      : Text → Type 0 where
    unparsed :
        parse_ip (host_of split_host r) ≡ none
        → Source split_host is_trusted_proxy r (host_of split_host r)
    untrusted :
        (peer : Ip)
        → parse_ip (host_of split_host r) ≡ some peer
        → is_trusted_proxy peer ≡ false
        → Source split_host is_trusted_proxy r (host_of split_host r)
    by_forwarded :
        (peer : Ip) (client : Text)
        → parse_ip (host_of split_host r) ≡ some peer
        → is_trusted_proxy peer ≡ true
        → Forwards r client
        → Source split_host is_trusted_proxy r client
    by_real_ip :
        (peer ip : Ip)
        → parse_ip (host_of split_host r) ≡ some peer
        → is_trusted_proxy peer ≡ true
        → Unforwarded r
        → parse_ip (trim_space (r.header (lit "X-Real-IP"))) ≡ some ip
        → Source split_host is_trusted_proxy r (trim_space (r.header (lit "X-Real-IP")))
    unvouched :
        (peer : Ip)
        → parse_ip (host_of split_host r) ≡ some peer
        → is_trusted_proxy peer ≡ true
        → Unforwarded r
        → (((trim_space (r.header (lit "X-Real-IP")) == []) ≡ true)
            ⊎ (parse_ip (trim_space (r.header (lit "X-Real-IP"))) ≡ none))
        → Source split_host is_trusted_proxy r (host_of split_host r)

  Named-later :
      (part client : Text) (parts : List Text)
      → parse_ip (trim_space part) ≡ none
      → Named parts client
      → Named (part ∷ parts) client
  Named-later part _ parts e (named before after p ip s a h) =
      named (part ∷ before) after p ip (ap (λ ps. part ∷ ps) s) (e, a) h

  -- What `first_ip` finds.
  abbrev Found : List Text → Option Text → Type 0
  Found parts none = Unnamed parts
  Found parts (some client) = Named parts client

  Found-later :
      (part : Text) (parts : List Text) (o : Option Text)
      → parse_ip (trim_space part) ≡ none
      → Found parts o
      → Found (part ∷ parts) o
  Found-later part parts none e h = (e, h)
  Found-later part parts (some client) e h = Named-later part client parts e h

  first_ip-Found : (parts : List Text) → Found parts (first_ip parse_ip parts)
  unfolding first_ip
  first_ip-Found [] = tt
  first_ip-Found (part ∷ parts) = go (parse_ip (trim_space part)) refl (first_ip-Found parts)
    where
      go :
          (o : Option Ip)
          → parse_ip (trim_space part) ≡ o
          → Found parts (first_ip parse_ip parts)
          → Found (part ∷ parts) (keep_if o (some (trim_space part)) (first_ip parse_ip parts))
      go none e h = Found-later part parts (first_ip parse_ip parts) e h
      go (some ip) e h = named [] parts part ip refl tt e

  abbrev Forwarding : Request → Option Text → Type 0
  Forwarding r none = Unforwarded r
  Forwarding r (some client) = Forwards r client

  forwarded-Forwarding :
      (r : Request) → Forwarding r (forwarded parse_ip (r.header (lit "X-Forwarded-For")))
  unfolding forwarded
  forwarded-Forwarding r = elim (Bool-cases (r.header (lit "X-Forwarded-For") == [])) [
    | inl blank ↦ rw blank (inl blank)
    | inr there ↦ rw there (
        go (first_ip parse_ip (split b',' (r.header (lit "X-Forwarded-For"))))
          (first_ip-Found (split b',' (r.header (lit "X-Forwarded-For")))) there)
  ]
    where
      go :
          (o : Option Text)
          → Found (split b',' (r.header (lit "X-Forwarded-For"))) o
          → (r.header (lit "X-Forwarded-For") == []) ≡ false
          → Forwarding r o
      go none h there = inr h
      go (some client) h there = (there, h)

  module _ (split_host : Text → Option Text) (is_trusted_proxy : Ip → Bool) (r : Request)
      (peer : Ip) (parsed : parse_ip (host_of split_host r) ≡ some peer)
      (trusted : is_trusted_proxy peer ≡ true) where
    from_real_ip-Source :
        Unforwarded r
        → Source split_host is_trusted_proxy r
            (from_real_ip parse_ip (host_of split_host r) (trim_space (r.header (lit "X-Real-IP"))))
    unfolding from_real_ip
    from_real_ip-Source u = elim (Bool-cases (trim_space (r.header (lit "X-Real-IP")) == [])) [
      | inl blank ↦ rw (blank, from_real_ip) (unvouched peer parsed trusted u (inl blank))
      | inr present ↦
          rw (present, from_real_ip) (go (parse_ip (trim_space (r.header (lit "X-Real-IP")))) refl)
    ]
      where
        go :
            (o : Option Ip)
            → parse_ip (trim_space (r.header (lit "X-Real-IP"))) ≡ o
            → Source split_host is_trusted_proxy r
                (keep_if o (trim_space (r.header (lit "X-Real-IP"))) (host_of split_host r))
        go none e = unvouched peer parsed trusted u (inr e)
        go (some ip) e = by_real_ip peer ip parsed trusted u e

    forwarded_or-Source :
        (o : Option Text)
        → Forwarding r o
        → Source split_host is_trusted_proxy r (
            forwarded_or parse_ip o
              (host_of split_host r)
              (trim_space (r.header (lit "X-Real-IP"))))
    forwarded_or-Source none h = from_real_ip-Source h
    forwarded_or-Source (some client) h = by_forwarded peer client parsed trusted h

  resolve_from-Source :
      (split_host : Text → Option Text) (is_trusted_proxy : Ip → Bool) (r : Request) (o : Option Ip)
      → parse_ip (host_of split_host r) ≡ o
      → Source split_host is_trusted_proxy r
          (resolve_from parse_ip is_trusted_proxy r (host_of split_host r) o)
  resolve_from-Source split_host is_trusted_proxy r none e = unparsed e
  resolve_from-Source split_host is_trusted_proxy r (some peer) e =
      elim (Bool-cases (is_trusted_proxy peer)) [
        | inl trusted ↦ rw trusted (
            forwarded_or-Source split_host is_trusted_proxy r peer e trusted _
              (forwarded-Forwarding r))
        | inr unknown ↦ rw unknown (untrusted peer e unknown)
      ]

  -- The address that a request is taken to come from is its connection's, unless that is one of a trusted
  -- proxy and a header names an address: then it is the first address that X-Forwarded-For lists, and,
  -- only if it lists none, the one that X-Real-IP gives.
  pub resolve_client_ip-Source :
      (split_host : Text → Option Text) (is_trusted_proxy : Ip → Bool) (r : Request)
      → Source split_host is_trusted_proxy r
          (resolve_client_ip parse_ip split_host is_trusted_proxy r)
  unfolding resolve_client_ip
  resolve_client_ip-Source split_host is_trusted_proxy r =
      resolve_from-Source split_host is_trusted_proxy r _ refl
