-- ===== src/Http/Urls.antt =====
-- ingestion/canonicalize.py. `urllib.parse`, `ipaddress`, `socket.getaddrinfo`, `str.lower` and
-- SHA-256 are parameters.
use agentic_analyst.Prelude.{
  ℕ, Bool, true, false, not, ◌||◌, List, [], ◌∷◌, ◌++◌, Option, none, some, Text, codes, text_eq,
  text_le, sort_by, is_some, ◌==◌, if◌then◌else◌,
}
use agentic_analyst.Domain.Values.{strip, is_empty}
use agentic_analyst.Domain.Errors.{
  UrlFault, unsupported_scheme, embedded_credentials, invalid_host, private_network, Error, Result,
  ok, err, url_validation,
}
use agentic_analyst.Store.Session.{M, pure, ask, lift, ◌>>=◌, ◌>>◌}

-- An address of `ipaddress`, by the properties that the code reads.
pub record Address : Type 0 where
  pub is_private : Bool
  pub is_loopback : Bool
  pub is_link_local : Bool
  pub is_multicast : Bool
  pub is_reserved : Bool
  pub is_unspecified : Bool
  pub version : ℕ

pub record ParsedUrl : Type 0 where
  pub scheme : Text
  pub username : Option Text
  pub password : Option Text
  pub hostname : Option Text
  -- reading the port may raise a ValueError
  pub port : Result (Option ℕ)
  pub path : Text
  pub query : Text

-- What `socket.getaddrinfo` does: it fails with a gaierror, returns the addresses that it found, or
-- raises something else.
pub data Lookup : Type 0 where
  not_found : Lookup
  found : List Text → Lookup
  failed : Error → Lookup

pub record UrlLibrary : Type 0 where
  pub urlparse : Text → Result ParsedUrl
  pub urlunparse : Text → Text → Text → Text → Text
  pub urljoin : Text → Text → Text
  pub parse_qsl : Text → List (Text × Text)
  pub urlencode : List (Text × Text) → Text
  pub lower : Text → Text
  pub show : ℕ → Text
  pub sha256 : Text → Text
  -- nothing stands for the ValueError
  pub ip_address : Text → Option Address
  pub getaddrinfo : Text → ℕ → Lookup

-- `_is_restricted_ip`
unfoldable pub is_restricted_ip : Address → Bool
is_restricted_ip address =
    address.is_private || address.is_loopback || address.is_link_local || address.is_multicast
    || address.is_reserved || address.is_unspecified

abbrev pub url_error {ℓ} : {A : Type ℓ} → UrlFault → Text → Result A
url_error fault message = err (url_validation fault message)

abbrev pub missing_host : Text
missing_host = codes "URL host is missing or empty"

abbrev pub query_le : Text × Text → Text × Text → Bool
query_le p q = text_le p.0 q.0

-- `_DEFAULT_PORTS[scheme]`, for an allowed scheme
abbrev pub default_port : Text → ℕ
default_port scheme = if text_eq scheme (codes "http") then 80 else 443

abbrev pub is_default_port : Text → Option ℕ → Bool
is_default_port scheme none = true
is_default_port scheme (some port) = port == default_port scheme

module _ (u : UrlLibrary) where
  -- The address of a literal host.
  abbrev pub check_literal : Text → Address → Result (Option Text)
  check_literal hostname literal =
      if is_restricted_ip literal
      then url_error private_network (codes "host resolves to restricted address: " ++ hostname)
      else ok (some hostname)

  abbrev pub check_resolved : Text → Option Address → Result (Unit {0}) → Result (Unit {0})
  check_resolved hostname none rest =
      url_error invalid_host (codes "invalid resolved address for host: " ++ hostname)
  check_resolved hostname (some resolved) rest =
      if is_restricted_ip resolved
      then url_error private_network (codes "host resolves to restricted address: " ++ hostname)
      else rest

  -- The loop over the resolved addresses: all of them are checked.
  unfoldable pub check_all : Text → List Text → Result (Unit {0})
  check_all hostname [] = ok tt
  check_all hostname (ip ∷ ips) = check_resolved hostname (u.ip_address ip) (check_all hostname ips)

  abbrev pub first_of : Text → Text → Result (Unit {0}) → Result (Option Text)
  first_of hostname ip (ok _) = ok (some ip)
  first_of hostname ip (err x) = err x

  unfoldable pub check_lookup : Text → Lookup → Result (Option Text)
  unfolding check_all
  check_lookup hostname not_found =
      url_error invalid_host (codes "unable to resolve host: " ++ hostname)
  check_lookup hostname (failed x) = err x
  check_lookup hostname (found []) =
      url_error invalid_host (codes "unable to resolve host: " ++ hostname)
  check_lookup hostname (found (ip ∷ ips)) = first_of hostname ip (check_all hostname (ip ∷ ips))

  abbrev pub resolve_host : Text → Option Address → M (Option Text)
  resolve_host hostname (some literal) = lift (check_literal hostname literal)
  resolve_host hostname none = ask (λ n. check_lookup hostname (u.getaddrinfo hostname n))

  unfoldable pub resolve_validated_address : Text → Bool → M (Option Text)
  unfolding ask check_lookup is_restricted_ip
  resolve_validated_address host false = pure none
  resolve_validated_address host true =
      let hostname = strip host in
      if is_empty hostname
      then lift (url_error invalid_host missing_host)
      else resolve_host hostname (u.ip_address hostname)

  -- `_build_netloc`
  abbrev pub build_netloc : Text → Option ℕ → Text → Text
  build_netloc hostname none scheme = hostname
  build_netloc hostname (some port) scheme =
      if is_default_port scheme (some port)
      then hostname
      else hostname ++ (codes ":" ++ u.show port)

  -- The end of `canonicalize_url`, behind the check of the host.
  abbrev pub canonical_of : ParsedUrl → Text → Text → Option ℕ → Text × Text
  canonical_of parsed scheme hostname port =
      let path = if is_empty parsed.path then codes "/" else parsed.path in
      let query = u.urlencode (sort_by query_le (u.parse_qsl parsed.query)) in
      let canonical = u.urlunparse scheme (build_netloc hostname port scheme) path query in
      (canonical, u.sha256 canonical)

  abbrev pub with_host : ParsedUrl → Text → Option Text → Bool → M (Text × Text)
  with_host parsed scheme none block = lift (url_error invalid_host missing_host)
  with_host parsed scheme (some host) block =
      let hostname = u.lower host in
      resolve_validated_address hostname block
      >> (lift parsed.port >>= λ port. pure (canonical_of parsed scheme hostname port))

  abbrev pub canonicalize_parsed : Bool → ParsedUrl → M (Text × Text)
  canonicalize_parsed block parsed =
      let scheme = u.lower parsed.scheme in
      if not (text_eq scheme (codes "http") || text_eq scheme (codes "https"))
      then lift (url_error unsupported_scheme (codes "unsupported URL scheme: " ++ parsed.scheme))
      else if is_some parsed.username || is_some parsed.password
      then lift (url_error embedded_credentials (codes "URL must not contain embedded credentials"))
      else with_host parsed scheme parsed.hostname block

  unfoldable pub canonicalize_url : Text → Bool → M (Text × Text)
  unfolding resolve_validated_address sort_by
  canonicalize_url url block = lift (u.urlparse url) >>= canonicalize_parsed block
