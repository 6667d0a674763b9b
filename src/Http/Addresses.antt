-- ===== src/Http/Addresses.antt =====
-- The check of a host: what an accepted address has passed.
use agentic_analyst.Prelude.{
  ℕ, ◌++◌, ◌≢◌, codes, arith, ◌≡◌, refl, true, false, List, [], ◌∷◌, Option, none, some, Text, All,
  All-of, Bool-cases, inl, inr,
}
use agentic_analyst.Domain.Values.{strip, is_empty}
use agentic_analyst.Domain.Errors.{Result, ok, err, Ensures}
use agentic_analyst.Store.Session.{World, Event, http_requested}
use agentic_analyst.Store.Logs.{Logs, Logs-ask, Logs-lift}
use agentic_analyst.Http.Urls.{
  Address, UrlLibrary, Lookup, not_found, found, failed, is_restricted_ip, check_literal,
  check_resolved, check_all, first_of, check_lookup, resolve_host, resolve_validated_address,
  url_error, missing_host,
}

-- None of the restrictions holds of the address.
abbrev pub IsPublic : Address → Type 0
IsPublic a =
    (a.is_private ≡ false)
    × (a.is_loopback ≡ false)
    × (a.is_link_local ≡ false)
    × (a.is_multicast ≡ false)
    × (a.is_reserved ≡ false)
    × (a.is_unspecified ≡ false)

unrestricted-IsPublic : (a : Address) → is_restricted_ip a ≡ false → IsPublic a
unfolding is_restricted_ip
unrestricted-IsPublic a h =
    (ground arith, ground arith, ground arith, ground arith, ground arith, ground arith)

module _ (u : UrlLibrary) where
  -- The text is an address that is not private, loopback, link-local, multicast, reserved or
  -- unspecified.
  abbrev pub IsSafe : Text → Type 0
  IsSafe ip = (a : Address) × (u.ip_address ip ≡ some a) × IsPublic a

  abbrev pub IsSafeAnswer : Option Text → Type 0
  IsSafeAnswer none = ⊥
  IsSafeAnswer (some ip) = IsSafe ip

  -- The host part of a URL for this address: in brackets if the address is of version 6.
  pub data IsHostOf (ip : Text) : Text → Type 0 where
    plain : (a : Address) → u.ip_address ip ≡ some a → a.version ≢ 6 → IsHostOf ip ip
    bracketed :
        (a : Address)
        → u.ip_address ip ≡ some a
        → a.version ≡ 6
        → IsHostOf ip (codes "[" ++ (ip ++ codes "]"))

  -- The network location is this host, with or without a port behind it.
  pub data IsNetlocOf (host : Text) : Text → Type 0 where
    without_port : IsNetlocOf host host
    with_port : (port : ℕ) → IsNetlocOf host (host ++ (codes ":" ++ u.show port))

  -- The URL is put together with a safe address in the place of its host.
  pub record IsSafeUrl (url : Text) : Type 0 where
    pub ip : Text
    pub host : Text
    pub netloc : Text
    pub scheme : Text
    pub path : Text
    pub query : Text
    pub safe : IsSafe ip
    pub is_host : IsHostOf ip host
    pub is_netloc : IsNetlocOf host netloc
    pub assembled : url ≡ u.urlunparse scheme netloc path query

  abbrev pub IsSafeRequest : Event → Type 0
  IsSafeRequest (http_requested url) = IsSafeUrl url
  IsSafeRequest _ = Unit

  check_literal-IsSafe :
      (hostname : Text) (a : Address)
      → u.ip_address hostname ≡ some a
      → Ensures IsSafeAnswer (check_literal u hostname a)
  check_literal-IsSafe hostname a e = elim (Bool-cases (is_restricted_ip a)) [
    | inl bad ↦ rw bad tt
    | inr good ↦ rw good (a, e, unrestricted-IsPublic a good)
  ]

  check_resolved-IsSafe :
      (hostname ip : Text) (rest : Result (Unit {0})) (o : Option Address)
      → u.ip_address ip ≡ o
      → (Q : Type 0) → Ensures (λ _. Q) rest
      → Ensures (λ _. IsSafe ip × Q) (check_resolved u hostname o rest)
  check_resolved-IsSafe hostname ip rest none e Q q = tt
  check_resolved-IsSafe hostname ip rest (some a) e Q q = elim (Bool-cases (is_restricted_ip a)) [
    | inl bad ↦ rw bad tt
    | inr good ↦ rw good (with_rest rest q good)
  ]
    where
      with_rest :
          (r : Result (Unit {0}))
          → Ensures (λ _. Q) r
          → is_restricted_ip a ≡ false
          → Ensures (λ _. IsSafe ip × Q) r
      with_rest (ok _) k good = ((a, e, unrestricted-IsPublic a good), k)
      with_rest (err x) k good = tt

  -- All addresses pass, or the check raises.
  check_all-IsSafe :
      (hostname : Text) (ips : List Text) → Ensures (λ _. All IsSafe ips) (check_all u hostname ips)
  unfolding check_all
  check_all-IsSafe hostname [] = tt
  check_all-IsSafe hostname (ip ∷ ips) =
      check_resolved-IsSafe hostname ip (check_all u hostname ips) (u.ip_address ip) refl
        (All IsSafe ips) (check_all-IsSafe hostname ips)

  first_of-IsSafe :
      (hostname ip : Text) (ips : List Text) (r : Result (Unit {0}))
      → Ensures (λ _. All IsSafe (ip ∷ ips)) r
      → Ensures IsSafeAnswer (first_of u hostname ip r)
  first_of-IsSafe hostname ip ips (ok _) h = h.0
  first_of-IsSafe hostname ip ips (err x) h = tt

  check_lookup-IsSafe :
      (hostname : Text) (l : Lookup) → Ensures IsSafeAnswer (check_lookup u hostname l)
  unfolding check_lookup
  check_lookup-IsSafe hostname not_found = tt
  check_lookup-IsSafe hostname (failed x) = tt
  check_lookup-IsSafe hostname (found []) = tt
  check_lookup-IsSafe hostname (found (ip ∷ ips)) =
      first_of-IsSafe hostname ip ips (check_all u hostname (ip ∷ ips))
        (check_all-IsSafe hostname (ip ∷ ips))

  module _ {κ} (P : Event → Type κ) where
    resolve_host-Logs :
        (hostname : Text) (o : Option Address)
        → u.ip_address hostname ≡ o
        → Logs P IsSafeAnswer (resolve_host u hostname o)
    resolve_host-Logs hostname none e =
        Logs-ask P _ (λ n. check_lookup-IsSafe hostname (u.getaddrinfo hostname n))
    resolve_host-Logs hostname (some a) e = Logs-lift P _ (check_literal-IsSafe hostname a e)

    pub resolve-Logs : (host : Text) → Logs P IsSafeAnswer (resolve_validated_address u host true)
    unfolding resolve_validated_address
    resolve-Logs host = elim (Bool-cases (is_empty (strip host))) [
      | inl missing ↦ rw missing (Logs-lift P (url_error _ missing_host) tt)
      | inr given ↦ rw given (resolve_host-Logs (strip host) (u.ip_address (strip host)) refl)
    ]

  -- With `block_private_networks`, whatever the resolver answers, the check of a host raises or
  -- returns an address, and that address is neither private, loopback, link-local, multicast,
  -- reserved nor unspecified.
  pub resolve_validated_address-IsSafe :
      (host : Text) (w : World) → Ensures IsSafeAnswer (resolve_validated_address u host true w).0
  resolve_validated_address-IsSafe host w =
      ((resolve-Logs (λ _. Unit {0}) host).run w (All-of (λ _. tt) w.log)).1
