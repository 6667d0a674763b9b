-- ===== src/Http/Quiet.antt =====
-- The steps of a bounded fetch that make no request.
use agentic_analyst.Prelude.{
  ℕ, Bool, true, false, not, ◌||◌, Option, none, some, Text, codes, text_eq, is_some, leb,
  Bool-cases, inl, inr,
}
use agentic_analyst.Domain.Values.{strip, is_empty}
use agentic_analyst.Domain.Errors.{ok, err, assertion_error}
use agentic_analyst.Store.Logs.{Quiet, Quiet-bind, Quiet-ask, Quiet-lift}
use agentic_analyst.Http.Urls.{
  Address, ParsedUrl, UrlLibrary, resolve_host, resolve_validated_address, with_host,
  canonicalize_parsed, canonicalize_url, url_error, missing_host,
}
use agentic_analyst.Http.Fetch.{
  HttpClient, Response, is_redirect, pin_to, pin_parsed, pin_to_validated_address, follow,
  on_response, max_redirects,
}

module _ (u : UrlLibrary) where
  resolve_host-Quiet : (hostname : Text) (o : Option Address) → Quiet (resolve_host u hostname o)
  resolve_host-Quiet hostname none = Quiet-ask _
  resolve_host-Quiet hostname (some a) = Quiet-lift _

  resolve-Quiet : (host : Text) (block : Bool) → Quiet (resolve_validated_address u host block)
  unfolding resolve_validated_address
  resolve-Quiet host false = Quiet-lift (ok none)
  resolve-Quiet host true = elim (Bool-cases (is_empty (strip host))) [
    | inl missing ↦ rw missing (Quiet-lift (url_error _ missing_host))
    | inr given ↦ rw given (resolve_host-Quiet (strip host) (u.ip_address (strip host)))
  ]

  with_host-Quiet :
      (parsed : ParsedUrl) (scheme : Text) (o : Option Text) (block : Bool)
      → Quiet (with_host u parsed scheme o block)
  with_host-Quiet parsed scheme none block = Quiet-lift (url_error _ missing_host)
  with_host-Quiet parsed scheme (some host) block =
      Quiet-bind _ _ (resolve-Quiet (u.lower host) block)
        (λ _. Quiet-bind _ _ (Quiet-lift parsed.port) (λ port. Quiet-lift (ok _)))

  parsed-Quiet : (block : Bool) (parsed : ParsedUrl) → Quiet (canonicalize_parsed u block parsed)
  parsed-Quiet block parsed =
      let scheme = u.lower parsed.scheme in
      elim (Bool-cases (not (text_eq scheme (codes "http") || text_eq scheme (codes "https")))) [
        | inl unsupported ↦ rw unsupported (Quiet-lift _)
        | inr supported ↦
            rw supported (elim (Bool-cases (is_some parsed.username || is_some parsed.password)) [
              | inl named ↦ rw named (Quiet-lift _)
              | inr plain ↦ rw plain (with_host-Quiet parsed scheme parsed.hostname block)
            ])
      ]

  -- The check of a URL adds nothing to the log.
  pub canonicalize-Quiet : (url : Text) (block : Bool) → Quiet (canonicalize_url u url block)
  unfolding canonicalize_url
  canonicalize-Quiet url block =
      Quiet-bind _ _ (Quiet-lift (u.urlparse url)) (λ parsed. parsed-Quiet block parsed)

  module _ (client : HttpClient) (size_limit_bytes : ℕ) where
    pin_to-Quiet :
        (parsed : ParsedUrl) (hostname : Text) (o : Option Text)
        → Quiet (pin_to u client size_limit_bytes parsed hostname o)
    pin_to-Quiet parsed hostname none = Quiet-lift (err assertion_error)
    pin_to-Quiet parsed hostname (some ip) =
        Quiet-bind _ _ (Quiet-lift parsed.port) (λ port. Quiet-lift (ok _))

    pin_parsed-Quiet :
        (parsed : ParsedUrl) (o : Option Text)
        → Quiet (pin_parsed u client size_limit_bytes parsed o)
    pin_parsed-Quiet parsed none = Quiet-lift (err assertion_error)
    pin_parsed-Quiet parsed (some hostname) =
        Quiet-bind _ _ (resolve-Quiet hostname true) (pin_to-Quiet parsed hostname)

    pub pin-Quiet : (url : Text) → Quiet (pin_to_validated_address u client size_limit_bytes url)
    unfolding pin_to_validated_address
    pin-Quiet url =
        Quiet-bind _ _ (Quiet-lift (u.urlparse url))
          (λ parsed. pin_parsed-Quiet parsed parsed.hostname)

    follow-Quiet :
        (hops : ℕ) (current : Text) (o : Option Text)
        → Quiet (follow u client size_limit_bytes hops current o)
    follow-Quiet hops current none = Quiet-lift (err _)
    follow-Quiet hops current (some location) =
        Quiet-bind _ _ (canonicalize-Quiet (u.urljoin current location) true) (λ canonical.
          elim (Bool-cases (leb max_redirects hops)) [
            | inl over ↦ rw over (Quiet-lift (err _))
            | inr under ↦ rw under (Quiet-lift (ok _))
          ])

    -- So does the reading of a response.
    pub on_response-Quiet :
        (hops : ℕ) (current : Text) (response : Response)
        → Quiet (on_response u client size_limit_bytes hops current response)
    on_response-Quiet hops current response = elim (Bool-cases (is_redirect response.status_code)) [
      | inl moved ↦ rw moved (follow-Quiet hops current (response.header (codes "location")))
      | inr here ↦ rw here (Quiet-bind _ _ (Quiet-lift _) (λ body. Quiet-lift (ok _)))
    ]
