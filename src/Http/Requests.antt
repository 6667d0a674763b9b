-- ===== src/Http/Requests.antt =====
-- The requests that a bounded fetch makes.
use agentic_analyst.Prelude.{
  ℕ, zero, suc, ◌+◌, ◌≤◌, Bool, true, false, Option, none, some, Text, All, arith, ◌≡◌, refl, codes,
  ◌==◌, Bool-cases, inl, inr,
}
use agentic_analyst.Prelude.Counting.{count_if}
use agentic_analyst.Domain.Errors.{err}
use agentic_analyst.Store.Session.{World, Event, http_requested, raise, M}
use agentic_analyst.Store.Logs.{
  Logs, Logs-bind, Logs-try, Logs-ask, Logs-lift, Logs-raise, Logs-pure, Logs-emit, Costs,
  Costs-bind, Costs-try, Costs-emit, Costs-weaken, Costs-Quiet, Quiet-ask, Quiet-lift, Anything,
  Ensures-Anything, Logs-Quiet,
}
use agentic_analyst.Http.Urls.{Address, ParsedUrl, UrlLibrary}
use agentic_analyst.Http.Fetch.{
  Dict, HttpClient, BoundedFetchResult, Pinned, Turn, again, done, pin_to, pin_parsed,
  pin_to_validated_address, translate, stream, pin_host, pinned_netloc, dict_set, request, turn,
  after_turn, turns, bounded_fetch, max_redirects,
}
use agentic_analyst.Http.Quiet.{canonicalize-Quiet, pin-Quiet, on_response-Quiet}
use agentic_analyst.Http.Addresses.{
  IsHostOf, plain, bracketed, IsNetlocOf, without_port, with_port, IsSafeUrl, IsSafe, IsSafeAnswer,
  IsSafeRequest, resolve-Logs,
}

abbrev pub is_request : Event → Bool
is_request (http_requested ip) = true
is_request _ = false

module _ (u : UrlLibrary) (client : HttpClient) (size_limit_bytes : ℕ) where
  -- The URL that a request is pinned to names a safe address.
  abbrev PinnedSafely : Pinned → Type 0
  PinnedSafely p = IsSafeUrl u p.url

  host_of :
      (ip : Text) (a : Address)
      → u.ip_address ip ≡ some a
      → IsHostOf u ip (pin_host u client size_limit_bytes ip (some a))
  host_of ip a e = elim (Bool-cases (a.version == 6)) [
    | inl six ↦ rw six (bracketed a e (ground arith))
    | inr other ↦ rw other (plain a e (ground arith))
  ]

  netloc_of :
      (host : Text) (port : Option ℕ)
      → IsNetlocOf u host (pinned_netloc u client size_limit_bytes host port)
  netloc_of host none = without_port
  netloc_of host (some port) = with_port port

  abbrev netloc_for : Text → Option ℕ → Text
  netloc_for ip port =
      pinned_netloc u client size_limit_bytes
        (pin_host u client size_limit_bytes ip (u.ip_address ip)) port

  pinned_to :
      (parsed : ParsedUrl) (ip : Text) (port : Option ℕ)
      → IsSafe u ip
      → IsSafeUrl u (u.urlunparse parsed.scheme (netloc_for ip port) parsed.path parsed.query)
  pinned_to parsed ip port (a, e, public) = record {
    ip = ip;
    host = pin_host u client size_limit_bytes ip (u.ip_address ip);
    netloc = netloc_for ip port;
    scheme = parsed.scheme;
    path = parsed.path;
    query = parsed.query;
    safe = (a, e, public);
    is_host = rw e (host_of ip a e);
    is_netloc = netloc_of _ port;
    assembled = refl;
  }

  pin_to-Logs :
      (parsed : ParsedUrl) (hostname : Text) (o : Option Text)
      → IsSafeAnswer u o
      → Logs (IsSafeRequest u) PinnedSafely (pin_to u client size_limit_bytes parsed hostname o)
  pin_to-Logs parsed hostname none safe = elim safe [ ]
  pin_to-Logs parsed hostname (some ip) safe =
      Logs-bind (IsSafeRequest u) _ _
        (Logs-lift (IsSafeRequest u) parsed.port (Ensures-Anything parsed.port))
        (λ port _. Logs-pure (IsSafeRequest u) _ (pinned_to parsed ip port safe))

  pin_parsed-Logs :
      (parsed : ParsedUrl) (o : Option Text)
      → Logs (IsSafeRequest u) PinnedSafely (pin_parsed u client size_limit_bytes parsed o)
  pin_parsed-Logs parsed none = Logs-raise (IsSafeRequest u) _
  pin_parsed-Logs parsed (some hostname) =
      Logs-bind (IsSafeRequest u) _ _ (resolve-Logs u (IsSafeRequest u) hostname)
        (pin_to-Logs parsed hostname)

  pin-Logs :
      (url : Text)
      → Logs (IsSafeRequest u) PinnedSafely (pin_to_validated_address u client size_limit_bytes url)
  unfolding pin_to_validated_address
  pin-Logs url =
      Logs-bind (IsSafeRequest u) _ _
        (Logs-lift (IsSafeRequest u) (u.urlparse url) (Ensures-Anything (u.urlparse url)))
        (λ parsed _. pin_parsed-Logs parsed parsed.hostname)

  stream-Logs :
      (url : Text) (headers : Dict) (name : Text)
      → IsSafeUrl u url
      → Logs (IsSafeRequest u) Anything (stream u client size_limit_bytes url headers name)
  stream-Logs url headers name safe =
      Logs-bind (IsSafeRequest u) _ _ (Logs-emit (IsSafeRequest u) (http_requested url) safe)
        (λ _ _.
          Logs-ask (IsSafeRequest u) (client.stream url headers name)
            (λ n. Ensures-Anything (client.stream url headers name n)))

  request-Logs :
      (headers : Dict) (hops : ℕ) (current : Text) (pinned : Pinned)
      → PinnedSafely pinned
      → Logs
          (IsSafeRequest u)
          Anything
          (request u client size_limit_bytes headers hops current pinned)
  unfolding request
  request-Logs headers hops current pinned safe =
      let P = IsSafeRequest u in
      Logs-bind P _ _
        (stream-Logs pinned.url (dict_set (codes "Host") pinned.hostname headers) pinned.hostname
          safe)
        (λ response _.
          Logs-Quiet P _ (on_response-Quiet u client size_limit_bytes hops current response))

  turn-Logs :
      (headers : Dict) (hops : ℕ) (current : Text)
      → Logs (IsSafeRequest u) Anything (turn u client size_limit_bytes headers hops current)
  unfolding turn
  turn-Logs headers hops current =
      let P = IsSafeRequest u in
      Logs-bind P _ _ (pin-Logs current) (λ pinned safe.
        Logs-try P (request u client size_limit_bytes headers hops current pinned)
          (λ x. raise (translate u client size_limit_bytes current x))
          (request-Logs headers hops current pinned safe) (λ x. Logs-raise P _))

  after_turn-Logs :
      (continue : Text → M BoundedFetchResult) (t : Turn)
      → ((url : Text) → Logs (IsSafeRequest u) Anything (continue url))
      → Logs (IsSafeRequest u) Anything (after_turn u client size_limit_bytes continue t)
  after_turn-Logs continue (done result) h = Logs-pure (IsSafeRequest u) result tt
  after_turn-Logs continue (again url) h = h url

  turns-Logs :
      (headers : Dict) (left hops : ℕ) (current : Text)
      → Logs (IsSafeRequest u) Anything (turns u client size_limit_bytes headers left hops current)
  unfolding turns
  turns-Logs headers zero hops current = Logs-raise (IsSafeRequest u) _
  turns-Logs headers (suc left) hops current =
      Logs-bind (IsSafeRequest u) _ _ (turn-Logs headers hops current) (λ t _.
        after_turn-Logs (λ url. turns u client size_limit_bytes headers left (suc hops) url) t
          (λ url. turns-Logs headers left (suc hops) url))

  -- Where every request of the log went to a safe URL, this is still so behind a bounded fetch of any
  -- URL: whatever the resolver and the servers answer, redirects included, the URL that each request
  -- hands to the HTTP client is put together with an address in the place of its host, with or
  -- without a port, that is neither private, loopback, link-local, multicast, reserved nor
  -- unspecified.
  pub bounded_fetch-IsSafe :
      (url user_agent : Text) (extra : Dict) (w : World)
      → All (IsSafeRequest u) w.log
      → All (IsSafeRequest u) (bounded_fetch u client size_limit_bytes url user_agent extra w).1.log
  unfolding bounded_fetch
  bounded_fetch-IsSafe url user_agent extra w h =
      ((Logs-bind (IsSafeRequest u) _ _
          (Logs-Quiet (IsSafeRequest u) _ (canonicalize-Quiet u url true))
          (λ canonical _. turns-Logs _ (suc max_redirects) 0 canonical.0)).run
        w h).0

  stream-Costs :
      (url : Text) (headers : Dict) (name : Text)
      → Costs is_request 1 (stream u client size_limit_bytes url headers name)
  stream-Costs url headers name =
      Costs-bind is_request 1 0 _ _ (Costs-emit is_request (http_requested url))
        (λ _. Costs-Quiet is_request _ (Quiet-ask (client.stream url headers name)))

  request-Costs :
      (headers : Dict) (hops : ℕ) (current : Text) (pinned : Pinned)
      → Costs is_request 1 (request u client size_limit_bytes headers hops current pinned)
  unfolding request
  request-Costs headers hops current pinned =
      Costs-bind is_request 1 0 _ _
        (stream-Costs pinned.url (dict_set (codes "Host") pinned.hostname headers) pinned.hostname)
        (λ response.
          Costs-Quiet is_request _
            (on_response-Quiet u client size_limit_bytes hops current response))

  turn-Costs :
      (headers : Dict) (hops : ℕ) (current : Text)
      → Costs is_request 1 (turn u client size_limit_bytes headers hops current)
  unfolding turn
  turn-Costs headers hops current =
      Costs-bind is_request 0 1 _ _
        (Costs-Quiet is_request _ (pin-Quiet u client size_limit_bytes current))
        (λ pinned.
          Costs-try is_request 1 (request u client size_limit_bytes headers hops current pinned)
            (λ x. raise (translate u client size_limit_bytes current x))
            (request-Costs headers hops current pinned)
            (λ x. Costs-Quiet is_request _ (Quiet-lift (err _))))

  after_turn-Costs :
      (n : ℕ) (continue : Text → M BoundedFetchResult) (t : Turn)
      → ((url : Text) → Costs is_request n (continue url))
      → Costs is_request n (after_turn u client size_limit_bytes continue t)
  after_turn-Costs n continue (done result) h = record { run = λ w. omega arith }
  after_turn-Costs n continue (again url) h = h url

  turns-Costs :
      (headers : Dict) (left hops : ℕ) (current : Text)
      → Costs is_request left (turns u client size_limit_bytes headers left hops current)
  unfolding turns
  turns-Costs headers zero hops current = Costs-Quiet is_request _ (Quiet-lift (err _))
  turns-Costs headers (suc left) hops current =
      Costs-weaken is_request (1 + left) (suc left) (omega arith) (
        Costs-bind is_request 1 left _ _ (turn-Costs headers hops current) (λ t.
          after_turn-Costs left (λ url. turns u client size_limit_bytes headers left (suc hops) url)
            t (λ url. turns-Costs headers left (suc hops) url)))

  -- A bounded fetch makes at most six requests, whatever redirects the servers answer with.
  pub bounded_fetch_bound :
      (url user_agent : Text) (extra : Dict) (w : World)
      → count_if is_request (bounded_fetch u client size_limit_bytes url user_agent extra w).1.log
        ≤ 6 + count_if is_request w.log
  unfolding bounded_fetch
  bounded_fetch_bound url user_agent extra =
      (Costs-bind is_request 0 6 _ _ (Costs-Quiet is_request _ (canonicalize-Quiet u url true))
        (λ canonical. turns-Costs _ (suc max_redirects) 0 canonical.0)).run
