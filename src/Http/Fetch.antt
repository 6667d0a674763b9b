-- ===== src/Http/Fetch.antt =====
-- ingestion/bounded_http.py. The HTTP client, which opens a connection and streams the body, is a
-- parameter: its exceptions are `http_timeout`, `http_network` and others.
use agentic_analyst.Prelude.{
  ℕ, zero, suc, ◌+◌, Bool, true, ◌||◌, List, [], ◌∷◌, ◌++◌, Option, none, some, Text, codes,
  text_eq, length, ltb, leb, ◌==◌, if◌then◌else◌,
}
use agentic_analyst.Domain.Errors.{
  Error, Result, ok, err, assertion_error, too_many_redirects, response_too_large, fetch_timeout,
  fetch_network, http_timeout, http_network,
}
use agentic_analyst.Store.Session.{
  M, pure, raise, ask, lift, emit, http_requested, try_except, ◌>>=◌, ◌>>◌,
}
use agentic_analyst.Http.Urls.{
  UrlLibrary, ParsedUrl, Address, resolve_validated_address, canonicalize_url,
}

-- A dict of texts, in the order of its keys' first insertion.
abbrev pub Dict : Type 0
Dict = List (Text × Text)

abbrev pub dict_get : Text → Dict → Option Text
dict_get key [] = none
dict_get key (entry ∷ d) = if text_eq entry.0 key then some entry.1 else dict_get key d

abbrev pub dict_set : Text → Text → Dict → Dict
dict_set key value [] = (key, value) ∷ []
dict_set key value (entry ∷ d) =
    let rest = dict_set key value d in
    if text_eq entry.0 key then (key, value) ∷ d else entry ∷ rest

-- How a stream of chunks ends.
pub data Ending : Type 0 where
  finished : Ending
  interrupted : Error → Ending

pub record Response : Type 0 where
  pub status_code : ℕ
  -- `response.headers.get(name)`
  pub header : Text → Option Text
  pub chunks : List Text
  pub ending : Ending

pub record BoundedFetchResult : Type 0 where
  pub status_code : ℕ
  pub headers : Dict
  pub body : Text
  pub final_url : Text

-- The HTTP client: the answer to a GET of a URL under these headers and this server name.
pub record HttpClient : Type 0 where
  pub stream : Text → Dict → Text → ℕ → Result Response

abbrev pub max_redirects : ℕ
max_redirects = 5

-- `status_code in _REDIRECT_STATUS_CODES`
unfoldable pub is_redirect : ℕ → Bool
is_redirect code = code == 301 || code == 302 || code == 303 || code == 307 || code == 308

abbrev pub keep_header : Text → Option Text → Dict → Dict
keep_header name none d = d
keep_header name (some value) d = dict_set name value d

-- `_filter_response_headers`
unfoldable pub filter_response_headers : (Text → Option Text) → Dict
filter_response_headers header =
    let type = keep_header (codes "content-type") (header (codes "content-type")) [] in
    let etag = keep_header (codes "etag") (header (codes "etag")) type in
    keep_header (codes "last-modified") (header (codes "last-modified")) etag

abbrev pub dict_update : Dict → Dict → Dict
dict_update d [] = d
dict_update d (entry ∷ more) = dict_update (dict_set entry.0 entry.1 d) more

-- `_build_request_headers`
abbrev pub build_request_headers : Text → Dict → Dict
build_request_headers user_agent extra = dict_update ((codes "User-Agent", user_agent) ∷ []) extra

abbrev pub ended : Text → Ending → Result Text
ended body finished = ok body
ended body (interrupted x) = err x

-- The result of `_pin_to_validated_address`.
pub record Pinned : Type 0 where
  pub url : Text
  pub hostname : Text

-- What one turn of the loop gives: the next URL, or the result.
pub data Turn : Type 0 where
  again : Text → Turn
  done : BoundedFetchResult → Turn

module _ (u : UrlLibrary) (client : HttpClient) (size_limit_bytes : ℕ) where
  -- `_read_bounded_body`, behind `total` bytes that are kept in `body`
  unfoldable pub read_bounded_body : Text → ℕ → List Text → Ending → Result Text
  read_bounded_body body total [] ending = ended body ending
  read_bounded_body body total (chunk ∷ chunks) ending =
      let total = total + length chunk in
      let rest = read_bounded_body (body ++ chunk) total chunks ending in
      if ltb size_limit_bytes total
      then err (
          response_too_large (
            codes "response body exceeds size limit of "
            ++ (u.show size_limit_bytes ++ codes " bytes")))
      else rest

  abbrev pub pin_host : Text → Option Address → Text
  pin_host ip none = ip
  pin_host ip (some a) = if a.version == 6 then codes "[" ++ (ip ++ codes "]") else ip

  abbrev pub pinned_netloc : Text → Option ℕ → Text
  pinned_netloc host none = host
  pinned_netloc host (some port) = host ++ (codes ":" ++ u.show port)

  abbrev pub pin_to : ParsedUrl → Text → Option Text → M Pinned
  pin_to parsed hostname none = raise assertion_error
  pin_to parsed hostname (some ip) = lift parsed.port >>= λ port.
      let netloc = pinned_netloc (pin_host ip (u.ip_address ip)) port in
      pure (record {
        url = u.urlunparse parsed.scheme netloc parsed.path parsed.query;
        hostname = hostname;
      })

  abbrev pub pin_parsed : ParsedUrl → Option Text → M Pinned
  pin_parsed parsed none = raise assertion_error
  pin_parsed parsed (some hostname) =
      resolve_validated_address u hostname true >>= pin_to parsed hostname

  -- `_pin_to_validated_address`
  unfoldable pub pin_to_validated_address : Text → M Pinned
  unfolding resolve_validated_address
  pin_to_validated_address url =
      lift (u.urlparse url) >>= λ parsed. pin_parsed parsed parsed.hostname

  -- A redirect: the new URL is validated before the count of the hops is.
  abbrev pub follow : ℕ → Text → Option Text → M Turn
  follow hops current none =
      raise (fetch_network (codes "redirect response missing Location header for " ++ current))
  follow hops current (some location) =
      canonicalize_url u (u.urljoin current location) true >>= λ canonical.
      if leb max_redirects hops
      then raise (too_many_redirects (codes "exceeded maximum redirect hops (5)"))
      else pure (again canonical.0)

  abbrev pub on_response : ℕ → Text → Response → M Turn
  on_response hops current response =
      if is_redirect response.status_code
      then follow hops current (response.header (codes "location"))
      else (lift (read_bounded_body [] 0 response.chunks response.ending) >>= λ body. pure (
          done (record {
            status_code = response.status_code;
            headers = filter_response_headers response.header;
            body = body;
            final_url = current;
          })))

  -- The `except` clauses.
  abbrev pub translate : Text → Error → Error
  translate current http_timeout = fetch_timeout (codes "request timed out for " ++ current)
  translate current http_network = fetch_network (codes "network error fetching " ++ current)
  translate current x = x

  -- `client.stream("GET", url, ...)`: the log has the URL that is handed to the client.
  abbrev pub stream : Text → Dict → Text → M Response
  stream url headers sni_hostname =
      emit (http_requested url) >> ask (client.stream url headers sni_hostname)

  -- The body of the `try` statement: the request goes out, and its response is read.
  unfoldable pub request : Dict → ℕ → Text → Pinned → M Turn
  unfolding canonicalize_url read_bounded_body ask
  request headers hops current pinned =
      stream pinned.url (dict_set (codes "Host") pinned.hostname headers) pinned.hostname
      >>= on_response hops current

  -- One turn of the loop.
  unfoldable pub turn : Dict → ℕ → Text → M Turn
  unfolding pin_to_validated_address request
  turn headers hops current = pin_to_validated_address current >>= λ pinned.
      try_except (request headers hops current pinned) (λ x. raise (translate current x))

  abbrev pub after_turn : (Text → M BoundedFetchResult) → Turn → M BoundedFetchResult
  after_turn continue (done result) = pure result
  after_turn continue (again url) = continue url

  -- The loop, with the number of turns that are left and of those that are done.
  unfoldable pub turns : Dict → ℕ → ℕ → Text → M BoundedFetchResult
  unfolding turn
  turns headers zero hops current =
      raise (too_many_redirects (codes "exceeded maximum redirect hops (5)"))
  turns headers (suc left) hops current =
      turn headers hops current >>= after_turn (λ url. turns headers left (suc hops) url)

  unfoldable pub bounded_fetch : Text → Text → Dict → M BoundedFetchResult
  unfolding turns canonicalize_url
  bounded_fetch url user_agent extra = canonicalize_url u url true >>= λ canonical.
      turns (build_request_headers user_agent extra) (suc max_redirects) 0 canonical.0
