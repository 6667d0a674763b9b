-- ===== src/Http/Tests.antt =====
-- Examples for the URL checks and the HTTP client: a host that answers one redirect.
use agentic_analyst.Prelude.{
  ◌+◌, ◌≤◌, ◌≡◌, refl, Bool, true, false, [], ◌∷◌, ◌++◌, Option, none, some, Text, codes, text_eq,
  leb, All, if◌then◌else◌,
}
use agentic_analyst.Prelude.Counting.{count_if}
use agentic_analyst.Domain.Errors.{ok, Ensures}
use agentic_analyst.Store.Tables.{empty_db}
use agentic_analyst.Store.Session.{World}
use agentic_analyst.Http.Urls.{Address, UrlLibrary, ParsedUrl, found, resolve_validated_address}
use agentic_analyst.Http.Fetch.{HttpClient, Response, finished, read_bounded_body, bounded_fetch}
use agentic_analyst.Http.Addresses.{IsSafeAnswer, IsSafeRequest, resolve_validated_address-IsSafe}
use agentic_analyst.Http.Requests.{is_request, bounded_fetch-IsSafe, bounded_fetch_bound}
use agentic_analyst.Http.Bodies.{read_bounded_body_lem}

abbrev address : Bool → Address
address is_private = record {
  is_private = is_private;
  is_loopback = false;
  is_link_local = false;
  is_multicast = false;
  is_reserved = false;
  is_unspecified = false;
  version = 4;
}

abbrev parse_address : Text → Option Address
parse_address s =
    if text_eq s (codes "8.8.8.8")
    then some (address false)
    else if text_eq s (codes "10.0.0.1")
    then some (address true)
    else none

abbrev parsed_news : ParsedUrl
parsed_news = record {
  scheme = codes "https";
  username = none;
  password = none;
  hostname = some (codes "news.org");
  port = ok none;
  path = codes "/a";
  query = [];
}

abbrev pub library : UrlLibrary
library = record {
  urlparse = λ s. ok parsed_news;
  urlunparse = λ scheme netloc path query. scheme ++ (codes "://" ++ (netloc ++ path));
  urljoin = λ base location. location;
  parse_qsl = λ s. [];
  urlencode = λ pairs. [];
  lower = λ s. s;
  show = λ n. codes "n";
  sha256 = λ s. s;
  ip_address = parse_address;
  getaddrinfo = λ host n. found (codes "8.8.8.8" ∷ []);
}

abbrev client : HttpClient
client = record {
  stream = λ url headers name n. ok (record {
    status_code = if leb n 2 then 302 else 200;
    header = λ key. some (codes "/b");
    chunks = codes "ab" ∷ codes "c" ∷ [];
    ending = finished;
  });
}

abbrev pub start_world : World
start_world = record { db = empty_db; snapshot = none; tick = 0; log = [] }

resolve_validated_address-IsSafe_example :
    Ensures
      (IsSafeAnswer library)
      (resolve_validated_address library (codes "news.org") true start_world).0
resolve_validated_address-IsSafe_example =
    resolve_validated_address-IsSafe library (codes "news.org") start_world

bounded_fetch-IsSafe_example :
    All
      (IsSafeRequest library)
      (bounded_fetch library client 100
        (codes "https://news.org/a")
        (codes "agent")
        []
        start_world).1.log
bounded_fetch-IsSafe_example =
    bounded_fetch-IsSafe library client 100 (codes "https://news.org/a") (codes "agent") []
      start_world tt

bounded_fetch_bound_example :
    count_if is_request
      (bounded_fetch library client 100
        (codes "https://news.org/a")
        (codes "agent")
        []
        start_world).1.log
    ≤ 6 + count_if is_request start_world.log
bounded_fetch_bound_example =
    bounded_fetch_bound library client 100 (codes "https://news.org/a") (codes "agent") []
      start_world

read_bounded_body_lem_example :
    read_bounded_body library client 3 [] 0 (codes "ab" ∷ codes "c" ∷ []) finished
    ≡ ok (codes "abc")
read_bounded_body_lem_example = read_bounded_body_lem library client 3 (codes "ab" ∷ codes "c" ∷ [])

-- The redirect is followed, and the second response is read.
redirect_test :
    count_if is_request
      (bounded_fetch library client 100
        (codes "https://news.org/a")
        (codes "agent")
        []
        start_world).1.log
    ≡ 2
unfolding bounded_fetch text_eq agentic_analyst.Domain.Values.strip
    agentic_analyst.Http.Fetch.is_redirect
redirect_test = refl
