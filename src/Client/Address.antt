-- ===== src/Client/Address.antt =====
-- client/client.py: `_normalize_base_url` and `_host_header`. `urlparse` is an argument: the parts of a
-- URL, or nothing where it raises ValueError, as its result's property `port` may.
use vibe_voice_vendor.Base.{
  decimal, ℕ, ◌≡◌, ◌≢◌, refl, ap, sym, ◌∙◌, Bool, true, false, not, ◌&&◌, ◌||◌, Option, none, some,
  [], ◌∷◌, ◌++◌, Text, codes, text_eq, text_eq_iff, strip, starts_with, contains_char,
  if◌then◌else◌, arith, Result, ok, err, raise_if, ◌>>=◌, ◌>>◌, bind_passed, guard_passed,
}

-- The messages, in the order of the tests.
pub data UrlError : Type 0 where
  not_a_url not_https no_host_or_user_info ipv6_literal not_an_origin bad_port : UrlError

pub record ParsedUrl : Type 0 where
  pub scheme : Text
  pub hostname : Option Text
  pub username : Option Text
  pub password : Option Text
  pub port : Result UrlError (Option ℕ)
  pub path : Text
  pub query : Text
  pub fragment : Text

-- `bool` of an optional text
abbrev pub is_given : Option Text → Bool
is_given none = false
is_given (some []) = false
is_given (some (c ∷ t)) = true

-- The host with its port.
unfoldable pub authority : Text → Option ℕ → Text
authority host none = host
authority host (some port) = host ++ (b':' ∷ decimal port)

abbrev pub https_prefix : Text
https_prefix = codes "https://"

unfoldable pub check_host : Option Text → Result UrlError Text
check_host none = err no_host_or_user_info
check_host (some []) = err no_host_or_user_info
check_host (some (c ∷ t)) = ok (c ∷ t)

abbrev pub is_endpoint : ParsedUrl → Bool
is_endpoint url =
    not (text_eq url.path [] || text_eq url.path (codes "/"))
    || not (text_eq url.query [])
    || not (text_eq url.fragment [])

unfoldable pub check_url : ParsedUrl → Result UrlError Text
unfolding check_host authority
check_url url = do
  raise_if (not (text_eq url.scheme (codes "https"))) not_https
  host ← check_host url.hostname
  raise_if (is_given url.username || is_given url.password) no_host_or_user_info
  raise_if (contains_char b':' host) ipv6_literal
  raise_if (is_endpoint url) not_an_origin
  port ← url.port
  ok (https_prefix ++ authority host port)

unfoldable pub parsed_or_raise : Option ParsedUrl → Result UrlError ParsedUrl
parsed_or_raise none = err not_a_url
parsed_or_raise (some url) = ok url

unfoldable pub normalize_base_url : (Text → Option ParsedUrl) → Text → Result UrlError Text
unfolding parsed_or_raise check_url
normalize_base_url urlparse raw = do url ← parsed_or_raise (urlparse (strip raw)); check_url url

-- _host_header
unfoldable pub host_header : Text → Option ℕ → Text
unfolding authority
host_header host port =
    authority
      (if contains_char b':' host && not (starts_with host (codes "["))
        then (b'[' ∷ host) ++ codes "]"
        else host)
      port

-- The parts of an origin: what `urlparse` finds in the text that is printed of a host and a port.
abbrev pub origin : Text → Option ℕ → ParsedUrl
origin host port = record {
  scheme = codes "https";
  hostname = some host;
  username = none;
  password = none;
  port = ok port;
  path = [];
  query = [];
  fragment = [];
}

-- A URL that is accepted, as it was parsed.
pub record IsOrigin (url : ParsedUrl) (host : Text) (port : Option ℕ) : Type 0 where
  pub is_https : url.scheme ≡ codes "https"
  pub has_host : url.hostname ≡ some host
  pub non_empty : host ≢ []
  pub no_username : is_given url.username ≡ false
  pub no_password : is_given url.password ≡ false
  pub no_ipv6 : contains_char b':' host ≡ false
  pub no_path : (text_eq url.path [] || text_eq url.path (codes "/")) ≡ true
  pub no_query : url.query ≡ []
  pub no_fragment : url.fragment ≡ []
  pub has_port : url.port ≡ ok port

accepted_host :
    (o : Option Text) (host : Text) → check_host o ≡ ok host → (o ≡ some host) × (host ≢ [])
unfolding check_host
accepted_host none host h = ground arith
accepted_host (some []) host h = ground arith
accepted_host (some (c ∷ t)) host h = (ground arith, λ e. ground arith)

check_url_sound :
    (url : ParsedUrl) (result : Text)
    → check_url url ≡ ok result
    → (host : Text) × (port : Option ℕ) × IsOrigin url host port
      × (result ≡ https_prefix ++ authority host port)
unfolding check_url
check_url_sound url result h =
    let (secure, h1) =
      guard_passed (raise_if (not (text_eq url.scheme (codes "https"))) not_https) h in
    let (host, found, h2) = bind_passed (check_host url.hostname) h1 in
    let (named, non_empty) = accepted_host url.hostname host found in
    let (anonymous, h3) =
      guard_passed (raise_if (is_given url.username || is_given url.password) no_host_or_user_info)
        h2 in
    let (v4, h4) = guard_passed (raise_if (contains_char b':' host) ipv6_literal) h3 in
    let (plain, h5) = guard_passed (raise_if (is_endpoint url) not_an_origin) h4 in
    let (port, read, h6) = bind_passed url.port h5 in
    (
      host,
      port,
      record {
        is_https = ground (arith, text_eq_iff url.scheme (codes "https"));
        has_host = named;
        non_empty = non_empty;
        no_username = ground arith;
        no_password = ground arith;
        no_ipv6 = ground arith;
        no_path = ground arith;
        no_query = ground (arith, text_eq_iff url.query []);
        no_fragment = ground (arith, text_eq_iff url.fragment []);
        has_port = read;
      },
      ground arith,
    )

check_host_complete : (host : Text) → host ≢ [] → check_host (some host) ≡ ok host
unfolding check_host
check_host_complete [] n = absurd (n refl)
check_host_complete (c ∷ t) n = refl

check_url_complete :
    (url : ParsedUrl) (host : Text) (port : Option ℕ)
    → IsOrigin url host port
    → check_url url ≡ ok (https_prefix ++ authority host port)
unfolding check_url
check_url_complete url host port w = ground (
  arith,
  ap check_host w.has_host,
  check_host_complete host w.non_empty,
  w.has_port,
  text_eq_iff url.scheme (codes "https"),
  text_eq_iff url.query [],
  text_eq_iff url.fragment [],
)

origin-IsOrigin :
    (url : ParsedUrl) (host : Text) (port : Option ℕ)
    → IsOrigin url host port
    → IsOrigin (origin host port) host port
unfolding text_eq
origin-IsOrigin url host port w = record {
  is_https = refl;
  has_host = refl;
  non_empty = w.non_empty;
  no_username = refl;
  no_password = refl;
  no_ipv6 = w.no_ipv6;
  no_path = refl;
  no_query = refl;
  no_fragment = refl;
  has_port = refl;
}

pub parsed_inversion :
    (o : Option ParsedUrl) (url : ParsedUrl) → parsed_or_raise o ≡ ok url → o ≡ some url
unfolding parsed_or_raise
parsed_inversion none url h = ground arith
parsed_inversion (some u) url h = ground arith

pub normalize_base_url-IsOrigin :
    (urlparse : Text → Option ParsedUrl) (raw result : Text)
    → normalize_base_url urlparse raw ≡ ok result
    → (url : ParsedUrl) × (host : Text) × (port : Option ℕ) × (urlparse (strip raw) ≡ some url)
      × IsOrigin url host port
      × (result ≡ https_prefix ++ authority host port)
unfolding normalize_base_url
normalize_base_url-IsOrigin urlparse raw result h =
    let (url, read, h1) = bind_passed (parsed_or_raise (urlparse (strip raw))) h in
    let (host, port, is_origin, same) = check_url_sound url result h1 in
    (url, host, port, parsed_inversion (urlparse (strip raw)) url read, is_origin, same)

-- A URL that is accepted is an HTTPS origin: a host that is no IPv6 literal, no user info, no path but
-- "/", no query and no fragment; the result is "https://", the host and the port, if one was given;
-- and the result is accepted in turn, as it is. It is assumed that `urlparse` finds the host and the
-- port in such a text, for any host and port that it has found in another.
pub normalize_base_url_twice :
    (urlparse : Text → Option ParsedUrl)
    → ((raw : Text) (url : ParsedUrl) (host : Text) (port : Option ℕ)
        → urlparse raw ≡ some url
        → IsOrigin url host port
        → urlparse (strip (https_prefix ++ authority host port)) ≡ some (origin host port))
    → (raw result : Text) → normalize_base_url urlparse raw ≡ ok result
    → (url : ParsedUrl) × (host : Text) × (port : Option ℕ) × (urlparse (strip raw) ≡ some url)
      × IsOrigin url host port
      × (result ≡ https_prefix ++ authority host port)
      × (normalize_base_url urlparse result ≡ ok result)
unfolding normalize_base_url
normalize_base_url_twice urlparse finds raw result h =
    let (url, host, port, parsed, is_origin, same) =
      normalize_base_url-IsOrigin urlparse raw result h in
    let again : urlparse (strip result) ≡ some (origin host port) =
      ap (λ t. urlparse (strip t)) same ∙ finds (strip raw) url host port parsed is_origin in
    let accepted : check_url (origin host port) ≡ ok result =
      check_url_complete (origin host port) host port (origin-IsOrigin url host port is_origin)
      ∙ ap ok (sym same) in
    (url, host, port, parsed, is_origin, same, rw again (unfold parsed_or_raise in accepted))
