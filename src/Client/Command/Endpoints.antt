-- ===== src/Client/Command/Endpoints.antt =====
-- Whom a command talks to.
use vibe_voice_vendor.Base.{
  none, ◌∷◌, zero, suc, ◌<◌, ◌⊎◌, inl, inr, subst, decimal, contains_char, ℕ, ◌≡◌, refl, ap, sym,
  ◌∙◌, ◌↔◌, Bool, true, false, not, Option, some, ◌++◌, drop, Text, text_eq_iff, strip, Result, ok,
  raise_if, map_error, map_error_passed, bind_passed, guard_passed, arith,
}
use mathlib.Core.Option.{some-injective}
use vibe_voice_vendor.Wav.Metadata.{wav_suffix, path_name, suffix}
use vibe_voice_vendor.Client.Address.{
  ParsedUrl, UrlError, authority, https_prefix, parsed_or_raise, parsed_inversion,
  normalize_base_url, host_header, origin, IsOrigin, normalize_base_url-IsOrigin,
}
use vibe_voice_vendor.Client.Pin.{
  normalize_server_pin, check_certificate, Presents, check_certificate-ok_iff,
}
use vibe_voice_vendor.Client.Command.{
  Command, transcribe, status, Arguments, CommandError, no_client_cert, no_client_key, bad_chain,
  bad_url, bad_pin, VibevoiceClient, Endpoint, port_or_443, request_of, Machine, new_client,
  check_command, run_command,
}

-- The file of the command `transcribe` is there and has the suffix.
abbrev pub IsReady : Machine → Command → Type 0
IsReady m status = Unit {0}
IsReady m (transcribe file hotwords) =
    (m.exists file ≡ true) × (suffix (path_name file) ≡ wav_suffix)

-- The port of the connection, for that of the URL.
abbrev pub ConnectsTo : Option ℕ → ℕ → Type 0
ConnectsTo none port = port ≡ 443
ConnectsTo (some given) port = ((given ≡ 0) × (port ≡ 443)) ⊎ ((0 < given) × (port ≡ given))

-- The header Host: the host, and the port of the URL if it has one.
abbrev pub NamesHost : Text → Option ℕ → Text → Type 0
NamesHost host none line = line ≡ host
NamesHost host (some given) line = line ≡ host ++ (b':' ∷ decimal given)

port_or_443-ConnectsTo : (port : Option ℕ) → ConnectsTo port (port_or_443 port)
port_or_443-ConnectsTo none = refl
port_or_443-ConnectsTo (some zero) = inl (refl, refl)
port_or_443-ConnectsTo (some (suc n)) = inr (omega arith, refl)

host_header-NamesHost :
    (host : Text) (port : Option ℕ)
    → contains_char b':' host ≡ false
    → NamesHost host port (host_header host port)
unfolding host_header authority
host_header-NamesHost host none h = rw h refl
host_header-NamesHost host (some given) h = rw h refl

-- The request of a command that got as far as that.
pub record Reaches (m : Machine) (args : Arguments) (endpoint : Endpoint) (host_line : Text)
    : Type 0 where
  pub has_cert : m.exists args.client_cert ≡ true
  pub has_key : m.exists args.client_key ≡ true
  pub loaded : m.loads (args.client_cert, args.client_key) ≡ true
  pub ready : IsReady m args.command
  pub url : ParsedUrl
  pub host : Text
  pub port : Option ℕ
  pub parsed : m.urlparse (strip args.server) ≡ some url
  pub is_origin : IsOrigin url host port
  pub to_endpoint : endpoint.host ≡ host
  pub to_port : ConnectsTo port endpoint.port
  pub with_host : NamesHost host port host_line
  pub pinned :
      (presented : Option Text)
      → (hash : Text) × (m.pins.b64decode (drop 7 (strip args.server_pin)) ≡ some hash)
        × ((check_certificate m.pins endpoint.expected_pin presented ≡ ok tt)
            ↔ Presents m.pins hash presented)

check_command-IsReady :
    (m : Machine) (command : Command) → check_command m command ≡ ok tt → IsReady m command
unfolding check_command
check_command-IsReady m status h = tt
check_command-IsReady m (transcribe file hotwords) h =
    ground (arith, text_eq_iff (suffix (path_name file)) wav_suffix)

-- A client, by the parts of its URL.
record IsClient (m : Machine) (args : Arguments) (c : VibevoiceClient) : Type 0 where
  loaded : m.loads (args.client_cert, args.client_key) ≡ true
  url : ParsedUrl
  host : Text
  port : Option ℕ
  parsed : m.urlparse (strip args.server) ≡ some url
  is_origin : IsOrigin url host port
  same_url : c.url ≡ origin host port
  pin_taken : normalize_server_pin m.pins args.server_pin ≡ ok c.server_pin

-- `urlparse` finds the host and the port in the text that is printed of them, for any that it has found
-- in another text.
abbrev pub FindsOrigins : (Text → Option ParsedUrl) → Type 0
FindsOrigins urlparse =
    (raw : Text) (url : ParsedUrl) (host : Text) (port : Option ℕ)
    → urlparse raw ≡ some url
    → IsOrigin url host port
    → urlparse (https_prefix ++ authority host port) ≡ some (origin host port)

ok_injective :
    (a b : VibevoiceClient) → ◌≡◌ {A = Result CommandError VibevoiceClient} (ok a) (ok b) → a ≡ b
ok_injective a b h = ground arith

built-IsClient :
    (m : Machine) (args : Arguments) (c : VibevoiceClient) (base : Text) (again : ParsedUrl)
    (pin : Text) (url : ParsedUrl) (host : Text) (port : Option ℕ)
    → m.urlparse (strip args.server) ≡ some url
    → IsOrigin url host port
    → again ≡ origin host port
    → normalize_server_pin m.pins args.server_pin ≡ ok pin
    → m.loads (args.client_cert, args.client_key) ≡ true
    → record {
      base_url = base;
      url = again;
      server_pin = pin;
      cert = (args.client_cert, args.client_key);
    }
      ≡ c
    → IsClient m args c
built-IsClient m args c base again pin url host port parsed is_origin same taken loads e = record {
  loaded = loads;
  url = url;
  host = host;
  port = port;
  parsed = parsed;
  is_origin = is_origin;
  same_url = ap (λ (v : VibevoiceClient). v.url) (sym e) ∙ same;
  pin_taken = taken ∙ ap (λ (v : VibevoiceClient). ok v.server_pin) e;
}

not_refused : (b : Bool) (e : CommandError) → raise_if (not b) e ≡ ok tt → b ≡ true
not_refused true e h = refl
not_refused false e h = ground arith

new_client-IsClient :
    (m : Machine) (args : Arguments) (c : VibevoiceClient)
    → FindsOrigins m.urlparse
    → new_client m args.server args.server_pin (args.client_cert, args.client_key) ≡ ok c
    → IsClient m args c
unfolding new_client
new_client-IsClient m args c finds h =
    let (base, e1, h1) =
      bind_passed (map_error bad_url (normalize_base_url m.urlparse args.server)) h in
    let (again, e2, h2) = bind_passed (map_error bad_url (parsed_or_raise (m.urlparse base))) h1 in
    let (pin, e3, h3) =
      bind_passed (map_error bad_pin (normalize_server_pin m.pins args.server_pin)) h2 in
    let (loads, h4) =
      guard_passed (raise_if (not (m.loads (args.client_cert, args.client_key))) bad_chain) h3 in
    let (url, host, port, parsed, is_origin, same) =
      normalize_base_url-IsOrigin m.urlparse args.server base (map_error_passed bad_url _ e1) in
    let read_again : m.urlparse base ≡ some again =
      parsed_inversion (m.urlparse base) again (map_error_passed bad_url _ e2) in
    let found : m.urlparse base ≡ some (origin host port) =
      ap m.urlparse same ∙ finds (strip args.server) url host port parsed is_origin in
    built-IsClient m args c base again pin url host port parsed is_origin
      (some-injective again (origin host port) (sym read_again ∙ found))
      (map_error_passed bad_pin _ e3)
      (not_refused (m.loads (args.client_cert, args.client_key)) bad_chain loads)
      (ok_injective _ c h4)

request_of-origin :
    (c : VibevoiceClient) (url : ParsedUrl) (host : Text) (port : Option ℕ)
    → c.url ≡ url
    → url ≡ origin host port
    → request_of c
      ≡ ok (
        record { host = host; port = port_or_443 port; expected_pin = c.server_pin },
        host_header host port,
      )
unfolding request_of
request_of-origin c url host port e o = rw (e, o) refl

request_injective :
    (a b : Endpoint × Text) → ◌≡◌ {A = Result UrlError (Endpoint × Text)} (ok a) (ok b) → a ≡ b
request_injective a b h = ground arith

request_of-Reaches :
    (m : Machine) (args : Arguments) (c : VibevoiceClient) (endpoint : Endpoint) (host_line : Text)
    → ((bytes : Text) → m.pins.b64decode (m.pins.b64encode bytes) ≡ some bytes)
    → IsClient m args c
    → m.exists args.client_cert ≡ true
    → m.exists args.client_key ≡ true
    → IsReady m args.command
    → request_of c ≡ ok (endpoint, host_line)
    → Reaches m args endpoint host_line
request_of-Reaches m args c endpoint host_line laws w has_cert has_key ready h =
    let sent : ◌≡◌ {A = Endpoint × Text}
        (
          record { host = w.host; port = port_or_443 w.port; expected_pin = c.server_pin },
          host_header w.host w.port,
        )
        (endpoint, host_line) =
      request_injective _ _ (sym (request_of-origin c c.url w.host w.port refl w.same_url) ∙ h) in
    let pin : normalize_server_pin m.pins args.server_pin ≡ ok endpoint.expected_pin =
      w.pin_taken ∙ ap (λ (p : Endpoint × Text). ok p.0.expected_pin) sent in
    let pinned = check_certificate-ok_iff m.pins laws args.server_pin endpoint.expected_pin pin in
    record {
      has_cert = has_cert;
      has_key = has_key;
      loaded = w.loaded;
      ready = ready;
      url = w.url;
      host = w.host;
      port = w.port;
      parsed = w.parsed;
      is_origin = w.is_origin;
      to_endpoint = ap (λ (p : Endpoint × Text). p.0.host) (sym sent);
      to_port =
          subst (λ (p : Endpoint × Text). ConnectsTo w.port p.0.port) sent
            (port_or_443-ConnectsTo w.port);
      with_host =
          subst (λ (p : Endpoint × Text). NamesHost w.host w.port p.1) sent
            (host_header-NamesHost w.host w.port w.is_origin.no_ipv6);
      pinned = pinned;
    }

-- A command that sends a request: its certificate and key are there and can be loaded, and so is the
-- file of an upload, with the suffix .wav. The request goes to the host of the URL that was given, an HTTPS
-- origin, and to its port, or to port 443 if it has none or has port 0; the header Host names the
-- host and the port as they were given, port 0 too. The connection is used exactly if the server presents a
-- readable certificate whose key has the hash that the given pin encodes. It is assumed that base64
-- decodes what it encodes, and that `urlparse` finds the host and the port in an origin that is printed of
-- them.
pub run_command-Reaches :
    (m : Machine) (args : Arguments) (endpoint : Endpoint) (host_line : Text)
    → FindsOrigins m.urlparse
    → ((bytes : Text) → m.pins.b64decode (m.pins.b64encode bytes) ≡ some bytes)
    → run_command m args ≡ ok (endpoint, host_line)
    → Reaches m args endpoint host_line
unfolding run_command
run_command-Reaches m args endpoint host_line finds laws h =
    let (has_cert, h1) =
      guard_passed (raise_if (not (m.exists args.client_cert)) no_client_cert) h in
    let (has_key, h2) = guard_passed (raise_if (not (m.exists args.client_key)) no_client_key) h1 in
    let (client, made, h3) =
      bind_passed (new_client m args.server args.server_pin (args.client_cert, args.client_key))
        h2 in
    let (ready, h4) = guard_passed (check_command m args.command) h3 in
    request_of-Reaches m args client endpoint host_line laws
      (new_client-IsClient m args client finds made)
      (not_refused (m.exists args.client_cert) no_client_cert has_cert)
      (not_refused (m.exists args.client_key) no_client_key has_key)
      (check_command-IsReady m args.command ready) (map_error_passed bad_url (request_of client) h4)
