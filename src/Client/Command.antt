-- ===== src/Client/Command.antt =====
-- client/cli.py: `main` from the parsed arguments to the first request; and what the request goes to
-- (`VibevoiceClient` of client/client.py). Which paths exist, and which certificate and key
-- `load_cert_chain` takes, are arguments. The output file opens.
pub mod Endpoints
mod Tests
use vibe_voice_vendor.Base.{
  ℕ, zero, suc, Bool, true, false, not, Option, none, some, List, [], ◌∷◌, Text, codes, text_eq,
  Result, ok, err, raise_if, map_error, ◌>>=◌, ◌>>◌,
}
use vibe_voice_vendor.Wav.Metadata.{wav_suffix, path_name, suffix}
use vibe_voice_vendor.Client.Address.{
  ParsedUrl, UrlError, parsed_or_raise, normalize_base_url, host_header,
}
use vibe_voice_vendor.Client.Pin.{PinLibrary, PinError, normalize_server_pin}

-- The file and its hotwords; the command status.
pub data Command : Type 0 where
  transcribe : Text → Option Text → Command
  status : Command

pub record Arguments : Type 0 where
  pub server : Text
  pub server_pin : Text
  pub client_cert : Text
  pub client_key : Text
  pub command : Command

-- The first three are `sys.exit(1)`; the others are exceptions that nothing catches.
pub data CommandError : Type 0 where
  no_client_cert no_client_key no_audio_file not_wav bad_chain : CommandError
  bad_url : UrlError → CommandError
  bad_pin : PinError → CommandError

pub record VibevoiceClient : Type 0 where
  pub base_url : Text
  pub url : ParsedUrl
  pub server_pin : Text
  pub cert : Text × Text

-- What a `_PinnedHTTPSConnection` is made with.
pub record Endpoint : Type 0 where
  pub host : Text
  pub port : ℕ
  pub expected_pin : Text

-- `hostname or ""`
abbrev pub host_or_empty : Option Text → Text
host_or_empty none = []
host_or_empty (some host) = host

-- `port or 443`
abbrev pub port_or_443 : Option ℕ → ℕ
port_or_443 none = 443
port_or_443 (some zero) = 443
port_or_443 (some (suc n)) = suc n

-- _headers, without "Connection: close"
unfoldable pub headers : VibevoiceClient → Result UrlError Text
headers c = do port ← c.url.port; ok (host_header (host_or_empty c.url.hostname) port)

-- _connection
unfoldable pub connection : VibevoiceClient → Result UrlError Endpoint
connection c = do
  port ← c.url.port
  ok (record {
    host = host_or_empty c.url.hostname;
    port = port_or_443 port;
    expected_pin = c.server_pin;
  })

-- Where a request goes, and its header Host.
unfoldable pub request_of : VibevoiceClient → Result UrlError (Endpoint × Text)
unfolding headers connection
request_of c = do endpoint ← connection c; host ← headers c; ok (endpoint, host)

-- What the machine has: the files, and what `load_cert_chain` takes.
pub record Machine : Type 0 where
  pub exists : Text → Bool
  pub loads : Text × Text → Bool
  pub urlparse : Text → Option ParsedUrl
  pub pins : PinLibrary

unfoldable pub new_client :
    Machine → Text → Text → Text × Text → Result CommandError VibevoiceClient
new_client m raw_url raw_pin cert = do
  base_url ← map_error bad_url (normalize_base_url m.urlparse raw_url)
  url ← map_error bad_url (parsed_or_raise (m.urlparse base_url))
  pin ← map_error bad_pin (normalize_server_pin m.pins raw_pin)
  raise_if (not (m.loads cert)) bad_chain
  ok (record { base_url = base_url; url = url; server_pin = pin; cert = cert })

-- The test of the file in `main`, and _validate_wav_path.
unfoldable pub check_command : Machine → Command → Result CommandError (Unit {0})
check_command m status = ok tt
check_command m (transcribe file hotwords) = do
  raise_if (not (m.exists file)) no_audio_file
  raise_if (not (text_eq (suffix (path_name file)) wav_suffix)) not_wav

unfoldable pub run_command : Machine → Arguments → Result CommandError (Endpoint × Text)
unfolding new_client check_command request_of
run_command m args = do
  raise_if (not (m.exists args.client_cert)) no_client_cert
  raise_if (not (m.exists args.client_key)) no_client_key
  client ← new_client m args.server args.server_pin (args.client_cert, args.client_key)
  check_command m args.command
  map_error bad_url (request_of client)
