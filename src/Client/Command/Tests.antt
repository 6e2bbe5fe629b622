-- ===== src/Client/Command/Tests.antt =====
-- The command line of an upload, and the theorem of Client/Command at it.
use vibe_voice_vendor.Base.{
  ◌≡◌, refl, true, none, ◌++◌, codes, Text, text_eq, strip, starts_with, not, ok, err,
}
use vibe_voice_vendor.Wav.Metadata.{path_name, suffix}
use vibe_voice_vendor.Client.Address.{
  check_url, authority, parsed_or_raise, normalize_base_url, host_header,
}
use vibe_voice_vendor.Client.Pin.{pin_prefix, decoded_or_raise, normalize_server_pin}
use vibe_voice_vendor.Client.Tests.{one_url, one_url-found, zeros, plain_pins}
use vibe_voice_vendor.Client.Command.{
  Arguments, transcribe, no_client_key, no_audio_file, not_wav, Endpoint, Machine, run_command,
}
use vibe_voice_vendor.Client.Command.Endpoints.{Reaches, run_command-Reaches}

-- Every path is there but one.
abbrev machine : Machine
machine = record {
  exists = λ path. not (text_eq path (codes "no.wav"));
  loads = λ cert. true;
  urlparse = one_url;
  pins = plain_pins;
}

abbrev upload_of : Text → Arguments
upload_of file = record {
  server = codes " https://h";
  server_pin = pin_prefix ++ zeros;
  client_cert = codes "c.pem";
  client_key = codes "k.pem";
  command = transcribe file none;
}

abbrev endpoint : Endpoint
endpoint = record { host = codes "h"; port = 443; expected_pin = pin_prefix ++ zeros }

commands :
    (run_command machine (upload_of (codes "a.wav")) ≡ ok (endpoint, codes "h"))
    × (run_command machine (upload_of (codes "no.wav")) ≡ err no_audio_file)
    × (run_command machine (upload_of (codes "a.mp3")) ≡ err not_wav)
    × (run_command machine (record (upload_of (codes "a.wav")) { client_key = codes "no.wav" })
        ≡ err no_client_key)
unfolding run_command normalize_base_url normalize_server_pin host_header check_url parsed_or_raise
    decoded_or_raise authority path_name suffix text_eq strip starts_with
commands = (refl, refl, refl, refl)

run_command-Reaches_example : Reaches machine (upload_of (codes "a.wav")) endpoint (codes "h")
run_command-Reaches_example =
    run_command-Reaches machine (upload_of (codes "a.wav")) endpoint (codes "h") one_url-found
      (λ bytes. refl) commands.0
