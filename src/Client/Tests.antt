-- ===== src/Client/Tests.antt =====
-- A small JSON library that has the laws, responses in it, and the theorems of Client at them.
use vibe_voice_vendor.Base.{
  ℕ, ◌+◌, ◌-◌, ◌≡◌, refl, not, true, Option, none, some, List, [], ◌∷◌, ◌++◌, Text, codes, text_eq,
  starts_with, ◌==◌, arith, if◌then◌else◌, All, Fraction, strip, ok, drop, sym, ap, ◌∙◌, ◌↔◌,
}
use vibe_voice_vendor.Wav.Metadata.{suffix}
use vibe_voice_vendor.Client.Address.{ParsedUrl, https_prefix, authority, origin, IsOrigin}
use vibe_voice_vendor.Client.Pin.{
  PinLibrary, pin_prefix, decoded_or_raise, normalize_server_pin, check_certificate, Presents,
  check_certificate-ok_iff,
}
use vibe_voice_vendor.Client.Multipart.{multipart_body}
use vibe_voice_vendor.Client.Multipart.Sent.{IsUpload, multipart_body-IsUpload}
use vibe_voice_vendor.Client.Terminal.{transcribe_command, shown, transcribe_command-shown}
use mathlib.Core.Option.{some-injective}
use vibe_voice_vendor.Models.{completed, failed}
use vibe_voice_vendor.Json.{
  Payload, queue_payload, chunk_payload, error_payload, done_payload, FieldValue, string, integer,
  real, other_value, Object, JsonLibrary, object_of, IsPlain, IsJson,
}
use vibe_voice_vendor.Queue.{TranscriptionJob, new_job}
use vibe_voice_vendor.Stream.{
  named_frame, data_frame, comment_frame, Poll, gone, idle, item, event_stream, first_frame,
  stream_from, last_frames,
}
use vibe_voice_vendor.Client.{
  receive, read_lines, rstrip_eol, raw_lines, step, put_step, on_payload, after_event, event_of,
  member, key_error,
}
use vibe_voice_vendor.Client.RoundTrip.{response_text}
use vibe_voice_vendor.Client.EndToEnd.{place_events, stream_events, finishes, receive-event_stream}

-- Every code is moved above the line ends.
abbrev raise_codes : Text → Text
raise_codes [] = []
raise_codes (c ∷ s) = (c + 14) ∷ raise_codes s

abbrev lower_codes : Text → Text
lower_codes [] = []
lower_codes (c ∷ s) = (c - 14) ∷ lower_codes s

abbrev print : Payload → Text
print (queue_payload e) =
    103
    ∷ raise_codes
        (e.job_id ∷ e.position ∷ e.estimated_wait_seconds.num ∷ e.estimated_wait_seconds.den ∷ [])
print (chunk_payload t) = 100 ∷ raise_codes t
print (error_payload t) = 101 ∷ raise_codes t
print (done_payload id) = 102 ∷ raise_codes (id ∷ [])

abbrev queue_object : Text → Option Object
queue_object (id ∷ n ∷ a ∷ b ∷ []) = some (
    (codes "job_id", string (id ∷ []))
    ∷ (codes "position", integer n)
    ∷ (codes "estimated_wait_seconds", real (record { num = a; den = b }))
    ∷ [])
queue_object _ = none

abbrev parse : Text → Option Object
parse [] = none
parse (c ∷ s) =
    if c == 100
    then some ((codes "text", string (lower_codes s)) ∷ [])
    else if c == 101
    then some ((codes "error", string (lower_codes s)) ∷ [])
    else if c == 102
    then some ((codes "job_id", string (lower_codes s)) ∷ [])
    else if c == 103
    then queue_object (lower_codes s)
    else none

abbrev text_of_value : FieldValue → Text
text_of_value (string t) = t
text_of_value (other_value t) = t
text_of_value _ = []

abbrev int_of_value : FieldValue → Option ℕ
int_of_value (integer n) = some n
int_of_value _ = none

abbrev float_of_value : FieldValue → Option Fraction
float_of_value (real x) = some x
float_of_value _ = none

abbrev small_json : JsonLibrary
small_json = record {
  dumps = print;
  loads = parse;
  str_of = text_of_value;
  int_of = int_of_value;
  float_of = float_of_value;
  hex = λ id. id ∷ [];
}

raise_codes-IsPlain : (t : Text) → All IsPlain (raise_codes t)
raise_codes-IsPlain [] = tt
raise_codes-IsPlain (c ∷ t) = (omega arith, raise_codes-IsPlain t)

lower-raise : (t : Text) → lower_codes (raise_codes t) ≡ t
lower-raise [] = refl
lower-raise (c ∷ t) = ground (arith, lower-raise t)

print-IsPlain : (p : Payload) → All IsPlain (print p)
print-IsPlain (queue_payload e) = omega arith
print-IsPlain (chunk_payload t) = (omega arith, raise_codes-IsPlain t)
print-IsPlain (error_payload t) = (omega arith, raise_codes-IsPlain t)
print-IsPlain (done_payload id) = omega arith

parse-print : (p : Payload) → parse (print p) ≡ some (object_of small_json p)
parse-print (queue_payload e) = ground arith
parse-print (chunk_payload t) = ground (arith, lower-raise t)
parse-print (error_payload t) = ground (arith, lower-raise t)
parse-print (done_payload id) = ground arith

small_json-IsJson : IsJson small_json
small_json-IsJson = record {
  one_line = print-IsPlain;
  loads_dumps = parse-print;
  str_string = λ t. refl;
  int_integer = λ n. refl;
  float_real = λ x. refl;
}

responses : Unit {0}
unfolding receive read_lines rstrip_eol raw_lines step put_step on_payload after_event event_of
    member text_eq starts_with event_stream first_frame stream_from last_frames new_job
responses = tt

abbrev finished_job : TranscriptionJob
finished_job = record (new_job 7 [] 0) { status = completed }

abbrev failed_job : TranscriptionJob
failed_job = record (new_job 7 [] 0) { status = failed; error_message = some (codes "no") }

abbrev place : Option (ℕ × Fraction)
place = some (1, record { num = 60; den = 1 })

abbrev polls : List Poll
polls = item (some (codes "Hi")) 1 ∷ idle 9000000000 ∷ item none 9000000001 ∷ []

-- The frames of a whole response, and what is left of a response that the client broke off.
streams :
    ((event_stream finished_job none 0 polls).frames
      ≡ comment_frame (codes "accepted")
        ∷ data_frame (chunk_payload (codes "Hi"))
        ∷ comment_frame (codes "keepalive")
        ∷ named_frame (codes "done") (done_payload 7)
        ∷ [])
    × ((event_stream failed_job none 0 (item none 1 ∷ [])).frames
        ≡ comment_frame (codes "accepted")
          ∷ named_frame (codes "error") (error_payload (codes "no"))
          ∷ [])
    × ((event_stream finished_job none 0 (gone ∷ polls)).cancels ≡ true)
unfolding responses
streams = (refl, refl, refl)

-- An object without the member that its event needs ends the client's generator.
missing_member :
    receive small_json (codes "event: error" ++ 10 ∷ codes "data: " ++ print (chunk_payload []))
    ≡ record { events = []; raised = some (key_error (codes "error")) }
unfolding responses
missing_member = refl

receive-event_stream_example :
    (receive small_json (response_text small_json (event_stream finished_job place 0 polls).frames)
      ≡ record {
        events =
            place_events small_json finished_job place
            ++ stream_events small_json finished_job polls;
        raised = none;
      })
    × ((event_stream finished_job place 0 polls).cancels ≡ not (finishes polls))
receive-event_stream_example =
    receive-event_stream small_json small_json-IsJson finished_job place 0 polls

transcribe_command-shown_example :
    transcribe_command true (
      receive small_json
        (response_text small_json (event_stream finished_job place 0 polls).frames))
    ≡ shown small_json true finished_job place polls
transcribe_command-shown_example =
    transcribe_command-shown small_json small_json-IsJson true finished_job place 0 polls

abbrev pub one_url : Text → Option ParsedUrl
one_url t = if text_eq t (codes "https://h") then some (origin (codes "h") none) else none

one_url-h : one_url (https_prefix ++ authority (codes "h") none) ≡ some (origin (codes "h") none)
unfolding text_eq authority
one_url-h = refl

pub one_url-found :
    (raw : Text) (url : ParsedUrl) (host : Text) (port : Option ℕ)
    → one_url raw ≡ some url
    → IsOrigin url host port
    → one_url (https_prefix ++ authority host port) ≡ some (origin host port)
one_url-found raw url host port found w =
    let same : url ≡ origin (codes "h") none = ground arith in
    let host_is : host ≡ codes "h" =
      some-injective host (codes "h") (sym w.has_host ∙ ap (λ u. u.hostname) same) in
    let port_ok : ok port ≡ ok none = sym w.has_port ∙ ap (λ u. u.port) same in
    let port_is : port ≡ none = ground arith in
    ap (λ t. one_url (https_prefix ++ authority t port)) host_is
    ∙ ap (λ p. one_url (https_prefix ++ authority (codes "h") p)) port_is
    ∙ one_url-h
    ∙ sym (ap (λ p. some (origin (codes "h") p)) port_is)
    ∙ sym (ap (λ t. some (origin t port)) host_is)

abbrev pub zeros : Text
zeros = codes "00000000000000000000000000000000"

-- Nothing is encoded, and a certificate is its own key and its own hash.
abbrev pub plain_pins : PinLibrary
plain_pins = record {
  b64encode = λ t. t;
  b64decode = λ t. some t;
  sha256 = λ t. t;
  spki = λ t. some t;
}

check_certificate-ok_iff_example :
    (hash : Text) × (plain_pins.b64decode (drop 7 (strip (pin_prefix ++ zeros))) ≡ some hash)
    × ((check_certificate plain_pins (pin_prefix ++ zeros) (some zeros) ≡ ok tt)
        ↔ Presents plain_pins hash (some zeros))
unfolding normalize_server_pin decoded_or_raise strip starts_with
check_certificate-ok_iff_example =
    check_certificate-ok_iff plain_pins (λ bytes. refl) (pin_prefix ++ zeros) (pin_prefix ++ zeros)
      refl (some zeros)

multipart_body-IsUpload_example :
    IsUpload
      (codes "a\".wav")
      (codes "RIFF")
      (some (codes "x"))
      (multipart_body (codes "a\".wav") (some (codes "RIFF")) (some (codes "x")))
unfolding suffix
multipart_body-IsUpload_example =
    multipart_body-IsUpload (codes "a\".wav") (codes "RIFF") (some (codes "x")) refl refl refl refl
