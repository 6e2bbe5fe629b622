-- ===== src/Client.antt =====
-- client/client.py: how `VibevoiceClient.transcribe` reads the response's lines. Bytes that are not
-- UTF-8 are not modelled: the response is its text. The events that the generator yielded and the
-- exception that ended it, if one did, are the result.
pub mod Address
pub mod Pin
pub mod Multipart
pub mod Terminal
pub mod Status
pub mod Command
pub mod RoundTrip
pub mod EndToEnd
pub mod Tests
use vibe_voice_vendor.Base.{
  ℕ, ◌||◌, Option, none, some, List, [], ◌∷◌, map, Text, codes, text_eq, starts_with, drop, ◌==◌,
  if◌then◌else◌, Result, ok, err, ◌>>=◌, Fraction,
}
use vibe_voice_vendor.Json.{JsonLibrary, Object, FieldValue}

pub data EventType : Type 0 where
  queue data_chunk error done : EventType

pub record TranscriptionEvent : Type 0 where
  pub event_type : EventType
  pub text : Option Text
  pub job_id : Option Text
  pub position : Option ℕ
  pub estimated_wait_seconds : Option Fraction
  pub error : Option Text

abbrev pub event_of_type : EventType → TranscriptionEvent
event_of_type type = record {
  event_type = type;
  text = none;
  job_id = none;
  position = none;
  estimated_wait_seconds = none;
  error = none;
}

-- KeyError with its key, and the ValueError or TypeError of `int` and `float`.
pub data ClientError : Type 0 where
  key_error : Text → ClientError
  bad_number : ClientError

-- `payload[key]`
unfoldable pub member : Text → Object → Result ClientError FieldValue
member key [] = err (key_error key)
member key ((k, v) ∷ members) = if text_eq k key then ok v else member key members

abbrev pub number_or_raise {ℓ} : {A : Type ℓ} → Option A → Result ClientError A
number_or_raise none = err bad_number
number_or_raise (some a) = ok a

-- The event of a payload under the name that holds; other names yield nothing.
unfoldable pub event_of :
    JsonLibrary → Text → Object → Result ClientError (Option TranscriptionEvent)
unfolding member
event_of json current payload =
    if text_eq current (codes "queue")
    then (do
      id ← member (codes "job_id") payload
      place ← member (codes "position") payload
      n ← number_or_raise (json.int_of place)
      wait ← member (codes "estimated_wait_seconds") payload
      x ← number_or_raise (json.float_of wait)
      ok (
          some (record (event_of_type queue) {
            job_id = some (json.str_of id);
            position = some n;
            estimated_wait_seconds = some x;
          })))
    else if text_eq current (codes "data")
    then (do
      t ← member (codes "text") payload
      ok (some (record (event_of_type data_chunk) { text = some (json.str_of t) })))
    else if text_eq current (codes "error")
    then (do
      e ← member (codes "error") payload
      ok (some (record (event_of_type error) { error = some (json.str_of e) })))
    else if text_eq current (codes "done")
    then (do
      id ← member (codes "job_id") payload
      ok (some (record (event_of_type done) { job_id = some (json.str_of id) })))
    else ok none

-- What one line does: the name that holds after it and the event it yields, or an exception.
pub data Step : Type 0 where
  goes_on : Text → Option TranscriptionEvent → Step
  raises : ClientError → Step

unfoldable pub after_event : Result ClientError (Option TranscriptionEvent) → Step
after_event (ok e) = goes_on (codes "data") e
after_event (err e) = raises e

unfoldable pub on_payload : JsonLibrary → Text → Option Object → Step
unfolding after_event event_of
on_payload json current none = goes_on current none
on_payload json current (some payload) = after_event (event_of json current payload)

unfoldable pub step : JsonLibrary → Text → Text → Step
unfolding on_payload
step json current line =
    if starts_with line (codes "event: ")
    then goes_on (drop 7 line) none
    else if starts_with line (codes "data: ")
    then on_payload json current (json.loads (drop 6 line))
    else goes_on current none

pub record Received : Type 0 where
  pub events : List TranscriptionEvent
  pub raised : Option ClientError

abbrev pub next_event : Text → Step → Text
next_event current (goes_on next e) = next
next_event current (raises e) = current

unfoldable pub put_step : Step → Received → Received
put_step (raises e) rest = record { events = []; raised = some e }
put_step (goes_on next none) rest = rest
put_step (goes_on next (some e)) rest = record rest { events = e ∷ rest.events }

-- The loop, over lines without their ends.
unfoldable pub read_lines : JsonLibrary → Text → List Text → Received
unfolding step put_step
read_lines json current [] = record { events = []; raised = none }
read_lines json current (line ∷ more) =
    let s = step json current line in put_step s (read_lines json (next_event current s) more)

-- `line.rstrip("\r\n")`
unfoldable pub rstrip_eol : Text → Text
rstrip_eol [] = []
rstrip_eol (c ∷ s) = put_unless_eol c (rstrip_eol s)
  where
    put_unless_eol : ℕ → Text → Text
    put_unless_eol c [] = if c == 10 || c == 13 then [] else c ∷ []
    put_unless_eol c (d ∷ t) = c ∷ d ∷ t

abbrev pub put_head : ℕ → List Text → List Text
put_head c [] = (c ∷ []) ∷ []
put_head c (line ∷ lines) = (c ∷ line) ∷ lines

-- The results of `response.readline()` up to the empty one.
unfoldable pub raw_lines : Text → List Text
raw_lines [] = []
raw_lines (c ∷ s) = let rest = raw_lines s in if c == 10 then (c ∷ []) ∷ rest else put_head c rest

unfoldable pub receive : JsonLibrary → Text → Received
unfolding read_lines rstrip_eol raw_lines
receive json response = read_lines json (codes "data") (map rstrip_eol (raw_lines response))
