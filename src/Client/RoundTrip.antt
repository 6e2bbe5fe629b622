-- ===== src/Client/RoundTrip.antt =====
-- The client reads from the server's text the events that the server wrote.
use vibe_voice_vendor.Base.{
  ◌≡◌, refl, ◌∙◌, ap, none, some, List, [], ◌∷◌, ◌++◌, map, Text, codes, text_eq, starts_with,
  arith, All, ok,
}
use vibe_voice_vendor.Json.{
  Payload, queue_payload, chunk_payload, error_payload, done_payload, JsonLibrary, object_of,
  IsPlain, IsJson,
}
use vibe_voice_vendor.Stream.{Frame, named_frame, data_frame, comment_frame, frame_lines}
use vibe_voice_vendor.Client.{
  TranscriptionEvent, event_of_type, queue, data_chunk, error, done, member, event_of, goes_on,
  after_event, on_payload, step, Received, put_step, read_lines, rstrip_eol, raw_lines, receive,
}

-- The text of lines, each with its "\n".
abbrev pub text_of_lines : List Text → Text
text_of_lines [] = []
text_of_lines (line ∷ lines) = line ++ (10 ∷ text_of_lines lines)

rstrip_eol-line : (line : Text) → All IsPlain line → rstrip_eol (line ++ 10 ∷ []) ≡ line
unfolding rstrip_eol
rstrip_eol-line [] w = refl
rstrip_eol-line (c ∷ []) w = ground arith
rstrip_eol-line (c ∷ d ∷ line) w = rw (rstrip_eol-line (d ∷ line) w.1) refl

raw_lines-line :
    (line rest : Text)
    → All IsPlain line
    → raw_lines (line ++ (10 ∷ rest)) ≡ (line ++ 10 ∷ []) ∷ raw_lines rest
unfolding raw_lines
raw_lines-line [] rest w = refl
raw_lines-line (c ∷ line) rest w = ground (arith, raw_lines-line line rest w.1)

-- Plain lines are read back as they were.
map-raw_lines :
    (lines : List Text)
    → All (All IsPlain) lines
    → map rstrip_eol (raw_lines (text_of_lines lines)) ≡ lines
unfolding raw_lines
map-raw_lines [] w = refl
map-raw_lines (line ∷ lines) w =
    ap (map rstrip_eol) (raw_lines-line line (text_of_lines lines) w.0)
    ∙ ap (λ l. l ∷ map rstrip_eol (raw_lines (text_of_lines lines))) (rstrip_eol-line line w.0)
    ∙ ap (◌∷◌ line) (map-raw_lines lines w.1)

-- The events that a frame announces.
abbrev pub event_of_payload : JsonLibrary → Payload → TranscriptionEvent
event_of_payload json (queue_payload e) = record (event_of_type queue) {
  job_id = some (json.hex e.job_id);
  position = some e.position;
  estimated_wait_seconds = some e.estimated_wait_seconds;
}
event_of_payload json (chunk_payload t) = record (event_of_type data_chunk) { text = some t }
event_of_payload json (error_payload t) = record (event_of_type error) { error = some t }
event_of_payload json (done_payload id) = record (event_of_type done) {
  job_id = some (json.hex id);
}

abbrev pub name_of_payload : Payload → Text
name_of_payload (queue_payload e) = codes "queue"
name_of_payload (chunk_payload t) = codes "data"
name_of_payload (error_payload t) = codes "error"
name_of_payload (done_payload id) = codes "done"

module _ (json : JsonLibrary) (laws : IsJson json) where
  event_of-object_of :
      (p : Payload)
      → event_of json (name_of_payload p) (object_of json p) ≡ ok (some (event_of_payload json p))
  unfolding event_of member text_eq
  event_of-object_of (queue_payload e) =
      rw (laws.str_string, laws.int_integer, laws.float_real) refl
  event_of-object_of (chunk_payload t) = rw laws.str_string refl
  event_of-object_of (error_payload t) = rw laws.str_string refl
  event_of-object_of (done_payload id) = rw laws.str_string refl

  step-data :
      (p : Payload)
      → step json (name_of_payload p) (codes "data: " ++ json.dumps p)
        ≡ goes_on (codes "data") (some (event_of_payload json p))
  unfolding step starts_with
  step-data p =
      ap (on_payload json (name_of_payload p)) (laws.loads_dumps p)
      ∙ unfold on_payload after_event in rw (event_of-object_of p) refl

-- A frame whose name is its payload's, or a comment on one line.
abbrev pub IsEventFrame : Frame → Type 0
IsEventFrame (named_frame name p) = name ≡ name_of_payload p
IsEventFrame (data_frame p) = codes "data" ≡ name_of_payload p
IsEventFrame (comment_frame t) = All IsPlain t

-- What the generator yielded, as one text, and the events that it announces.
abbrev pub response_lines : JsonLibrary → List Frame → List Text
response_lines json [] = []
response_lines json (f ∷ fs) = frame_lines json f ++ response_lines json fs

abbrev pub response_text : JsonLibrary → List Frame → Text
response_text json frames = text_of_lines (response_lines json frames)

abbrev pub events_of : JsonLibrary → List Frame → List TranscriptionEvent
events_of json [] = []
events_of json (named_frame name p ∷ fs) = event_of_payload json p ∷ events_of json fs
events_of json (data_frame p ∷ fs) = event_of_payload json p ∷ events_of json fs
events_of json (comment_frame t ∷ fs) = events_of json fs

name_of_payload-IsPlain : (p : Payload) → All IsPlain (name_of_payload p)
name_of_payload-IsPlain (queue_payload e) = omega arith
name_of_payload-IsPlain (chunk_payload t) = omega arith
name_of_payload-IsPlain (error_payload t) = omega arith
name_of_payload-IsPlain (done_payload id) = omega arith

IsPlain-append : (s t : Text) → All IsPlain s → All IsPlain t → All IsPlain (s ++ t)
IsPlain-append [] t v w = w
IsPlain-append (c ∷ s) t v w = (v.0, IsPlain-append s t v.1 w)

abbrev received : List TranscriptionEvent → Received
received events = record { events = events; raised = none }

module _ (json : JsonLibrary) (laws : IsJson json) where
  response_lines-IsPlain :
      (frames : List Frame)
      → All IsEventFrame frames
      → All (All IsPlain) (response_lines json frames)
  response_lines-IsPlain [] w = tt
  response_lines-IsPlain (named_frame name p ∷ fs) w = (
    IsPlain-append (codes "event: ") name (omega arith) (rw w.0 (name_of_payload-IsPlain p)),
    (
      IsPlain-append (codes "data: ") (json.dumps p) (omega arith) (laws.one_line p),
      (tt, response_lines-IsPlain fs w.1),
    ),
  )
  response_lines-IsPlain (data_frame p ∷ fs) w = (
    IsPlain-append (codes "data: ") (json.dumps p) (omega arith) (laws.one_line p),
    (tt, response_lines-IsPlain fs w.1),
  )
  response_lines-IsPlain (comment_frame t ∷ fs) w =
      (IsPlain-append (codes ": ") t (omega arith) w.0, (tt, response_lines-IsPlain fs w.1))

  -- Its data line under its name, then the empty line.
  read_data :
      (name : Text) (p : Payload) (lines : List Text) (events : List TranscriptionEvent)
      → name ≡ name_of_payload p
      → read_lines json (codes "data") lines ≡ received events
      → read_lines json name ((codes "data: " ++ json.dumps p) ∷ [] ∷ lines)
        ≡ received (event_of_payload json p ∷ events)
  unfolding read_lines
  read_data name p lines events e h =
      let s : step json name (codes "data: " ++ json.dumps p)
          ≡ goes_on (codes "data") (some (event_of_payload json p)) =
        rw e (step-data json laws p) in
      rw s (unfold put_step step starts_with in rw h refl)

  read_frames :
      (frames : List Frame)
      → All IsEventFrame frames
      → read_lines json (codes "data") (response_lines json frames)
        ≡ received (events_of json frames)
  unfolding read_lines step put_step starts_with
  read_frames [] w = refl
  read_frames (named_frame name p ∷ fs) w =
      read_data name p (response_lines json fs) (events_of json fs) w.0 (read_frames fs w.1)
  read_frames (data_frame p ∷ fs) w =
      read_data (codes "data") p (response_lines json fs) (events_of json fs) w.0
        (read_frames fs w.1)
  read_frames (comment_frame t ∷ fs) w = read_frames fs w.1

  -- The client receives from the text of any frames exactly the events that they announce, in their
  -- order, and raises nothing. It is assumed that each frame's name is its payload's, that a comment
  -- is one line, and that the JSON library reads back what it printed on one line.
  pub receive-response_text :
      (frames : List Frame)
      → All IsEventFrame frames
      → receive json (response_text json frames)
        ≡ record { events = events_of json frames; raised = none }
  unfolding receive
  receive-response_text frames w =
      ap (read_lines json (codes "data"))
        (map-raw_lines (response_lines json frames) (response_lines-IsPlain frames w))
      ∙ read_frames frames w
