-- ===== src/Backend/Tests.antt =====
-- Small inputs of Backend, and its theorems at them.
use vibe_voice_vendor.Base.{
  ◌≡◌, refl, ◌↔◌, false, map, List, starts_with, ◌==◌, if◌then◌else◌, Option, some, none, [], ◌∷◌,
  Text, codes, text_eq, strip, lstrip, rstrip, ok, err,
}
use vibe_voice_vendor.Backend.{
  OutputError, Members, string, JsonValue, list, object, null, member, end, nil, cons, not_json,
  empty_output, missing_content, has_key, check_segment, check_segments, check_parsed,
  check_trimmed, validate_vibevoice_output,
}
use vibe_voice_vendor.Models.{processing, streaming, completed}
use vibe_voice_vendor.Form.{
  FormData, has_control_token, token_body, closes, extract_transcribe_form,
}
use vibe_voice_vendor.Form.Fields.{audio_field, hotwords_field}
use vibe_voice_vendor.Form.Tests.{recording, words}
use vibe_voice_vendor.Backend.Requests.{text_prompt}
use vibe_voice_vendor.Backend.Requests.Prompt.{text_prompt-has_control_token}
use vibe_voice_vendor.Queue.{TranscriptionJob, returned}
use vibe_voice_vendor.Queue.Worker.{settle}
use vibe_voice_vendor.Backend.Vllm
use vibe_voice_vendor.Backend.Vllm.{stream_transcription, value_of}
use vibe_voice_vendor.Backend.Vllm.Deltas.{
  StreamLine, delta, silent, comment, garbage, the_end, line_text, pieces, IsPiece, IsSilent,
  no_content, stream_transcription-pieces,
}
use vibe_voice_vendor.Backend.Process.{process_vibevoice_job, process_groq_job, groq_segments}
use vibe_voice_vendor.Backend.Process.Completed.{
  process_vibevoice_job-completed_iff, process_groq_job-validate,
}
use vibe_voice_vendor.Backend.Segments.{IsOutput}

outputs : Unit {0}
unfolding validate_vibevoice_output strip lstrip rstrip check_trimmed check_parsed check_segments
    check_segment has_key text_eq
outputs = tt

-- It knows texts by their lengths.
abbrev small_loads : Text → Option JsonValue
small_loads [] = none
small_loads (c ∷ []) =
    some
      (list (cons (object (member (codes "Start") null (member (codes "Content") null end))) nil))
small_loads (c ∷ d ∷ []) = some (list (cons (object end) nil))
small_loads (c ∷ d ∷ e ∷ s) = none

checks :
    (validate_vibevoice_output small_loads (codes " a") ≡ ok tt)
    × (validate_vibevoice_output small_loads (codes "ab") ≡ err (missing_content 0))
    × (validate_vibevoice_output small_loads (codes "abc") ≡ err not_json)
    × (validate_vibevoice_output small_loads [] ≡ err empty_output)
unfolding outputs
checks = (refl, refl, refl, refl)

-- A chunk as the model server sends it, with an id and a second choice.
abbrev chunk_with : Members → JsonValue
chunk_with content = object (
    member (codes "id") (string (codes "chatcmpl-0")) (
      member (codes "choices")
        (list (
          cons
            (object
              (member (codes "delta") (object content) (member (codes "finish_reason") null end)))
            (cons (object end) nil)))
        end))

abbrev content_member : Text → Members
content_member t = member (codes "role") null (member (codes "content") (string t) end)

-- "p" and a text stand for a chunk with it, "r" for one with a role alone.
abbrev load_chunk : Text → Option JsonValue
load_chunk [] = none
load_chunk (c ∷ t) =
    if c == b'p'
    then some (chunk_with (content_member t))
    else if c == b'r'
    then some (chunk_with (member (codes "role") null end))
    else none

abbrev stream : List StreamLine
stream =
    silent (codes "r")
    ∷ comment []
    ∷ delta (codes "pHi") (codes "Hi")
    ∷ garbage (codes "x")
    ∷ delta (codes "p") []
    ∷ the_end
    ∷ delta (codes "pa") (codes "a")
    ∷ []

pieces_of_stream :
    stream_transcription load_chunk 200 (map line_text stream)
    ≡ record { chunks = string (codes "Hi") ∷ []; raised = none }
unfolding stream_transcription Vllm.stream_lines Vllm.on_line Vllm.read_line starts_with text_eq
    strip has_key
pieces_of_stream = refl

told : (t : Text) → IsPiece (chunk_with (content_member t)) t
unfolding value_of text_eq
told t = record {
  chunk = _;
  choice = _;
  others = _;
  content = _;
  is_object = refl;
  has_choices = refl;
  has_delta = refl;
  has_content = refl;
}

role_alone : IsSilent (chunk_with (member (codes "role") null end))
unfolding value_of text_eq
role_alone = no_content _ _ _ _ refl refl refl

stream_transcription-pieces_example :
    stream_transcription load_chunk 200 (map line_text stream)
    ≡ record { chunks = pieces stream; raised = none }
unfolding starts_with strip lstrip rstrip
stream_transcription-pieces_example = stream_transcription-pieces load_chunk stream (
  ((_, refl, role_alone), λ h. cc),
  (
    refl,
    (
      ((_, refl, told (codes "Hi")), λ h. cc),
      (
        (refl, λ h. cc),
        (((_, refl, told []), λ h. cc), (tt, (((_, refl, told (codes "a")), λ h. cc), tt))),
      ),
    ),
  ),
)

abbrev spooled_job : TranscriptionJob
spooled_job = record {
  job_id = 7;
  client_identity = codes "me";
  audio_path = some (record { directory = codes "d"; name = codes "n" });
  audio_mime = codes "audio/wav";
  hotwords = none;
  audio_duration_seconds = record { num = 1; den = 1 };
  status = processing;
  chunk_queue = [];
  error_message = none;
  created_at = 0;
  cancel_requested = false;
  process_task = none;
  terminal_notified = false;
  cleanup_scheduled = false;
}

abbrev describe : OutputError → Text
describe e = codes "bad output"

process_vibevoice_job-completed_iff_example :
    let (after, outcome) =
      process_vibevoice_job small_loads describe (codes "a" ∷ []) none spooled_job in
    (after.chunk_queue ≡ some (codes "a") ∷ [])
    × (((settle outcome after).0.status ≡ completed)
        ↔ ((◌≡◌ {A = Option (Text × Text)} none none) × IsOutput small_loads (strip (codes "a"))))
process_vibevoice_job-completed_iff_example =
    process_vibevoice_job-completed_iff small_loads describe (codes "a" ∷ []) none spooled_job
      (record { directory = codes "d"; name = codes "n" }) refl refl

abbrev one_segment : JsonValue
one_segment = groq_segments null (codes "Hi")

process_groq_job-validate_example :
    let (after, outcome) = process_groq_job (λ v. codes "x") null (ok (codes "Hi")) spooled_job in
    (outcome ≡ returned)
    × (after.status ≡ streaming)
    × (after.chunk_queue ≡ some (codes "x") ∷ [])
    × (validate_vibevoice_output (λ t. some one_segment) (codes "x") ≡ ok tt)
unfolding strip lstrip rstrip
process_groq_job-validate_example =
    process_groq_job-validate (λ t. some one_segment) (λ v. codes "x") null (codes "Hi") spooled_job
      (record { directory = codes "d"; name = codes "n" }) (λ h. cc) refl refl refl (λ h. cc)

abbrev form : FormData
form = hotwords_field words ∷ audio_field recording ∷ []

text_prompt-has_control_token_example :
    has_control_token (text_prompt (codes "1.00") (some words)) ≡ false
unfolding has_control_token token_body closes extract_transcribe_form text_eq starts_with
text_prompt-has_control_token_example =
    text_prompt-has_control_token (codes "1.00") form recording (some words) refl refl
