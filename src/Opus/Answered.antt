-- ===== src/Opus/Answered.antt =====
-- What transcribe_audio_file of server/groq_client.py returns, from the recording to the text.
use vibe_voice_vendor.Base.{
  sym, List, [], ◌∷◌, ◌++◌, codes, ℕ, ◌≡◌, ◌↔◌, refl, ap, ◌∙◌, not, Option, none, some, Text, codes,
  ◌==◌, arith, Result, ok, err, raise_if, guard_passed, true,
}
use vibe_voice_vendor.Backend.{JsonValue, object, string, Members}
use vibe_voice_vendor.Backend.Vllm.{value_of}
use vibe_voice_vendor.Backend.Groq.{
  GroqError, groq_status, text_value, response_text, transcribe_audio_file,
}
use vibe_voice_vendor.Backend.Requests.{GroqRequest, prompt_field, groq_request}
use vibe_voice_vendor.Opus.{
  OpusError, finished, Ffmpeg, compress_file_to_opus, Post, as_failure, on_answer, on_compressed,
  transcribe_with_groq,
}
use vibe_voice_vendor.Opus.Compressed.{GivesOutput, compress_file_to_opus-IsCleaned}

-- A body that is a JSON object with the text.
pub record HasText (loads : Text → Option JsonValue) (body text : Text) : Type 0 where
  pub members : Members
  pub is_object : loads body ≡ some (object members)
  pub is_text : value_of (codes "text") members ≡ some (string text)

text_value-ok_iff :
    (o : Option JsonValue) (text : Text) → (text_value o ≡ ok text) ↔ (o ≡ some (string text))
unfolding text_value
text_value-ok_iff none text = ground arith
text_value-ok_iff (some (string t)) text = ground arith
text_value-ok_iff (some v) text = ground arith

response_text-HasText :
    (loads : Text → Option JsonValue) (body : Text) (o : Option JsonValue) (text : Text)
    → loads body ≡ o
    → response_text o ≡ ok text
    → HasText loads body text
unfolding response_text
response_text-HasText loads body none text e h = ground arith
response_text-HasText loads body (some (object ms)) text e h = record {
  members = ms;
  is_object = e;
  is_text = (text_value-ok_iff (value_of (codes "text") ms) text).0 h;
}
response_text-HasText loads body (some v) text e h = ground arith

-- The prompt is a field of the form exactly if there are hotwords.
abbrev pub IsPrompt : Option Text → List (Text × Text) → Type 0
IsPrompt none prompt = prompt ≡ []
IsPrompt (some []) prompt = prompt ≡ []
IsPrompt (some (c ∷ words)) prompt = prompt ≡ (codes "prompt", c ∷ words) ∷ []

prompt_field-IsPrompt : (hotwords : Option Text) → IsPrompt hotwords (prompt_field hotwords)
unfolding prompt_field
prompt_field-IsPrompt none = refl
prompt_field-IsPrompt (some []) = refl
prompt_field-IsPrompt (some (c ∷ words)) = refl

prompt_unique :
    (hotwords : Option Text) (prompt : List (Text × Text))
    → IsPrompt hotwords prompt
    → prompt ≡ prompt_field hotwords
unfolding prompt_field
prompt_unique none prompt h = h
prompt_unique (some []) prompt h = h
prompt_unique (some (c ∷ words)) prompt h = h

-- A POST to Groq with the key, of a form with the fields and a recording.
abbrev pub request_with : Text → List (Text × Text) → Text → GroqRequest
request_with api_key fields recording = record {
  url = codes "https://api.groq.com/openai/v1/audio/transcriptions";
  authorization = codes "Bearer " ++ api_key;
  fields = fields;
  file_name = codes "audio.ogg";
  file_contents = recording;
  file_type = codes "audio/ogg";
}

groq_request-IsPrompt :
    (api_key model_name : Text) (hotwords : Option Text) (bytes : Text)
    (prompt : List (Text × Text))
    → IsPrompt hotwords prompt
    → request_with api_key
        ((codes "model", model_name)
          ∷ (codes "response_format", codes "json")
          ∷ (codes "temperature", codes "0")
          ∷ prompt)
        bytes
      ≡ groq_request api_key model_name hotwords bytes
unfolding groq_request
groq_request-IsPrompt api_key model_name hotwords bytes prompt h =
    ap
      (λ p.
        request_with api_key
          ((codes "model", model_name)
            ∷ (codes "response_format", codes "json")
            ∷ (codes "temperature", codes "0")
            ∷ p)
          bytes)
      (prompt_unique hotwords prompt h)

-- The run of the program, the request with its output, and the answer.
pub record IsAnswered (loads : Text → Option JsonValue) (post : Post) (f : Ffmpeg)
    (api_key model_name : Text) (hotwords : Option Text) (text : Text) : Type 0 where
  pub stderr : Text
  pub opus_bytes : Text
  pub body : Text
  pub starts : f.starts ≡ true
  pub finishes : f.communicated ≡ finished 0 stderr
  pub output : f.output ≡ some opus_bytes
  pub prompt : List (Text × Text)
  pub is_prompt : IsPrompt hotwords prompt
  pub answer :
      post (
        request_with api_key
          ((codes "model", model_name)
            ∷ (codes "response_format", codes "json")
            ∷ (codes "temperature", codes "0")
            ∷ prompt)
          opus_bytes)
      ≡ some (200, body)
  pub has_text : HasText loads body text

as_failure-ok : (r : Result GroqError Text) (text : Text) → as_failure r ≡ ok text → r ≡ ok text
as_failure-ok (ok t) text h = ground arith
as_failure-ok (err e) text h = ground arith

transcribe_audio_file_sound :
    (loads : Text → Option JsonValue) (status : ℕ) (body text : Text)
    → transcribe_audio_file loads status body ≡ ok text
    → (status ≡ 200) × HasText loads body text
unfolding transcribe_audio_file
transcribe_audio_file_sound loads status body text h =
    let (checked, parsed) = guard_passed (raise_if (not (status == 200)) (groq_status status)) h in
    (ground arith, response_text-HasText loads body (loads body) text refl parsed)

answer_inversion :
    (loads : Text → Option JsonValue) (o : Option (ℕ × Text)) (text : Text)
    → on_answer loads o ≡ ok text
    → (body : Text) × (o ≡ some (200, body)) × HasText loads body text
unfolding on_answer
answer_inversion loads none text h = ground arith
answer_inversion loads (some (status, body)) text h =
    let (ok_status, found) =
      transcribe_audio_file_sound loads status body text (as_failure-ok _ text h) in
    (body, ap (λ n. some (n, body)) ok_status, found)

answer_complete :
    (loads : Text → Option JsonValue) (body text : Text)
    → HasText loads body text
    → on_answer loads (some (200, body)) ≡ ok text
unfolding on_answer transcribe_audio_file response_text
answer_complete loads body text w = rw w.is_object (rw w.is_text (unfold text_value in refl))

module _ (loads : Text → Option JsonValue) (post : Post) (f : Ffmpeg) (api_key model_name : Text)
    (hotwords : Option Text) (text : Text) where
  compressed_sound :
      (r : Result OpusError Text)
      → GivesOutput f r
      → on_compressed loads post (groq_request api_key model_name hotwords) r ≡ ok text
      → IsAnswered loads post f api_key model_name hotwords text
  unfolding on_compressed
  compressed_sound (err e) gives h = ground arith
  compressed_sound (ok bytes) gives h =
      let (starts, (stderr, finishes), output) = (gives bytes).0 refl in
      let (body, answer, found) =
        answer_inversion loads (post (groq_request api_key model_name hotwords bytes)) text h in
      record {
        stderr = stderr;
        opus_bytes = bytes;
        body = body;
        starts = starts;
        finishes = finishes;
        output = output;
        prompt = prompt_field hotwords;
        is_prompt = prompt_field-IsPrompt hotwords;
        answer =
            ap post (
              groq_request-IsPrompt api_key model_name hotwords bytes (prompt_field hotwords)
                (prompt_field-IsPrompt hotwords))
            ∙ answer;
        has_text = found;
      }

  transcribe_sound :
      transcribe_with_groq loads post f api_key model_name hotwords ≡ ok text
      → IsAnswered loads post f api_key model_name hotwords text
  unfolding transcribe_with_groq
  transcribe_sound h =
      compressed_sound (compress_file_to_opus f true).0
        (compress_file_to_opus-IsCleaned f true).gives h

  transcribe_complete :
      IsAnswered loads post f api_key model_name hotwords text
      → transcribe_with_groq loads post f api_key model_name hotwords ≡ ok text
  unfolding transcribe_with_groq
  transcribe_complete w =
      let request = groq_request api_key model_name hotwords in
      let compressed : (compress_file_to_opus f true).0 ≡ ok w.opus_bytes =
        ((compress_file_to_opus-IsCleaned f true).gives w.opus_bytes).1
          (w.starts, (w.stderr, w.finishes), w.output) in
      ap (on_compressed loads post request) compressed
      ∙ unfold on_compressed in
        ap (on_answer loads) (
          ap post (
            sym
              (groq_request-IsPrompt api_key model_name hotwords w.opus_bytes w.prompt w.is_prompt))
          ∙ w.answer)
        ∙ answer_complete loads w.body text w.has_text

  -- The function returns a text exactly if ffmpeg ran and ended with status 0, its output was posted to
  -- Groq's address as it is, with the key behind "Bearer", the model, and the hotwords as the prompt if
  -- there are any, and the answer had status 200 and a JSON object for its body in which that text is the
  -- value of "text".
  pub transcribe_with_groq-ok_iff :
      (transcribe_with_groq loads post f api_key model_name hotwords ≡ ok text)
      ↔ IsAnswered loads post f api_key model_name hotwords text
  transcribe_with_groq-ok_iff = (transcribe_sound, transcribe_complete)
