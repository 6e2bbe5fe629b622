-- ===== src/Backend/Vllm.antt =====
-- server/vllm_client.py: the chunks that `stream_transcription` reads from the lines of the model
-- server's response. `lines` are those of `response.aiter_lines()`; `loads` is `json.loads`, `none`
-- where it raises JSONDecodeError. The payload of the request is not modelled.
pub mod Deltas
use vibe_voice_vendor.Base.{
  ℕ, Bool, true, false, not, ◌&&◌, ◌||◌, Option, none, some, List, [], ◌∷◌, Text, codes, text_eq,
  starts_with, strip, drop, ◌==◌, if◌then◌else◌, Result, ok, err, ◌>>=◌,
}
use vibe_voice_vendor.Backend.{
  JsonValue, list, object, string, number, boolean, null, JsonValues, nil, cons, Members, end,
  member, has_key,
}

-- TypeError, KeyError and IndexError of Python's operators; RuntimeError of a status other than 200.
pub data VllmError : Type 0 where
  type_error missing_key index_error : VllmError
  vllm_status : ℕ → VllmError

unfoldable pub has_substring : Text → Text → Bool
has_substring key [] = text_eq key []
has_substring key (c ∷ s) = starts_with (c ∷ s) key || has_substring key s

abbrev is_string : Text → JsonValue → Bool
is_string key (string t) = text_eq key t
is_string key _ = false

unfoldable pub has_element : Text → JsonValues → Bool
has_element key nil = false
has_element key (cons v vs) = is_string key v || has_element key vs

-- `key in value`, for a text `key`
unfoldable pub has_member : Text → JsonValue → Result VllmError Bool
unfolding has_substring has_element
has_member key (object ms) = ok (has_key key ms)
has_member key (list vs) = ok (has_element key vs)
has_member key (string t) = ok (has_substring key t)
has_member key (number t zero) = err type_error
has_member key (boolean b) = err type_error
has_member key null = err type_error

-- An object's value for a key: that of its last member of that name.
unfoldable pub value_of : Text → Members → Option JsonValue
value_of key end = none
value_of key (member k v ms) = elim (value_of key ms) [
  | some w ↦ some w
  | none ↦ if text_eq key k then some v else none
]

abbrev found : Option JsonValue → Result VllmError JsonValue
found none = err missing_key
found (some v) = ok v

-- `value[key]`, for a text `key`
unfoldable pub get_member : Text → JsonValue → Result VllmError JsonValue
unfolding value_of
get_member key (object ms) = found (value_of key ms)
get_member key _ = err type_error

-- `value[0]`; the keys of an object are texts
unfoldable pub get_first : JsonValue → Result VllmError JsonValue
get_first (list (cons v vs)) = ok v
get_first (list nil) = err index_error
get_first (string (c ∷ t)) = ok (string (c ∷ []))
get_first (string []) = err index_error
get_first (object ms) = err missing_key
get_first _ = err type_error

-- `bool(value)`
unfoldable pub truthy : JsonValue → Bool
truthy (list nil) = false
truthy (list (cons v vs)) = true
truthy (object end) = false
truthy (object (member k v ms)) = true
truthy (string []) = false
truthy (string (c ∷ t)) = true
truthy (number t zero) = not zero
truthy (boolean b) = b
truthy null = false

abbrev when : Bool → Result VllmError (Option JsonValue) → Result VllmError (Option JsonValue)
when true r = r
when false r = ok none

-- From `choice["delta"]` on: what is yielded, if anything.
unfoldable pub delta_text : JsonValue → Result VllmError (Option JsonValue)
unfolding has_member get_member truthy
delta_text choice = do
  has_delta ← has_member (codes "delta") choice
  when has_delta (do
    delta ← get_member (codes "delta") choice
    has_content ← has_member (codes "content") delta
    when has_content (do
      text ← get_member (codes "content") delta
      ok (if truthy text then some text else none)))

-- From the parsed value on.
unfoldable pub chunk_of : JsonValue → Result VllmError (Option JsonValue)
unfolding delta_text get_first
chunk_of value = do
  has_choices ← has_member (codes "choices") value
  when has_choices (do
    choices ← get_member (codes "choices") value
    when (truthy choices) (do choice ← get_first choices; delta_text choice))

-- What a line is for the loop: to be skipped, the end, or a value.
pub data Line : Type 0 where
  skipped finished : Line
  parsed : JsonValue → Line

abbrev pub parsed_or_skipped : Option JsonValue → Line
parsed_or_skipped none = skipped
parsed_or_skipped (some v) = parsed v

unfoldable pub read_line : (Text → Option JsonValue) → Text → Line
read_line loads line =
    if not (starts_with line (codes "data: "))
    then skipped
    else if text_eq (strip (drop 6 line)) (codes "[DONE]")
    then finished
    else parsed_or_skipped (loads (drop 6 line))

-- What was yielded, and the exception that ended the generator, if one did.
pub record StreamedChunks : Type 0 where
  pub chunks : List JsonValue
  pub raised : Option VllmError

unfoldable pub put_delta : Result VllmError (Option JsonValue) → StreamedChunks → StreamedChunks
put_delta (err e) rest = record { chunks = []; raised = some e }
put_delta (ok none) rest = rest
put_delta (ok (some text)) rest = record rest { chunks = text ∷ rest.chunks }

unfoldable pub on_line : Line → StreamedChunks → StreamedChunks
unfolding put_delta chunk_of
on_line skipped rest = rest
on_line finished rest = record { chunks = []; raised = none }
on_line (parsed v) rest = put_delta (chunk_of v) rest

unfoldable pub stream_lines : (Text → Option JsonValue) → List Text → StreamedChunks
unfolding on_line read_line
stream_lines loads [] = record { chunks = []; raised = none }
stream_lines loads (line ∷ lines) = on_line (read_line loads line) (stream_lines loads lines)

unfoldable pub stream_transcription : (Text → Option JsonValue) → ℕ → List Text → StreamedChunks
unfolding stream_lines
stream_transcription loads status lines =
    if status == 200
    then stream_lines loads lines
    else record { chunks = []; raised = some (vllm_status status) }
