-- ===== src/Form.antt =====
-- server/routes/transcribe.py: the fields of the form. Starlette's multipart parser gives them as a
-- list of names and values, a value being a file or a text.
pub mod Tokens
pub mod Fields
pub mod Tests
use vibe_voice_vendor.Base.{
  ℕ, zero, suc, Bool, true, false, not, ◌&&◌, ◌||◌, Option, none, some, List, [], ◌∷◌, ◌++◌, Text,
  codes, text_eq, starts_with, drop, ◌==◌, if◌then◌else◌, Result, ok, err, raise_if, ◌>>=◌, ◌>>◌,
}
use vibe_voice_vendor.Http.{HttpException}

-- What the route reads of Starlette's UploadFile; the spooled bytes are read in Upload.
pub record UploadFile : Type 0 where
  pub filename : Option Text
  pub content_type : Option Text
  pub contents : Text

pub data FormValue : Type 0 where
  file : UploadFile → FormValue
  text : Text → FormValue

abbrev pub FormData : Type 0
FormData = List (Text × FormValue)

abbrev pub bad_request : Text → HttpException
bad_request detail = record { status_code = 400; detail = detail }

-- `[^>\r\n]`
abbrev pub is_token_char : ℕ → Bool
is_token_char c = not (c == b'>' || c == 13 || c == 10)

-- At most `n` more characters of the class, then "|>".
unfoldable pub closes : ℕ → Text → Bool
closes zero s = starts_with s (codes "|>")
closes (suc n) [] = false
closes (suc n) (c ∷ s) = starts_with (c ∷ s) (codes "|>") || (is_token_char c && closes n s)

-- `[^>\r\n]{1,128}\|>`
unfoldable pub token_body : Text → Bool
token_body [] = false
token_body (c ∷ s) = is_token_char c && closes 127 s

-- `_CONTROL_TOKEN_RE.search`: the expression matches from some character on.
unfoldable pub has_control_token : Text → Bool
has_control_token [] = false
has_control_token (c ∷ s) =
    (starts_with (c ∷ s) (codes "<|") && token_body (drop 1 s)) || has_control_token s

unfoldable pub validate_hotwords_value : Option FormValue → Result HttpException (Option Text)
validate_hotwords_value none = ok none
validate_hotwords_value (some (file f)) = err (bad_request (codes "hotwords must be a text field"))
validate_hotwords_value (some (text t)) = do
  raise_if (has_control_token t) (bad_request (codes "hotwords contain reserved control tokens"))
  ok (some t)

-- `isinstance(value, UploadFile)`
unfoldable pub as_upload : FormValue → Result HttpException UploadFile
as_upload (file f) = ok f
as_upload (text t) = err (bad_request (codes "audio must be a file field"))

-- The variables of the loop.
pub record Seen : Type 0 where
  pub audio : Option UploadFile
  pub hotwords : Option Text
  pub seen_audio : Bool
  pub seen_hotwords : Bool

unfoldable pub extract_field : Text → FormValue → Seen → Result HttpException Seen
unfolding validate_hotwords_value as_upload
extract_field name value seen =
    if text_eq name (codes "audio")
    then (do
      raise_if seen.seen_audio (bad_request (codes "Duplicate audio field"))
      f ← as_upload value
      ok (record seen { seen_audio = true; audio = some f }))
    else if text_eq name (codes "hotwords")
    then (do
      raise_if seen.seen_hotwords (bad_request (codes "Duplicate hotwords field"))
      t ← validate_hotwords_value (some value)
      ok (record seen { seen_hotwords = true; hotwords = t }))
    else err (bad_request (codes "Unexpected form field: " ++ name))

unfoldable pub extract_fields : FormData → Seen → Result HttpException Seen
unfolding extract_field
extract_fields [] seen = ok seen
extract_fields ((name, value) ∷ items) seen = do
  after ← extract_field name value seen
  extract_fields items after

unfoldable pub audio_of : Option UploadFile → Result HttpException UploadFile
audio_of none = err (bad_request (codes "Audio file is required"))
audio_of (some f) = ok f

abbrev pub nothing_seen : Seen
nothing_seen = record { audio = none; hotwords = none; seen_audio = false; seen_hotwords = false }

unfoldable pub extract_transcribe_form : FormData → Result HttpException (UploadFile × Option Text)
unfolding extract_fields audio_of
extract_transcribe_form form = do
  seen ← extract_fields form nothing_seen
  f ← audio_of seen.audio
  ok (f, seen.hotwords)
