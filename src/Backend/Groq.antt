-- ===== src/Backend/Groq.antt =====
-- server/groq_client.py: what `transcribe_audio_file` makes of the response, from its status and its
-- body. `response.json()` is an argument, `none` where it raises. The request is not modelled.
use vibe_voice_vendor.Base.{
  ℕ, not, Option, none, some, Text, codes, ◌==◌, Result, ok, err, raise_if, ◌>>◌,
}
use vibe_voice_vendor.Backend.{JsonValue, object, string}
use vibe_voice_vendor.Backend.Vllm.{value_of}

pub data GroqError : Type 0 where
  groq_status : ℕ → GroqError
  groq_not_json groq_not_object missing_text text_not_string : GroqError

unfoldable pub text_value : Option JsonValue → Result GroqError Text
text_value none = err missing_text
text_value (some (string t)) = ok t
text_value (some _) = err text_not_string

unfoldable pub response_text : Option JsonValue → Result GroqError Text
unfolding text_value value_of
response_text none = err groq_not_json
response_text (some (object ms)) = text_value (value_of (codes "text") ms)
response_text (some _) = err groq_not_object

unfoldable pub transcribe_audio_file : (Text → Option JsonValue) → ℕ → Text → Result GroqError Text
unfolding response_text
transcribe_audio_file loads status body = do
  raise_if (not (status == 200)) (groq_status status)
  response_text (loads body)
