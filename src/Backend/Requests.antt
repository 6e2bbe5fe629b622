-- ===== src/Backend/Requests.antt =====
-- What is sent to the backends: the payload of server/vllm_client.py and the form of
-- server/groq_client.py. `seconds` is the duration as `f"{audio_duration:.2f}"` prints it; the numbers
-- of the settings are JSON values.
pub mod Prompt
use vibe_voice_vendor.Base.{Bool, true, Option, none, some, List, [], ◌∷◌, ◌++◌, Text, codes}
use vibe_voice_vendor.Backend.{
  JsonValue, list, object, string, boolean, JsonValues, nil, cons, Members, end, member,
}

abbrev pub task_text : Text
task_text = codes "please transcribe it with these keys: Start time, End time, Speaker ID, Content"

abbrev pub duration_part : Text → Text
duration_part seconds = codes "This is a " ++ seconds ++ codes " seconds audio, "

-- The rest of the prompt behind the hotwords.
abbrev pub behind_hotwords : Text
behind_hotwords = (10 ∷ 10 ∷ []) ++ task_text

unfoldable pub text_prompt : Text → Option Text → Text
text_prompt seconds none = duration_part seconds ++ task_text
text_prompt seconds (some []) = duration_part seconds ++ task_text
text_prompt seconds (some (c ∷ hotwords)) =
    duration_part seconds ++ (codes "with extra info: " ++ ((c ∷ hotwords) ++ behind_hotwords))

abbrev pub audio_url : Text → Text → Text
audio_url audio_mime audio_base64 = codes "data:" ++ audio_mime ++ codes ";base64," ++ audio_base64

abbrev pub one : Text → JsonValue → Members → JsonValue
one key value rest = object (member key value rest)

unfoldable pub content_of : Text → Text → JsonValues
content_of url prompt =
    cons
      (one (codes "type") (string (codes "audio_url"))
        (member (codes "audio_url") (one (codes "url") (string url) end) end))
      (cons (one (codes "type") (string (codes "text")) (member (codes "text") (string prompt) end))
        nil)

abbrev pub system_text : Text
system_text =
    codes
      "You are a helpful assistant that transcribes audio input into text output in JSON format."

unfoldable pub messages_of : JsonValues → JsonValues
messages_of content =
    cons
      (one (codes "role") (string (codes "system"))
        (member (codes "content") (string system_text) end))
      (cons
        (one (codes "role") (string (codes "user")) (member (codes "content") (list content) end))
        nil)

-- The arguments of `stream_transcription`.
pub record VllmRequest : Type 0 where
  pub vllm_base_url : Text
  pub model_name : Text
  pub audio_base64 : Text
  pub audio_mime : Text
  pub seconds : Text
  pub hotwords : Option Text
  pub temperature : JsonValue
  pub top_p : JsonValue

unfoldable pub vllm_payload : VllmRequest → JsonValue
unfolding text_prompt content_of messages_of
vllm_payload r =
    let content =
      content_of (audio_url r.audio_mime r.audio_base64) (text_prompt r.seconds r.hotwords) in
    object (
      member (codes "model") (string r.model_name) (
        member (codes "messages") (list (messages_of content)) (
          member (codes "temperature") r.temperature
            (member (codes "top_p") r.top_p (member (codes "stream") (boolean true) end)))))

abbrev pub vllm_url : VllmRequest → Text
vllm_url r = r.vllm_base_url ++ codes "/v1/chat/completions"

-- The request to Groq: the form's fields and its one file, a name, contents and a type.
pub record GroqRequest : Type 0 where
  pub url : Text
  pub authorization : Text
  pub fields : List (Text × Text)
  pub file_name : Text
  pub file_contents : Text
  pub file_type : Text

-- `if hotwords: data["prompt"] = hotwords`
unfoldable pub prompt_field : Option Text → List (Text × Text)
prompt_field none = []
prompt_field (some []) = []
prompt_field (some (c ∷ hotwords)) = (codes "prompt", c ∷ hotwords) ∷ []

unfoldable pub groq_request : Text → Text → Option Text → Text → GroqRequest
unfolding prompt_field
groq_request api_key model_name hotwords opus_bytes = record {
  url = codes "https://api.groq.com/openai/v1/audio/transcriptions";
  authorization = codes "Bearer " ++ api_key;
  fields =
      (codes "model", model_name)
      ∷ (codes "response_format", codes "json")
      ∷ (codes "temperature", codes "0")
      ∷ prompt_field hotwords;
  file_name = codes "audio.ogg";
  file_contents = opus_bytes;
  file_type = codes "audio/ogg";
}
