-- ===== src/Backend.antt =====
-- The speech recognition backends: server/transcribe.py, server/vllm_client.py and
-- server/groq_client.py. Here is what they share: JSON values as Python has them after `json.loads`,
-- and `_validate_vibevoice_output`, the check of the whole output of the VibeVoice model. `json.loads`
-- is an argument: it gives a value or, where it raises, nothing. The texts of the messages are left
-- out: which of them the job is given is the result.
pub mod Segments
pub mod Vllm
pub mod Groq
pub mod Process
pub mod Requests
pub mod Tests
use vibe_voice_vendor.Base.{
  ℕ, suc, Bool, true, false, not, ◌||◌, Option, none, some, List, [], ◌∷◌, Text, codes, text_eq,
  strip, Result, ok, err, raise_if, ◌>>=◌, ◌>>◌,
}

-- A number has its text and whether it is zero.
mutual
  pub data JsonValue : Type 0 where
    list : JsonValues → JsonValue
    object : Members → JsonValue
    string : Text → JsonValue
    number : Text → Bool → JsonValue
    boolean : Bool → JsonValue
    null : JsonValue

  pub data JsonValues : Type 0 where
    nil : JsonValues
    cons : JsonValue → JsonValues → JsonValues

  pub data Members : Type 0 where
    end : Members
    member : Text → JsonValue → Members → Members

-- The messages, in the order of the tests; those of a segment have its index.
pub data OutputError : Type 0 where
  empty_output not_json not_list : OutputError
  segment_not_object missing_content : ℕ → OutputError

-- `key in value`, for an object
unfoldable pub has_key : Text → Members → Bool
has_key key end = false
has_key key (member k v ms) = text_eq key k || has_key key ms

unfoldable pub check_segment : ℕ → JsonValue → Result OutputError (Unit {0})
unfolding has_key
check_segment i (object ms) = raise_if (not (has_key (codes "Content") ms)) (missing_content i)
check_segment i (list vs) = err (segment_not_object i)
check_segment i (string t) = err (segment_not_object i)
check_segment i (number t zero) = err (segment_not_object i)
check_segment i (boolean b) = err (segment_not_object i)
check_segment i null = err (segment_not_object i)

unfoldable pub check_segments : ℕ → JsonValues → Result OutputError (Unit {0})
unfolding check_segment
check_segments i nil = ok tt
check_segments i (cons v vs) = check_segment i v >> check_segments (suc i) vs

unfoldable pub check_parsed : Option JsonValue → Result OutputError (Unit {0})
unfolding check_segments
check_parsed none = err not_json
check_parsed (some (list segments)) = check_segments 0 segments
check_parsed (some (object ms)) = err not_list
check_parsed (some (string t)) = err not_list
check_parsed (some (number t zero)) = err not_list
check_parsed (some (boolean b)) = err not_list
check_parsed (some null) = err not_list

unfoldable pub check_trimmed : (Text → Option JsonValue) → Text → Result OutputError (Unit {0})
unfolding check_parsed
check_trimmed loads [] = err empty_output
check_trimmed loads (c ∷ trimmed) = check_parsed (loads (c ∷ trimmed))

unfoldable pub validate_vibevoice_output :
    (Text → Option JsonValue) → Text → Result OutputError (Unit {0})
unfolding check_trimmed
validate_vibevoice_output loads raw = check_trimmed loads (strip raw)
