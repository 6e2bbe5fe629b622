-- ===== src/Json.antt =====
-- The JSON library (Python's json and pydantic), which is not part of the repository, as far as the
-- event stream uses it: a record of its functions and one of what the code relies on.
use vibe_voice_vendor.Base.{ℕ, ◌≡◌, ◌≢◌, Option, some, List, [], ◌∷◌, Text, codes, All, Fraction}
use vibe_voice_vendor.Models.{JobId, QueuePositionEvent}

-- What the server puts into an event.
pub data Payload : Type 0 where
  queue_payload : QueuePositionEvent → Payload
  chunk_payload error_payload : Text → Payload
  done_payload : JobId → Payload

-- A member's value as Python has it; `other_value` stands for null, a Boolean or a container.
pub data FieldValue : Type 0 where
  string other_value : Text → FieldValue
  integer : ℕ → FieldValue
  real : Fraction → FieldValue

abbrev pub Object : Type 0
Object = List (Text × FieldValue)

-- `dumps` is json.dumps and `model_dump_json`; `loads` is the client's `_json_or_none`, `none` where
-- the text is no JSON or no object; `str_of`, `int_of` and `float_of` are Python's `str`, `int` and
-- `float`, `none` where these raise; `hex` is `UUID.hex`.
pub record JsonLibrary : Type 0 where
  pub dumps : Payload → Text
  pub loads : Text → Option Object
  pub str_of : FieldValue → Text
  pub int_of : FieldValue → Option ℕ
  pub float_of : FieldValue → Option Fraction
  pub hex : JobId → Text

-- The members of the payload's object.
abbrev pub object_of : JsonLibrary → Payload → Object
object_of json (queue_payload e) =
    (codes "job_id", string (json.hex e.job_id))
    ∷ (codes "position", integer e.position)
    ∷ (codes "estimated_wait_seconds", real e.estimated_wait_seconds)
    ∷ []
object_of json (chunk_payload t) = (codes "text", string t) ∷ []
object_of json (error_payload t) = (codes "error", string t) ∷ []
object_of json (done_payload id) = (codes "job_id", string (json.hex id)) ∷ []

-- Not a line end.
abbrev pub IsPlain : ℕ → Type 0
IsPlain c = (c ≢ 10) × (c ≢ 13)

-- What is printed reads back as the same members, and is printed on one line; a string is its own
-- `str`, and so on for the numbers.
pub record IsJson (json : JsonLibrary) : Type 0 where
  pub one_line : (p : Payload) → All IsPlain (json.dumps p)
  pub loads_dumps : (p : Payload) → json.loads (json.dumps p) ≡ some (object_of json p)
  pub str_string : (t : Text) → json.str_of (string t) ≡ t
  pub int_integer : (n : ℕ) → json.int_of (integer n) ≡ some n
  pub float_real : (x : Fraction) → json.float_of (real x) ≡ some x
