-- ===== src/Settings.antt =====
-- server/config.py: the settings and their validators, and the options of server/__main__.py that they
-- are made from. An option is what `argparse` gives, which has checked the backend's name and parsed the
-- numbers. pydantic runs every validator and raises one error with all refusals, in the order of
-- the fields.
pub mod Configured
mod Tests
use vibe_voice_vendor.Base.{
  ℕ, ◌*◌, ◌<◌, ◌≤◌, ◌≡◌, ◌≢◌, ◌↔◌, ◌⊎◌, refl, Bool, true, false, not, ◌&&◌, ◌||◌, List, [], ◌∷◌,
  ◌++◌, Text, text_eq, leb, if◌then◌else◌, Result, ok, err, raise_if, ◌>>=◌, ◌>>◌, WholeNumber,
  natural, negative, Float, finite, infinite, nan, text_eq_iff, guard_passed, inl, inr, is_finite,
  below_zero, at_most_zero, at_least, above, Fraction, arith,
}

pub data AsrBackend : Type 0 where
  vibevoice groq : AsrBackend

pub record Settings : Type 0 where
  pub asr_backend : AsrBackend
  pub max_audio_bytes : ℕ
  pub max_queue_size : ℕ
  pub vllm_base_url : Text
  pub vllm_model_name : Text
  pub vllm_temperature : Float
  pub vllm_top_p : Float
  pub groq_api_key : Text
  pub groq_model_name : Text

-- The arguments, as argparse gives them.
pub record Options : Type 0 where
  pub asr_backend : AsrBackend
  pub max_audio_bytes : WholeNumber
  pub max_queue_size : WholeNumber
  pub vllm_base_url : Text
  pub vllm_model_name : Text
  pub vllm_temperature : Float
  pub vllm_top_p : Float
  pub groq_api_key : Text
  pub groq_model_name : Text

pub data Refusal : Type 0 where
  bad_max_audio_bytes bad_max_queue_size bad_temperature bad_top_p : Refusal

-- `value < 1`
abbrev pub below_one : WholeNumber → Bool
below_one negative = true
below_one (natural n) = not (leb 1 n)

abbrev pub value_of : WholeNumber → ℕ
value_of negative = 0
value_of (natural n) = n

abbrev pub refuse_if : Bool → Refusal → List Refusal → List Refusal
refuse_if true e rest = e ∷ rest
refuse_if false e rest = rest

unfoldable pub positive_int : Refusal → WholeNumber → List Refusal → List Refusal
positive_int e value rest = refuse_if (below_one value) e rest

unfoldable pub valid_temperature : Float → List Refusal → List Refusal
valid_temperature value rest =
    refuse_if (not (is_finite value) || below_zero value || at_least 2 value) bad_temperature rest

unfoldable pub valid_top_p : Float → List Refusal → List Refusal
valid_top_p value rest =
    refuse_if (not (is_finite value) || at_most_zero value || above 1 value) bad_top_p rest

unfoldable pub refusals : Options → List Refusal
unfolding positive_int valid_temperature valid_top_p
refusals o = positive_int bad_max_audio_bytes o.max_audio_bytes (
    positive_int bad_max_queue_size o.max_queue_size
      (valid_temperature o.vllm_temperature (valid_top_p o.vllm_top_p [])))

abbrev pub settings_of : Options → Settings
settings_of o = record {
  asr_backend = o.asr_backend;
  max_audio_bytes = value_of o.max_audio_bytes;
  max_queue_size = value_of o.max_queue_size;
  vllm_base_url = o.vllm_base_url;
  vllm_model_name = o.vllm_model_name;
  vllm_temperature = o.vllm_temperature;
  vllm_top_p = o.vllm_top_p;
  groq_api_key = o.groq_api_key;
  groq_model_name = o.groq_model_name;
}

-- `parser.error`, which exits with 2, or the ValidationError.
pub data StartError : Type 0 where
  no_vllm_base_url no_groq_api_key : StartError
  validation_error : List Refusal → StartError

unfoldable pub accepted_or_raise : List Refusal → Settings → Result StartError Settings
accepted_or_raise [] s = ok s
accepted_or_raise (e ∷ es) s = err (validation_error (e ∷ es))

abbrev pub is_vibevoice : AsrBackend → Bool
is_vibevoice vibevoice = true
is_vibevoice groq = false

abbrev pub is_groq : AsrBackend → Bool
is_groq vibevoice = false
is_groq groq = true

-- `main` from the parsed arguments to the settings.
unfoldable pub configure : Options → Result StartError Settings
unfolding refusals accepted_or_raise
configure o = do
  raise_if (is_vibevoice o.asr_backend && text_eq o.vllm_base_url []) no_vllm_base_url
  raise_if (is_groq o.asr_backend && text_eq o.groq_api_key []) no_groq_api_key
  accepted_or_raise (refusals o) (settings_of o)
