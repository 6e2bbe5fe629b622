-- ===== src/Form/Tests.antt =====
-- Small forms and header values, and the theorem of Form at them.
use vibe_voice_vendor.Base.{
  ◌≡◌, refl, ◌↔◌, true, false, none, some, [], ◌∷◌, ◌++◌, Text, codes, text_eq, starts_with, ok,
  err,
}
use vibe_voice_vendor.Form.{
  UploadFile, text, bad_request, has_control_token, token_body, closes, extract_transcribe_form,
}
use vibe_voice_vendor.Form.Fields.{
  audio_field, hotwords_field, IsTranscribeForm, extract_transcribe_form-eq-ok_iff,
}
use vibe_voice_vendor.Identity.{
  require_client_identity, matches_identity, all_lower_hex, identity_required, identity_invalid,
}

fields : Unit {0}
unfolding has_control_token token_body closes extract_transcribe_form text_eq starts_with
    require_client_identity matches_identity all_lower_hex
fields = tt

abbrev pub recording : UploadFile
recording = record { filename = some (codes "a.wav"); content_type = none; contents = 1 ∷ 2 ∷ [] }

abbrev pub words : Text
words = codes "Ada, <|Bob|"

tokens :
    (has_control_token (codes "a<|x|>b") ≡ true)
    × (has_control_token words ≡ false)
    × (has_control_token (codes "<||>") ≡ false)
    × (has_control_token (codes "<|||>") ≡ true)
unfolding fields
tokens = (refl, refl, refl, refl)

forms :
    (extract_transcribe_form (hotwords_field words ∷ audio_field recording ∷ [])
      ≡ ok (recording, some words))
    × (extract_transcribe_form (audio_field recording ∷ audio_field recording ∷ [])
        ≡ err (bad_request (codes "Duplicate audio field")))
    × (extract_transcribe_form [] ≡ err (bad_request (codes "Audio file is required")))
    × (extract_transcribe_form ((codes "x", text []) ∷ [])
        ≡ err (bad_request (codes "Unexpected form field: x")))
unfolding fields
forms = (refl, refl, refl, refl)

extract_transcribe_form-eq-ok_iff_example :
    (extract_transcribe_form (hotwords_field words ∷ audio_field recording ∷ [])
      ≡ ok (recording, some words))
    ↔ IsTranscribeForm (hotwords_field words ∷ audio_field recording ∷ []) recording (some words)
extract_transcribe_form-eq-ok_iff_example =
    extract_transcribe_form-eq-ok_iff (hotwords_field words ∷ audio_field recording ∷ []) recording
      (some words)

abbrev sixteen : Text
sixteen = codes "0123456789abcdef"

abbrev pub identity : Text
identity = sixteen ++ sixteen ++ sixteen ++ sixteen

identities :
    (require_client_identity (identity ∷ []) ≡ ok identity)
    × (require_client_identity (codes "0A" ∷ []) ≡ err identity_invalid)
    × (require_client_identity (identity ∷ identity ∷ []) ≡ err identity_required)
unfolding fields
identities = (refl, refl, refl)
