-- ===== src/Form/Fields.antt =====
-- Which forms the route takes.
use vibe_voice_vendor.Base.{
  ◌≡◌, refl, ◌↔◌, ◌⊎◌, inl, inr, true, false, Option, none, some, [], ◌∷◌, Text, codes, text_eq,
  text_eq_iff, arith, Result, ok, err, ◌>>=◌, ◌∙◌,
}
use vibe_voice_vendor.Http.{HttpException}
use vibe_voice_vendor.Form.{
  UploadFile, FormValue, file, text, FormData, Seen, nothing_seen, has_control_token, extract_field,
  extract_fields, audio_of, extract_transcribe_form,
}

abbrev pub audio_field : UploadFile → Text × FormValue
audio_field f = (codes "audio", file f)

abbrev pub hotwords_field : Text → Text × FormValue
hotwords_field t = (codes "hotwords", text t)

-- One file named "audio" and nothing else, or with it, on either side, one text named "hotwords"
-- that has no control token.
abbrev pub IsTranscribeForm : FormData → UploadFile → Option Text → Type 0
IsTranscribeForm form f none = form ≡ audio_field f ∷ []
IsTranscribeForm form f (some t) =
    ((form ≡ audio_field f ∷ hotwords_field t ∷ [])
      ⊎ (form ≡ hotwords_field t ∷ audio_field f ∷ []))
    × (has_control_token t ≡ false)

-- What one field does to the variables, on the two branches that do not raise.
data Takes (name : Text) (value : FormValue) (seen after : Seen) : Type 0 where
  takes_audio :
      (f : UploadFile)
      → name ≡ codes "audio"
      → value ≡ file f
      → seen.seen_audio ≡ false
      → after ≡ record seen { seen_audio = true; audio = some f }
      → Takes name value seen after
  takes_hotwords :
      (t : Text)
      → name ≡ codes "hotwords"
      → value ≡ text t
      → seen.seen_hotwords ≡ false
      → has_control_token t ≡ false
      → after ≡ record seen { seen_hotwords = true; hotwords = some t }
      → Takes name value seen after

extract_field_sound :
    (name : Text) (value : FormValue) (seen after : Seen)
    → extract_field name value seen ≡ ok after
    → Takes name value seen after
unfolding extract_field
extract_field_sound name (file f) seen after h =
    takes_audio f (ground (arith, text_eq_iff name (codes "audio"))) refl (ground arith)
      (ground arith)
extract_field_sound name (text t) seen after h =
    takes_hotwords t (ground (arith, text_eq_iff name (codes "hotwords"))) refl (ground arith)
      (ground arith) (ground arith)

bind_inversion :
    (r : Result HttpException Seen) (items : FormData) (final : Seen)
    → (r >>= extract_fields items) ≡ ok final
    → (after : Seen) × (r ≡ ok after) × (extract_fields items after ≡ ok final)
bind_inversion (ok a) items final h = (a, refl, h)
bind_inversion (err e) items final h = ground arith

module _ (name : Text) (value : FormValue) (items : FormData) (seen final : Seen) where
  extract_fields_cons :
      extract_fields ((name, value) ∷ items) seen ≡ ok final
      → (after : Seen) × Takes name value seen after × (extract_fields items after ≡ ok final)
  unfolding extract_fields
  extract_fields_cons h =
      let found = bind_inversion (extract_field name value seen) items final h in
      (found.0, extract_field_sound name value seen found.0 found.1, found.2)

-- Nothing may follow both fields.
both_seen :
    (items : FormData) (seen final : Seen)
    → seen.seen_audio ≡ true
    → seen.seen_hotwords ≡ true
    → extract_fields items seen ≡ ok final
    → (items ≡ []) × (final ≡ seen)
unfolding extract_fields
both_seen [] seen final a b h = (refl, ground arith)
both_seen ((name, value) ∷ items) seen final a b h =
    elim (extract_fields_cons name value items seen final h).1 [
      | takes_audio f n v s e ↦ ground arith
      | takes_hotwords t n v s c e ↦ ground arith
    ]

-- After the file, nothing or the hotwords.
audio_seen :
    (items : FormData) (seen final : Seen)
    → seen.seen_audio ≡ true
    → seen.seen_hotwords ≡ false
    → extract_fields items seen ≡ ok final
    → ((items ≡ []) × (final ≡ seen))
      ⊎ ((t : Text) × (items ≡ hotwords_field t ∷ [])
          × (has_control_token t ≡ false)
          × (final ≡ record seen { seen_hotwords = true; hotwords = some t }))
unfolding extract_fields
audio_seen [] seen final a b h = inl (refl, ground arith)
audio_seen ((name, value) ∷ items) seen final a b h =
    let found = extract_fields_cons name value items seen final h in
    elim found.1 [
      | takes_audio f n v s e ↦ ground arith
      | takes_hotwords t n v s c e ↦
          let rest = both_seen items found.0 final (ground arith) (ground arith) found.2 in
          inr (t, ground (arith, rest.0), c, rest.1 ∙ e)
    ]

-- After the hotwords, nothing or the file.
hotwords_seen :
    (items : FormData) (seen final : Seen)
    → seen.seen_audio ≡ false
    → seen.seen_hotwords ≡ true
    → extract_fields items seen ≡ ok final
    → ((items ≡ []) × (final ≡ seen))
      ⊎ ((f : UploadFile) × (items ≡ audio_field f ∷ [])
          × (final ≡ record seen { seen_audio = true; audio = some f }))
unfolding extract_fields
hotwords_seen [] seen final a b h = inl (refl, ground arith)
hotwords_seen ((name, value) ∷ items) seen final a b h =
    let found = extract_fields_cons name value items seen final h in
    elim found.1 [
      | takes_audio f n v s e ↦
          let rest = both_seen items found.0 final (ground arith) (ground arith) found.2 in
          inr (f, ground (arith, rest.0), rest.1 ∙ e)
      | takes_hotwords t n v s c e ↦ ground arith
    ]

-- What a form was whose fields were all taken.
data Shape (form : FormData) (final : Seen) : Type 0 where
  no_file : final.audio ≡ none → Shape form final
  file_only :
      (f : UploadFile)
      → form ≡ audio_field f ∷ []
      → final.audio ≡ some f
      → final.hotwords ≡ none
      → Shape form final
  file_and_hotwords :
      (f : UploadFile) (t : Text)
      → (form ≡ audio_field f ∷ hotwords_field t ∷ [])
        ⊎ (form ≡ hotwords_field t ∷ audio_field f ∷ [])
      → has_control_token t ≡ false
      → final.audio ≡ some f
      → final.hotwords ≡ some t
      → Shape form final

fields-Shape :
    (form : FormData) (final : Seen)
    → extract_fields form nothing_seen ≡ ok final
    → Shape form final
unfolding extract_fields
fields-Shape [] final h = no_file (ground arith)
fields-Shape ((name, value) ∷ items) final h =
    let found = extract_fields_cons name value items nothing_seen final h in
    elim found.1 [
      | takes_audio f n v s e ↦
          elim (audio_seen items found.0 final (ground arith) (ground arith) found.2) [
            | inl (none_left, k) ↦ file_only f (ground arith) (ground arith) (ground arith)
            | inr (t, one_left, c, k) ↦
                file_and_hotwords f t (inl (ground arith)) c (ground arith) (ground arith)
          ]
      | takes_hotwords t n v s c e ↦
          elim (hotwords_seen items found.0 final (ground arith) (ground arith) found.2) [
            | inl (none_left, k) ↦ no_file (ground arith)
            | inr (f, one_left, k) ↦
                file_and_hotwords f t (inr (ground arith)) c (ground arith) (ground arith)
          ]
    ]

abbrev finish : Seen → Result HttpException (UploadFile × Option Text)
finish seen = audio_of seen.audio >>= λ f. ok (f, seen.hotwords)

Shape-sound :
    (form : FormData) (final : Seen) (g : UploadFile) (h : Option Text)
    → Shape form final
    → finish final ≡ ok (g, h)
    → IsTranscribeForm form g h
unfolding audio_of
Shape-sound form final g h (no_file a) e = ground arith
Shape-sound form final g none (file_only f l a b) e = ground arith
Shape-sound form final g (some u) (file_only f l a b) e = ground arith
Shape-sound form final g none (file_and_hotwords f t l c a b) e = ground arith
Shape-sound form final g (some u) (file_and_hotwords f t (inl l) c a b) e =
    (inl (ground arith), ground arith)
Shape-sound form final g (some u) (file_and_hotwords f t (inr l) c a b) e =
    (inr (ground arith), ground arith)

bind_sound :
    (form : FormData) (r : Result HttpException Seen) (g : UploadFile) (h : Option Text)
    → extract_fields form nothing_seen ≡ r
    → (r >>= finish) ≡ ok (g, h)
    → IsTranscribeForm form g h
bind_sound form (ok final) g h e k = Shape-sound form final g h (fields-Shape form final e) k
bind_sound form (err x) g h e k = ground arith

form_complete :
    (form : FormData) (f : UploadFile) (h : Option Text)
    → IsTranscribeForm form f h
    → extract_transcribe_form form ≡ ok (f, h)
unfolding extract_transcribe_form text_eq
form_complete form f none w = rw w refl
form_complete form f (some t) (inl w, c) = rw (w, c) refl
form_complete form f (some t) (inr w, c) = rw (w, c) refl

-- The route takes a form exactly if it has one file named "audio" and at most one text named
-- "hotwords", in either order, nothing else, and the text has no control token; and then it has that
-- file and that text. In particular a repeated, an unknown or an ill-typed field is refused.
pub extract_transcribe_form-eq-ok_iff :
    (form : FormData) (f : UploadFile) (hotwords : Option Text)
    → (extract_transcribe_form form ≡ ok (f, hotwords)) ↔ IsTranscribeForm form f hotwords
unfolding extract_transcribe_form
extract_transcribe_form-eq-ok_iff form f hotwords = (
  bind_sound form (extract_fields form nothing_seen) f hotwords refl,
  form_complete form f hotwords,
)
