-- ===== src/Settings/Configured.antt =====
-- Which options the server starts with.
use vibe_voice_vendor.Base.{
  ap, sym, ◌∙◌, ℕ, ◌*◌, ◌<◌, ◌≤◌, ◌≡◌, ◌≢◌, ◌↔◌, ◌⊎◌, refl, Bool, true, false, not, ◌&&◌, ◌||◌,
  List, [], ◌∷◌, text_eq, ok, raise_if, WholeNumber, natural, negative, Float, finite, infinite,
  nan, text_eq_iff, guard_passed, inl, inr, is_finite, below_zero, at_most_zero, at_least, above,
  arith,
}
use vibe_voice_vendor.Settings.{
  AsrBackend, vibevoice, groq, Settings, Options, Refusal, below_one, refuse_if, refusals,
  settings_of, value_of, StartError, no_vllm_base_url, no_groq_api_key, accepted_or_raise,
  is_vibevoice, is_groq, configure,
}

-- A float from 0, and one above 0, with its value as a quotient; -0.0 is 0.
abbrev pub IsTemperature : Float → Type 0
IsTemperature (finite below x) =
    ((below ≡ true) × (x.num ≡ 0)) ⊎ ((below ≡ false) × (x.num < 2 * x.den))
IsTemperature (infinite below) = ⊥
IsTemperature nan = ⊥

abbrev pub IsTopP : Float → Type 0
IsTopP (finite below x) = (below ≡ false) × (0 < x.num) × (x.num ≤ x.den)
IsTopP (infinite below) = ⊥
IsTopP nan = ⊥

abbrev pub HasBackend : Options → AsrBackend → Type 0
HasBackend o vibevoice = o.vllm_base_url ≢ []
HasBackend o groq = o.groq_api_key ≢ []

pub record IsConfigured (o : Options) (s : Settings) : Type 0 where
  pub has_backend : HasBackend o o.asr_backend
  pub audio_bytes : ℕ
  pub is_audio_bytes : o.max_audio_bytes ≡ natural audio_bytes
  pub some_audio : 1 ≤ audio_bytes
  pub queue_size : ℕ
  pub is_queue_size : o.max_queue_size ≡ natural queue_size
  pub some_room : 1 ≤ queue_size
  pub temperature : IsTemperature o.vllm_temperature
  pub top_p : IsTopP o.vllm_top_p
  pub same_backend : s.asr_backend ≡ o.asr_backend
  pub same_audio_bytes : s.max_audio_bytes ≡ audio_bytes
  pub same_queue_size : s.max_queue_size ≡ queue_size
  pub same_url : s.vllm_base_url ≡ o.vllm_base_url
  pub same_vllm_model : s.vllm_model_name ≡ o.vllm_model_name
  pub same_temperature : s.vllm_temperature ≡ o.vllm_temperature
  pub same_top_p : s.vllm_top_p ≡ o.vllm_top_p
  pub same_key : s.groq_api_key ≡ o.groq_api_key
  pub same_groq_model : s.groq_model_name ≡ o.groq_model_name

below_one-eq_false : (w : WholeNumber) → below_one w ≡ false → (n : ℕ) × (w ≡ natural n) × (1 ≤ n)
below_one-eq_false negative h = ground arith
below_one-eq_false (natural n) h = (n, refl, ground arith)

IsTemperature-iff :
    (x : Float) → ((not (is_finite x) || below_zero x || at_least 2 x) ≡ false) ↔ IsTemperature x
IsTemperature-iff nan = ground arith
IsTemperature-iff (infinite b) = ground arith
IsTemperature-iff (finite true x) = (λ h. inl (refl, ground arith), λ h. ground arith)
IsTemperature-iff (finite false x) = (λ h. inr (refl, ground arith), λ h. ground arith)

IsTopP-iff : (x : Float) → ((not (is_finite x) || at_most_zero x || above 1 x) ≡ false) ↔ IsTopP x
IsTopP-iff nan = ground arith
IsTopP-iff (infinite b) = ground arith
IsTopP-iff (finite true x) = ground arith
IsTopP-iff (finite false x) = (λ h. (refl, ground arith, ground arith), λ h. ground arith)

refuse_if-nil :
    (b : Bool) (e : Refusal) (rest : List Refusal)
    → refuse_if b e rest ≡ []
    → (b ≡ false) × (rest ≡ [])
refuse_if-nil true e rest h = ground arith
refuse_if-nil false e rest h = (refl, h)

record PassesAll (o : Options) : Type 0 where
  audio : below_one o.max_audio_bytes ≡ false
  room : below_one o.max_queue_size ≡ false
  temperature :
      (not (is_finite o.vllm_temperature)
        || below_zero o.vllm_temperature
        || at_least 2 o.vllm_temperature)
      ≡ false
  top_p :
      (not (is_finite o.vllm_top_p) || at_most_zero o.vllm_top_p || above 1 o.vllm_top_p) ≡ false

refusals-nil : (o : Options) → refusals o ≡ [] → PassesAll o
unfolding refusals
refusals-nil o h =
    let (audio, h1) = refuse_if-nil _ _ _ h in
    let (room, h2) = refuse_if-nil _ _ _ h1 in
    let (temperature, h3) = refuse_if-nil _ _ _ h2 in
    let (top_p, h4) = refuse_if-nil _ _ _ h3 in
    record { audio = audio; room = room; temperature = temperature; top_p = top_p }

accepted_inversion :
    (es : List Refusal) (s t : Settings) → accepted_or_raise es s ≡ ok t → (es ≡ []) × (t ≡ s)
unfolding accepted_or_raise
accepted_inversion [] s t h = (refl, ground arith)
accepted_inversion (e ∷ es) s t h = ground arith

has_backend :
    (o : Options) (backend : AsrBackend)
    → raise_if {E = StartError}
        (is_vibevoice backend && text_eq o.vllm_base_url [])
        no_vllm_base_url
      ≡ ok tt
    → raise_if {E = StartError} (is_groq backend && text_eq o.groq_api_key []) no_groq_api_key
      ≡ ok tt
    → HasBackend o backend
has_backend o vibevoice g h = λ e. ground (arith, text_eq_iff o.vllm_base_url [])
has_backend o groq g h = λ e. ground (arith, text_eq_iff o.groq_api_key [])

configure_sound : (o : Options) (s : Settings) → configure o ≡ ok s → IsConfigured o s
unfolding configure
configure_sound o s h =
    let (vllm, h1) =
      guard_passed
        (raise_if (is_vibevoice o.asr_backend && text_eq o.vllm_base_url []) no_vllm_base_url) h in
    let (key_given, h2) =
      guard_passed (raise_if (is_groq o.asr_backend && text_eq o.groq_api_key []) no_groq_api_key)
        h1 in
    let (none_refused, same) = accepted_inversion (refusals o) (settings_of o) s h2 in
    let passes = refusals-nil o none_refused in
    let (bytes, is_bytes, some_audio) = below_one-eq_false o.max_audio_bytes passes.audio in
    let (size, is_size, some_room) = below_one-eq_false o.max_queue_size passes.room in
    record {
      has_backend = has_backend o o.asr_backend vllm key_given;
      audio_bytes = bytes;
      is_audio_bytes = is_bytes;
      some_audio = some_audio;
      queue_size = size;
      is_queue_size = is_size;
      some_room = some_room;
      temperature = (IsTemperature-iff o.vllm_temperature).0 passes.temperature;
      top_p = (IsTopP-iff o.vllm_top_p).0 passes.top_p;
      same_backend = ap (λ (t : Settings). t.asr_backend) same;
      same_audio_bytes = ap (λ (t : Settings). t.max_audio_bytes) same ∙ ap value_of is_bytes;
      same_queue_size = ap (λ (t : Settings). t.max_queue_size) same ∙ ap value_of is_size;
      same_url = ap (λ (t : Settings). t.vllm_base_url) same;
      same_vllm_model = ap (λ (t : Settings). t.vllm_model_name) same;
      same_temperature = ap (λ (t : Settings). t.vllm_temperature) same;
      same_top_p = ap (λ (t : Settings). t.vllm_top_p) same;
      same_key = ap (λ (t : Settings). t.groq_api_key) same;
      same_groq_model = ap (λ (t : Settings). t.groq_model_name) same;
    }

backend_given :
    (o : Options) (backend : AsrBackend)
    → HasBackend o backend
    → ((is_vibevoice backend && text_eq o.vllm_base_url []) ≡ false)
      × ((is_groq backend && text_eq o.groq_api_key []) ≡ false)
backend_given o vibevoice h = (ground (arith, text_eq_iff o.vllm_base_url []), refl)
backend_given o groq h = (refl, ground (arith, text_eq_iff o.groq_api_key []))

at_least_one : (w : WholeNumber) (n : ℕ) → w ≡ natural n → 1 ≤ n → below_one w ≡ false
at_least_one w n e h = ground arith

refusals-eq_nil : (o : Options) (s : Settings) → IsConfigured o s → refusals o ≡ []
unfolding refusals
refusals-eq_nil o s w =
    rw
      (
        at_least_one o.max_audio_bytes w.audio_bytes w.is_audio_bytes w.some_audio,
        at_least_one o.max_queue_size w.queue_size w.is_queue_size w.some_room,
        (IsTemperature-iff o.vllm_temperature).1 w.temperature,
        (IsTopP-iff o.vllm_top_p).1 w.top_p,
      )
      refl

-- Settings that are given by their fields.
IsConfigured-settings_of : (o : Options) (s : Settings) → IsConfigured o s → s ≡ settings_of o
IsConfigured-settings_of o s w = λ i. record {
  asr_backend = w.same_backend i;
  max_audio_bytes = (w.same_audio_bytes ∙ sym (ap value_of w.is_audio_bytes)) i;
  max_queue_size = (w.same_queue_size ∙ sym (ap value_of w.is_queue_size)) i;
  vllm_base_url = w.same_url i;
  vllm_model_name = w.same_vllm_model i;
  vllm_temperature = w.same_temperature i;
  vllm_top_p = w.same_top_p i;
  groq_api_key = w.same_key i;
  groq_model_name = w.same_groq_model i;
}

configure_complete : (o : Options) (s : Settings) → IsConfigured o s → configure o ≡ ok s
unfolding configure accepted_or_raise
configure_complete o s w =
    let (url_given, key_given) = backend_given o o.asr_backend w.has_backend in
    rw (url_given, key_given, refusals-eq_nil o s w) (ap ok (sym (IsConfigured-settings_of o s w)))

-- The server starts with its options exactly if the backend that is chosen has its URL or its key, both
-- sizes are positive, the temperature is finite, at least 0 and below 2, and top-p is finite, above 0 and
-- at most 1; and then it has them as they were given.
pub configure-ok_iff : (o : Options) (s : Settings) → (configure o ≡ ok s) ↔ IsConfigured o s
configure-ok_iff o s = (configure_sound o s, configure_complete o s)
