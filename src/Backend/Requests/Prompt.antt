-- ===== src/Backend/Requests/Prompt.antt =====
-- The hotwords in the prompt of the model: from the form of the request to the payload.
use vibe_voice_vendor.Base.{
  ℕ, zero, suc, ◌≡◌, refl, ◌≢◌, ◌∙◌, false, Option, none, some, [], ◌∷◌, ◌++◌, Text, codes,
  starts_with, ◌==◌, contains_char, ok, arith,
}
use vibe_voice_vendor.Form.{
  FormData, UploadFile, closes, token_body, has_control_token, extract_transcribe_form,
}
use vibe_voice_vendor.Form.Fields.{IsTranscribeForm, extract_transcribe_form-eq-ok_iff}
use vibe_voice_vendor.Backend.Requests.{task_text, duration_part, behind_hotwords, text_prompt}

-- A pair of characters without a line end is found in front of a line end or not at all.
starts_with-line :
    (a b : ℕ) (s t : Text)
    → a ≢ 10
    → b ≢ 10
    → starts_with (s ++ (10 ∷ t)) (a ∷ b ∷ []) ≡ starts_with s (a ∷ b ∷ [])
unfolding starts_with
starts_with-line a b [] t ha hb = ground arith
starts_with-line a b (c ∷ []) t ha hb = ground arith
starts_with-line a b (c ∷ d ∷ s) t ha hb = refl

closes-line : (n : ℕ) (s t : Text) → closes n (s ++ (10 ∷ t)) ≡ closes n s
unfolding closes
closes-line zero s t = starts_with-line b'|' b'>' s t (omega arith) (omega arith)
closes-line (suc n) [] t = unfold starts_with in refl
closes-line (suc n) (c ∷ s) t =
    ground
      (arith, starts_with-line b'|' b'>' (c ∷ s) t (omega arith) (omega arith), closes-line n s t)

token_body-line : (s t : Text) → token_body (s ++ (10 ∷ t)) ≡ token_body s
unfolding token_body
token_body-line [] t = refl
token_body-line (c ∷ s) t = ground (arith, closes-line 127 s t)

has_control_token-line :
    (s t : Text)
    → has_control_token t ≡ false
    → has_control_token (s ++ (10 ∷ t)) ≡ has_control_token s
unfolding has_control_token
has_control_token-line [] t h = unfold starts_with in h
has_control_token-line (c ∷ []) t h = unfold starts_with in ground (arith, h)
has_control_token-line (c ∷ d ∷ s) t h = ground (
  arith,
  starts_with-line b'<' b'|' (c ∷ d ∷ s) t (omega arith) (omega arith),
  token_body-line s t,
  has_control_token-line (d ∷ s) t h,
)

no_token_here : (c : ℕ) (s : Text) → (b'<' == c) ≡ false → starts_with (c ∷ s) (codes "<|") ≡ false
unfolding starts_with
no_token_here c s h = ground arith

-- No token begins in a text without "<".
has_control_token-skip :
    (p s : Text) → contains_char b'<' p ≡ false → has_control_token (p ++ s) ≡ has_control_token s
unfolding has_control_token
has_control_token-skip [] s h = refl
has_control_token-skip (c ∷ p) s h =
    ground (arith, no_token_here c (p ++ s), has_control_token-skip p s)

contains_char-append :
    (c : ℕ) (s t : Text)
    → contains_char c s ≡ false
    → contains_char c t ≡ false
    → contains_char c (s ++ t) ≡ false
contains_char-append c [] t hs ht = ht
contains_char-append c (d ∷ s) t hs ht = ground (arith, contains_char-append c s t)

plain-has_no_token : (s : Text) → contains_char b'<' s ≡ false → has_control_token s ≡ false
unfolding has_control_token
plain-has_no_token [] h = refl
plain-has_no_token (c ∷ s) h = ground (arith, no_token_here c s, plain-has_no_token s)

module _ (seconds : Text) (plain : contains_char b'<' seconds ≡ false) where
  duration_part-plain : contains_char b'<' (duration_part seconds) ≡ false
  duration_part-plain =
      contains_char-append b'<' (codes "This is a " ++ seconds) (codes " seconds audio, ")
        (contains_char-append b'<' (codes "This is a ") seconds refl plain) refl

  with_hotwords :
      (hotwords : Text)
      → has_control_token hotwords ≡ false
      → has_control_token
          (duration_part seconds ++ (codes "with extra info: " ++ (hotwords ++ behind_hotwords)))
        ≡ false
  with_hotwords hotwords clean =
      has_control_token-skip (duration_part seconds)
        (codes "with extra info: " ++ (hotwords ++ behind_hotwords)) duration_part-plain
      ∙ has_control_token-skip (codes "with extra info: ") (hotwords ++ behind_hotwords) refl
      ∙ has_control_token-line hotwords (10 ∷ task_text) (plain-has_no_token (10 ∷ task_text) refl)
      ∙ clean

  text_prompt_clean :
      (form : FormData) (f : UploadFile) (hotwords : Option Text)
      → IsTranscribeForm form f hotwords
      → has_control_token (text_prompt seconds hotwords) ≡ false
  unfolding text_prompt
  text_prompt_clean form f none w =
      plain-has_no_token (duration_part seconds ++ task_text)
        (contains_char-append b'<' (duration_part seconds) task_text duration_part-plain refl)
  text_prompt_clean form f (some []) w =
      plain-has_no_token (duration_part seconds ++ task_text)
        (contains_char-append b'<' (duration_part seconds) task_text duration_part-plain refl)
  text_prompt_clean form f (some (c ∷ hotwords)) w = with_hotwords (c ∷ hotwords) w.1

-- The prompt that the model is given has no control token, whatever form the route has taken: neither in
-- the hotwords nor across their ends. It is assumed that a printed duration has no "<".
pub text_prompt-has_control_token :
    (seconds : Text) (form : FormData) (f : UploadFile) (hotwords : Option Text)
    → contains_char b'<' seconds ≡ false
    → extract_transcribe_form form ≡ ok (f, hotwords)
    → has_control_token (text_prompt seconds hotwords) ≡ false
text_prompt-has_control_token seconds form f hotwords plain taken =
    text_prompt_clean seconds plain form f hotwords
      ((extract_transcribe_form-eq-ok_iff form f hotwords).0 taken)
