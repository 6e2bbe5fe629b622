-- ===== src/Backend/Segments.antt =====
-- Which outputs of the model pass.
use vibe_voice_vendor.Base.{
  ℕ, suc, ◌≡◌, ◌≢◌, refl, ap, ◌↔◌, ◌⊎◌, true, Option, some, [], ◌∷◌, Text, codes, text_eq_iff,
  strip, arith, Result, ok, err, ◌>>◌, ◌∙◌,
}
use vibe_voice_vendor.Backend.{
  JsonValue, list, object, JsonValues, nil, cons, Members, end, member, OutputError, has_key,
  check_segment, check_segments, check_parsed, check_trimmed, validate_vibevoice_output,
}

abbrev pub KeyIn : Text → Members → Type 0
KeyIn key end = ⊥
KeyIn key (member k v ms) = (key ≡ k) ⊎ KeyIn key ms

-- An object with a member "Content".
abbrev pub IsSegment : JsonValue → Type 0
IsSegment v = (ms : Members) × (v ≡ object ms) × KeyIn (codes "Content") ms

abbrev pub AllSegments : JsonValues → Type 0
AllSegments nil = Unit
AllSegments (cons v vs) = IsSegment v × AllSegments vs

has_key_iff : (key : Text) (ms : Members) → (has_key key ms ≡ true) ↔ KeyIn key ms
unfolding has_key
has_key_iff key end = ground arith
has_key_iff key (member k v ms) = ground (arith, text_eq_iff key k, has_key_iff key ms)

check_segment-ok_iff : (i : ℕ) (v : JsonValue) → (check_segment i v ≡ ok tt) ↔ IsSegment v
unfolding check_segment
check_segment-ok_iff i (object ms) = (
  λ h. (ms, refl, ground (arith, has_key_iff (codes "Content") ms)),
  λ w.
      ground (arith, w.1, w.2, has_key_iff (codes "Content") w.0, has_key_iff (codes "Content") ms),
)
check_segment-ok_iff i v = ((λ h. ground arith), λ w. ground (arith, w.1))

then_ok_iff :
    (m n : Result OutputError (Unit {0})) → ((m >> n) ≡ ok tt) ↔ ((m ≡ ok tt) × (n ≡ ok tt))
then_ok_iff (ok tt) n = ((λ h. (refl, h)), λ w. w.1)
then_ok_iff (err e) n = ((λ h. ground arith), λ w. ground (arith, w.0))

check_segments-ok_iff : (i : ℕ) (vs : JsonValues) → (check_segments i vs ≡ ok tt) ↔ AllSegments vs
unfolding check_segments
check_segments-ok_iff i nil = ((λ h. tt), λ w. refl)
check_segments-ok_iff i (cons v vs) =
    let both = then_ok_iff (check_segment i v) (check_segments (suc i) vs) in
    let here = check_segment-ok_iff i v in
    let rest = check_segments-ok_iff (suc i) vs in
    (λ h. (here.0 (both.0 h).0, rest.0 (both.0 h).1), λ w. both.1 (here.1 w.0, rest.1 w.1))

-- What is left of the output after `strip` parses as a list of segments.
pub record IsOutput (loads : Text → Option JsonValue) (trimmed : Text) : Type 0 where
  pub non_empty : trimmed ≢ []
  pub segments : JsonValues
  pub is_list : loads trimmed ≡ some (list segments)
  pub all_segments : AllSegments segments

check_parsed_sound :
    (parsed : Option JsonValue)
    → check_parsed parsed ≡ ok tt
    → (segments : JsonValues) × (parsed ≡ some (list segments)) × AllSegments segments
unfolding check_parsed
check_parsed_sound (some (list segments)) h =
    (segments, refl, (check_segments-ok_iff 0 segments).0 h)
check_parsed_sound _ h = ground arith

validate_sound :
    (loads : Text → Option JsonValue) (trimmed : Text)
    → check_trimmed loads trimmed ≡ ok tt
    → IsOutput loads trimmed
unfolding check_trimmed
validate_sound loads [] h = ground arith
validate_sound loads (c ∷ t) h =
    let found = check_parsed_sound (loads (c ∷ t)) h in
    record {
      non_empty = ground arith;
      segments = found.0;
      is_list = found.1;
      all_segments = found.2;
    }

validate_complete :
    (loads : Text → Option JsonValue) (trimmed : Text)
    → IsOutput loads trimmed
    → check_trimmed loads trimmed ≡ ok tt
unfolding check_trimmed check_parsed
validate_complete loads [] w = ground (arith, w.non_empty)
validate_complete loads (c ∷ t) w =
    ap check_parsed w.is_list ∙ (check_segments-ok_iff 0 w.segments).1 w.all_segments

-- The model's output passes exactly if it is not blank and parses, without the white space round it,
-- as a list of objects that each have a member "Content"; `loads` is any JSON parser.
pub validate_vibevoice_output-eq-ok_iff :
    (loads : Text → Option JsonValue) (raw : Text)
    → (validate_vibevoice_output loads raw ≡ ok tt) ↔ IsOutput loads (strip raw)
unfolding validate_vibevoice_output
validate_vibevoice_output-eq-ok_iff loads raw =
    (validate_sound loads (strip raw), validate_complete loads (strip raw))
