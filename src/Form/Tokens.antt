-- ===== src/Form/Tokens.antt =====
-- What the search for control tokens finds.
use vibe_voice_vendor.Base.{
  ℕ, zero, suc, ◌≤◌, ◌≡◌, ◌≢◌, refl, sym, ◌∙◌, subst, ap, ◌↔◌, inl, inr, Bool-cases, ==_self, drop,
  true, [], ◌∷◌, ◌++◌, length, Text, codes, starts_with, arith, All,
}
use vibe_voice_vendor.Form.{closes, token_body, has_control_token}

abbrev pub IsTokenChar : ℕ → Type 0
IsTokenChar c = (c ≢ 62) × (c ≢ 13) × (c ≢ 10)

-- A text that has "<|", then 1 to 128 characters other than ">" and line ends, then "|>".
pub record HasControlToken (s : Text) : Type 0 where
  pub before : Text
  pub name : Text
  pub behind : Text
  pub layout : s ≡ before ++ (codes "<|" ++ (name ++ (codes "|>" ++ behind)))
  pub non_empty : 1 ≤ length name
  pub bounded : length name ≤ 128
  pub is_name : All IsTokenChar name

record Closes (n : ℕ) (s : Text) : Type 0 where
  name : Text
  behind : Text
  layout : s ≡ name ++ (codes "|>" ++ behind)
  bounded : length name ≤ n
  is_name : All IsTokenChar name

starts_with_two :
    (a b : ℕ) (s : Text) → starts_with s (a ∷ b ∷ []) ≡ true → (rest : Text) × (s ≡ a ∷ b ∷ rest)
unfolding starts_with
starts_with_two a b [] h = ground arith
starts_with_two a b (c ∷ []) h = ground arith
starts_with_two a b (c ∷ d ∷ s) h = (s, ground arith)

closes_sound : (n : ℕ) (s : Text) → closes n s ≡ true → Closes n s
unfolding closes
closes_sound zero s h =
    let found = starts_with_two b'|' b'>' s h in
    record { name = []; behind = found.0; layout = found.1; bounded = omega arith; is_name = tt }
closes_sound (suc n) [] h = ground arith
closes_sound (suc n) (c ∷ s) h = elim (Bool-cases (starts_with (c ∷ s) (codes "|>"))) [
  | inl b ↦
      let found = starts_with_two b'|' b'>' (c ∷ s) b in
      record { name = []; behind = found.0; layout = found.1; bounded = omega arith; is_name = tt }
  | inr b ↦
      let found = closes_sound n s (ground arith) in
      record {
        name = c ∷ found.name;
        behind = found.behind;
        layout = ap (◌∷◌ c) found.layout;
        bounded = omega (arith, found.bounded);
        is_name = (ground arith, found.is_name);
      }
]

starts_with-append : (p s : Text) → starts_with (p ++ s) p ≡ true
unfolding starts_with
starts_with-append [] s = refl
starts_with-append (c ∷ p) s = rw (==_self c) (starts_with-append p s)

closes_complete :
    (n : ℕ) (name behind : Text)
    → length name ≤ n
    → All IsTokenChar name
    → closes n (name ++ (codes "|>" ++ behind)) ≡ true
unfolding closes starts_with
closes_complete zero [] behind b w = refl
closes_complete (suc n) [] behind b w = refl
closes_complete zero (c ∷ name) behind b w = ground arith
closes_complete (suc n) (c ∷ name) behind b w =
    ground (arith, closes_complete n name behind (omega arith) w.1)

token_body_sound : (s : Text) → token_body s ≡ true → HasControlToken (codes "<|" ++ s)
unfolding token_body
token_body_sound [] h = ground arith
token_body_sound (c ∷ s) h =
    let found = closes_sound 127 s (ground arith) in
    record {
      before = [];
      name = c ∷ found.name;
      behind = found.behind;
      layout = ap (λ t. codes "<|" ++ c ∷ t) found.layout;
      non_empty = omega arith;
      bounded = omega (arith, found.bounded);
      is_name = (ground arith, found.is_name);
    }

HasControlToken-cons : (c : ℕ) (s : Text) → HasControlToken s → HasControlToken (c ∷ s)
HasControlToken-cons c s found = record {
  before = c ∷ found.before;
  name = found.name;
  behind = found.behind;
  layout = ap (◌∷◌ c) found.layout;
  non_empty = found.non_empty;
  bounded = found.bounded;
  is_name = found.is_name;
}

token_here :
    (c : ℕ) (s : Text)
    → starts_with (c ∷ s) (codes "<|") ≡ true
    → token_body (drop 1 s) ≡ true
    → HasControlToken (c ∷ s)
token_here c s h k =
    let found = starts_with_two b'<' b'|' (c ∷ s) h in
    subst HasControlToken (sym found.1)
      (token_body_sound found.0 (ap (λ t. token_body (drop 2 t)) (sym found.1) ∙ k))

search_sound : (s : Text) → has_control_token s ≡ true → HasControlToken s
unfolding has_control_token
search_sound [] h = ground arith
search_sound (c ∷ s) h = elim (Bool-cases (has_control_token s)) [
  | inl b ↦ HasControlToken-cons c s (search_sound s b)
  | inr b ↦ token_here c s (ground arith) (ground arith)
]

search_complete :
    (before s : Text) → token_body s ≡ true → has_control_token (before ++ (codes "<|" ++ s)) ≡ true
unfolding has_control_token starts_with
search_complete [] s h = ground arith
search_complete (c ∷ before) s h = ground (arith, search_complete before s h)

token_body_complete :
    (name behind : Text)
    → 1 ≤ length name
    → length name ≤ 128
    → All IsTokenChar name
    → token_body (name ++ (codes "|>" ++ behind)) ≡ true
unfolding token_body
token_body_complete [] behind a b w = ground arith
token_body_complete (c ∷ name) behind a b w =
    ground (arith, closes_complete 127 name behind (omega arith) w.1)

-- The search finds a control token exactly in the texts that have one: "<|", then 1 to 128
-- characters other than ">" and line ends, then "|>".
pub has_control_token_iff : (s : Text) → (has_control_token s ≡ true) ↔ HasControlToken s
has_control_token_iff s = (
  search_sound s,
  λ w.
      ap has_control_token w.layout
      ∙ search_complete w.before (w.name ++ (codes "|>" ++ w.behind))
          (token_body_complete w.name w.behind w.non_empty w.bounded w.is_name),
)
