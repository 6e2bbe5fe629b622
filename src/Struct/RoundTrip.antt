-- ===== src/Struct/RoundTrip.antt =====
-- `pack` and `unpack` are inverse, on bytes of the right length and on values that fit.
use vibe_voice_vendor.Base.{
  ℕ, zero, suc, ◌+◌, ◌*◌, ◌/◌, ◌%◌, ◌^◌, ◌<◌, ◌≡◌, refl, ap, [], ◌∷◌, ◌++◌, take, drop, Text, arith,
  length, length-take, length-drop, length-append, subst, ◌≤◌, take-append-drop, All,
}
use native.Mathlib.Nat.{pow-suc}
use vibe_voice_vendor.Struct.{
  bytes_of, uint, Format, Values, calcsize, from_le, to_le, unpack, pack,
}

abbrev pub IsByte : ℕ → Type 0
IsByte b = b < 256

-- Byte strings have the length that the format says, and numbers fit their width.
abbrev pub IsFilled : (fs : Format) → Values fs → Type 0
IsFilled [] vs = Unit
IsFilled (bytes_of n ∷ fs) (s, vs) = (length s ≡ n) × IsFilled fs vs
IsFilled (uint n ∷ fs) (v, vs) = (v < 256 ^ n) × IsFilled fs vs

abbrev pub Sized : ℕ → Text → Type 0
Sized n bs = (length bs ≡ n) × All IsByte bs

pub to_le-from_le : (bs : Text) → All IsByte bs → to_le (length bs) (from_le bs) ≡ bs
unfolding to_le from_le
to_le-from_le [] h = refl
to_le-from_le (b ∷ bs) (hb, h) =
    let e : to_le (length bs) (from_le bs) ≡ bs = to_le-from_le bs h in
    let d : (b + 256 * from_le bs) / 256 ≡ from_le bs = omega arith in
    let m : (b + 256 * from_le bs) % 256 ≡ b = omega arith in rw (d, m) (ap (◌∷◌ b) e)

to_le-from_le_sized :
    (n : ℕ) (bs : Text) → length bs ≡ n → All IsByte bs → to_le n (from_le bs) ≡ bs
to_le-from_le_sized n bs e h = rw (← e) (to_le-from_le bs h)

pub from_le-lt : (bs : Text) → All IsByte bs → from_le bs < 256 ^ length bs
unfolding from_le
from_le-lt [] h = omega arith
from_le-lt (b ∷ bs) (hb, h) = rw pow-suc (omega (arith, from_le-lt bs h))

pub length-to_le : (n v : ℕ) → length (to_le n v) ≡ n
unfolding to_le
length-to_le zero v = refl
length-to_le (suc n) v = ap suc (length-to_le n (v / 256))

pub from_le-to_le : (n v : ℕ) → v < 256 ^ n → from_le (to_le n v) ≡ v
unfolding to_le from_le
from_le-to_le zero v h = omega arith
from_le-to_le (suc n) v h =
    let rest : from_le (to_le n (v / 256)) ≡ v / 256 =
      from_le-to_le n (v / 256) (omega (arith, rw pow-suc at h)) in
    omega (arith, rest)

pub All-take : (n : ℕ) (bs : Text) → All IsByte bs → All IsByte (take n bs)
All-take zero bs h = tt
All-take (suc n) [] h = tt
All-take (suc n) (b ∷ bs) h = (h.0, All-take n bs h.1)

All-drop : (n : ℕ) (bs : Text) → All IsByte bs → All IsByte (drop n bs)
All-drop zero bs h = h
All-drop (suc n) [] h = tt
All-drop (suc n) (b ∷ bs) h = All-drop n bs h.1

pub take-append : (n : ℕ) (s t : Text) → length s ≡ n → take n (s ++ t) ≡ s
take-append zero [] t e = refl
take-append zero (c ∷ s) t e = absurd (omega arith)
take-append (suc n) [] t e = absurd (omega arith)
take-append (suc n) (c ∷ s) t e = ap (◌∷◌ c) (take-append n s t (omega arith))

drop-append : (n : ℕ) (s t : Text) → length s ≡ n → drop n (s ++ t) ≡ t
drop-append zero [] t e = refl
drop-append zero (c ∷ s) t e = absurd (omega arith)
drop-append (suc n) [] t e = absurd (omega arith)
drop-append (suc n) (c ∷ s) t e = drop-append n s t (omega arith)

pub pack-unpack :
    (fs : Format) (bs : Text)
    → calcsize fs ≡ length bs
    → All IsByte bs
    → pack fs (unpack fs bs) ≡ bs
unfolding pack unpack calcsize
pack-unpack [] [] e h = refl
pack-unpack [] (b ∷ bs) e h = absurd (omega arith)
pack-unpack (bytes_of n ∷ fs) bs e h =
    rw (pack-unpack fs (drop n bs) (omega (arith, length-drop n bs)) (All-drop n bs h))
      (take-append-drop n bs)
pack-unpack (uint n ∷ fs) bs e h =
    rw
      (
        pack-unpack fs (drop n bs) (omega (arith, length-drop n bs)) (All-drop n bs h),
        to_le-from_le_sized n (take n bs) (omega (arith, length-take n bs)) (All-take n bs h),
      )
      (take-append-drop n bs)

pub unpack-pack : (fs : Format) (vs : Values fs) → IsFilled fs vs → unpack fs (pack fs vs) ≡ vs
unfolding pack unpack
unpack-pack [] vs h = refl
unpack-pack (bytes_of n ∷ fs) (s, vs) h =
    rw (take-append n s (pack fs vs) h.0, drop-append n s (pack fs vs) h.0, unpack-pack fs vs h.1)
unpack-pack (uint n ∷ fs) (v, vs) h = rw (
  take-append n (to_le n v) (pack fs vs) (length-to_le n v),
  drop-append n (to_le n v) (pack fs vs) (length-to_le n v),
  from_le-to_le n v h.0,
  unpack-pack fs vs h.1,
)

from_le-take-lt :
    (n : ℕ) (bs : Text) → n ≤ length bs → All IsByte bs → from_le (take n bs) < 256 ^ n
from_le-take-lt n bs e h =
    let l : length (take n bs) ≡ n = omega (arith, length-take n bs) in
    subst (λ k. from_le (take n bs) < 256 ^ k) l (from_le-lt (take n bs) (All-take n bs h))

pub unpack-IsFilled :
    (fs : Format) (bs : Text) → calcsize fs ≡ length bs → All IsByte bs → IsFilled fs (unpack fs bs)
unfolding unpack calcsize
unpack-IsFilled [] bs e h = tt
unpack-IsFilled (bytes_of n ∷ fs) bs e h = (
  omega (arith, length-take n bs),
  unpack-IsFilled fs (drop n bs) (omega (arith, length-drop n bs)) (All-drop n bs h),
)
unpack-IsFilled (uint n ∷ fs) bs e h = (
  from_le-take-lt n bs (omega arith) h,
  unpack-IsFilled fs (drop n bs) (omega (arith, length-drop n bs)) (All-drop n bs h),
)

pub length-pack :
    (fs : Format) (vs : Values fs) → IsFilled fs vs → length (pack fs vs) ≡ calcsize fs
unfolding pack calcsize
length-pack [] vs h = refl
length-pack (bytes_of n ∷ fs) (s, vs) h =
    omega (arith, length-append s (pack fs vs), length-pack fs vs h.1)
length-pack (uint n ∷ fs) (v, vs) h =
    omega (arith, length-append (to_le n v) (pack fs vs), length-to_le n v, length-pack fs vs h.1)
