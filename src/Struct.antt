-- ===== src/Struct.antt =====
-- The part of Python's `struct` that server/audio.py uses: little-endian unsigned integers and
-- fixed byte strings, with no padding ("<").
pub mod RoundTrip
use vibe_voice_vendor.Base.{ℕ, zero, suc, ◌+◌, ◌*◌, ◌/◌, ◌%◌, List, [], ◌∷◌, ◌++◌, take, drop, Text}

-- `4s` is `bytes_of 4`; `H` and `I` are `uint 2` and `uint 4`.
pub data Field : Type 0 where
  bytes_of uint : ℕ → Field

abbrev pub Format : Type 0
Format = List Field

-- What `unpack` returns for a format: a nested tuple.
abbrev pub Values : Format → Type 0
Values [] = Unit {0}
Values (bytes_of n ∷ fs) = Text × Values fs
Values (uint n ∷ fs) = ℕ × Values fs

unfoldable pub calcsize : Format → ℕ
calcsize [] = 0
calcsize (bytes_of n ∷ fs) = n + calcsize fs
calcsize (uint n ∷ fs) = n + calcsize fs

-- The number that little-endian bytes stand for, and its `n` bytes.
unfoldable pub from_le : Text → ℕ
from_le [] = 0
from_le (b ∷ bs) = b + 256 * from_le bs

unfoldable pub to_le : ℕ → ℕ → Text
to_le zero v = []
to_le (suc n) v = v % 256 ∷ to_le n (v / 256)

unfoldable pub unpack : (fs : Format) → Text → Values fs
unfolding from_le
unpack [] bs = tt
unpack (bytes_of n ∷ fs) bs = (take n bs, unpack fs (drop n bs))
unpack (uint n ∷ fs) bs = (from_le (take n bs), unpack fs (drop n bs))

unfoldable pub pack : (fs : Format) → Values fs → Text
unfolding to_le
pack [] vs = []
pack (bytes_of n ∷ fs) (s, vs) = s ++ pack fs vs
pack (uint n ∷ fs) (v, vs) = to_le n v ++ pack fs vs
