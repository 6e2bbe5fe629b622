-- ===== src/Keys.antt =====
-- Lists of job ids: the keys of an ordered dictionary, the entries of a queue, a set of tasks.
use vibe_voice_vendor.Base.{
  ℕ, ◌≡◌, refl, Bool, true, false, not, ◌&&◌, ◌||◌, List, [], ◌∷◌, ◌++◌, ◌==◌, if◌then◌else◌, arith,
}

unfoldable pub mem : ℕ → List ℕ → Bool
mem k [] = false
mem k (x ∷ xs) = k == x || mem k xs

-- `d[k] = v` on an ordered dictionary: a new key goes to the end, an old one keeps its place.
unfoldable pub put_key : ℕ → List ℕ → List ℕ
put_key k [] = k ∷ []
put_key k (x ∷ xs) = if k == x then x ∷ xs else x ∷ put_key k xs

-- `d.pop(k, None)`, `set.discard`
unfoldable pub remove_key : ℕ → List ℕ → List ℕ
remove_key k [] = []
remove_key k (x ∷ xs) = if k == x then xs else x ∷ remove_key k xs

unfoldable pub distinct : List ℕ → Bool
unfolding mem
distinct [] = true
distinct (x ∷ xs) = not (mem x xs) && distinct xs

pub mem-append : (k : ℕ) (xs ys : List ℕ) → mem k (xs ++ ys) ≡ (mem k xs || mem k ys)
unfolding mem
mem-append k [] ys = refl
mem-append k (x ∷ xs) ys = ground (arith, mem-append k xs ys)

pub mem-append_one : (k x : ℕ) (xs : List ℕ) → mem k (xs ++ x ∷ []) ≡ (mem k xs || k == x)
unfolding mem
mem-append_one k x [] = ground arith
mem-append_one k x (y ∷ xs) = ground (arith, mem-append_one k x xs)

pub mem-put_key : (k x : ℕ) (xs : List ℕ) → mem k (put_key x xs) ≡ (mem k xs || k == x)
unfolding mem put_key
mem-put_key k x [] = ground arith
mem-put_key k x (y ∷ xs) = ground (arith, mem-put_key k x xs)

pub mem-remove_key :
    (k x : ℕ) (xs : List ℕ)
    → distinct xs ≡ true
    → mem k (remove_key x xs) ≡ (not (k == x) && mem k xs)
unfolding mem remove_key distinct
mem-remove_key k x [] d = ground arith
mem-remove_key k x (y ∷ xs) d = ground (arith, mem-remove_key k x xs)

pub distinct-append_one :
    (x : ℕ) (xs : List ℕ) → distinct xs ≡ true → mem x xs ≡ false → distinct (xs ++ x ∷ []) ≡ true
unfolding mem distinct
distinct-append_one x [] d m = refl
distinct-append_one x (y ∷ xs) d m = ground (arith, distinct-append_one x xs, mem-append_one y x xs)

pub distinct-put_key : (x : ℕ) (xs : List ℕ) → distinct xs ≡ true → distinct (put_key x xs) ≡ true
unfolding mem put_key distinct
distinct-put_key x [] d = refl
distinct-put_key x (y ∷ xs) d = ground (arith, distinct-put_key x xs, mem-put_key y x xs)

pub distinct-remove_key :
    (x : ℕ) (xs : List ℕ) → distinct xs ≡ true → distinct (remove_key x xs) ≡ true
unfolding mem remove_key distinct
distinct-remove_key x [] d = refl
distinct-remove_key x (y ∷ xs) d = ground (arith, distinct-remove_key x xs, mem-remove_key y x xs)

pub put_key_absent : (x : ℕ) (xs : List ℕ) → mem x xs ≡ false → put_key x xs ≡ xs ++ x ∷ []
unfolding mem put_key
put_key_absent x [] m = refl
put_key_absent x (y ∷ xs) m = ground (arith, put_key_absent x xs)
