-- ===== src/Wav/Metadata.antt =====
-- The upload's metadata in server/audio.py: `validate_heliboard_wav_metadata`, with
-- `PurePosixPath(filename).suffix` by the rule of CPython 3.11 to 3.13 (the last component that is
-- neither empty nor ".", from its last dot, if that is neither its first nor its last character).
use vibe_voice_vendor.Base.{
  ℕ, suc, ◌-◌, ◌<◌, ◌≡◌, refl, sym, ap, ◌∙◌, ◌↔◌, Bool, false, not, ◌&&◌, ◌||◌, Option, none, some,
  List, [], ◌∷◌, ◌++◌, length, drop, take, Text, codes, text_eq, text_eq_iff, text_eq_refl, ◌==◌,
  ltb, if◌then◌else◌, arith, Result, ok, err, raise_if, ◌>>=◌, ◌>>◌, take-append-drop, length-take,
  length-append, contains_char, text_eq_sound, Bool-cases, inl, inr, ◌≢◌,
}

pub data MetadataError : Type 0 where
  filename_missing not_wav_suffix not_wav_type : MetadataError

abbrev pub wav_mime_type : Text
wav_mime_type = codes "audio/wav"

abbrev pub wav_suffix : Text
wav_suffix = codes ".wav"

push_head : ℕ → List Text → List Text
push_head c [] = (c ∷ []) ∷ []
push_head c (p ∷ ps) = (c ∷ p) ∷ ps

-- `text.split("/")`
components : Text → List Text
unfolding push_head
components [] = [] ∷ []
components (c ∷ s) = let rest = components s in if c == b'/' then [] ∷ rest else push_head c rest

-- The last component that is neither empty nor "."; the given text if there is none.
last_named : Text → List Text → Text
last_named found [] = found
last_named found (p ∷ ps) =
    last_named (if text_eq p [] || text_eq p (codes ".") then found else p) ps

unfoldable pub path_name : Text → Text
unfolding components last_named
path_name f = last_named [] (components f)

-- `text.rfind(c)`; `none` is -1.
rfind : ℕ → Text → Option ℕ
rfind c [] = none
rfind c (d ∷ s) = elim (rfind c s) [
  | some i ↦ some (suc i)
  | none ↦ if d == c then some 0 else none
]

suffix_at : Text → Option ℕ → Text
suffix_at name none = []
suffix_at name (some i) = if ltb 0 i && ltb i (length name - 1) then drop i name else []

unfoldable pub suffix : Text → Text
unfolding rfind suffix_at
suffix name = suffix_at name (rfind b'.' name)

check_filename : Option Text → Result MetadataError Text
check_filename none = err filename_missing
check_filename (some f) = if text_eq f [] then err filename_missing else ok f

is_wav_type : Option Text → Bool
is_wav_type none = false
is_wav_type (some t) = text_eq t wav_mime_type

unfoldable pub validate_heliboard_wav_metadata :
    Option Text → Option Text → Result MetadataError Text
unfolding check_filename is_wav_type
validate_heliboard_wav_metadata filename content_type = do
  f ← check_filename filename
  raise_if (not (text_eq (suffix (path_name f)) wav_suffix)) not_wav_suffix
  raise_if (not (is_wav_type content_type)) not_wav_type
  ok wav_mime_type

rfind-append_wav : (stem : Text) → rfind b'.' (stem ++ wav_suffix) ≡ some (length stem)
unfolding rfind
rfind-append_wav [] = refl
rfind-append_wav (c ∷ stem) = rw (rfind-append_wav stem, rfind)

drop-length : (s t : Text) → drop (length s) (s ++ t) ≡ t
drop-length [] t = refl
drop-length (c ∷ s) t = drop-length s t

suffix_at_sound :
    (name : Text) (r : Option ℕ)
    → suffix_at name r ≡ wav_suffix
    → (stem : Text) × (0 < length stem) × (name ≡ stem ++ wav_suffix)
unfolding suffix_at
suffix_at_sound name none h = cc
suffix_at_sound name (some i) h =
    let inner : (0 < i) × (i < length name) × (drop i name ≡ wav_suffix) =
      (ground arith, ground arith, ground arith) in
    (
      take i name,
      omega (arith, length-take i name, inner),
      sym (take-append-drop i name) ∙ ap (λ t. take i name ++ t) inner.2,
    )

suffix_complete : (stem : Text) → 0 < length stem → suffix (stem ++ wav_suffix) ≡ wav_suffix
unfolding suffix
suffix_complete stem n =
    rw (rfind-append_wav stem) (
      unfold suffix_at in
      ground (arith, length-append stem wav_suffix, drop-length stem wav_suffix))

components-char :
    (c : ℕ) (s : Text) → (c == b'/') ≡ false → components (c ∷ s) ≡ push_head c (components s)
unfolding components
components-char c s h = rw h refl

components-eq_singleton :
    (c : ℕ) (s : Text) → contains_char b'/' (c ∷ s) ≡ false → components (c ∷ s) ≡ (c ∷ s) ∷ []
components-eq_singleton c [] h =
    components-char c [] (ground arith) ∙ unfold components push_head in refl
components-eq_singleton c (d ∷ s) h =
    components-char c (d ∷ s) (ground arith)
    ∙ ap (push_head c) (components-eq_singleton d s (ground arith))
    ∙ unfold push_head in refl

dot-ne_wav : suffix (codes ".") ≢ wav_suffix
unfolding suffix rfind suffix_at
dot-ne_wav h = cc

not_dot : (name : Text) → suffix name ≡ wav_suffix → text_eq name (codes ".") ≡ false
not_dot name w = elim (Bool-cases (text_eq name (codes "."))) [
  | inl e ↦ absurd (dot-ne_wav (sym (ap suffix (text_eq_sound name (codes ".") e)) ∙ w))
  | inr e ↦ e
]

text_eq_cons : (c : ℕ) (s : Text) → text_eq (c ∷ s) [] ≡ false
unfolding text_eq
text_eq_cons c s = refl

-- The name of a file without "/", which has a suffix.
pub path_name-eq_self :
    (name : Text)
    → contains_char b'/' name ≡ false
    → suffix name ≡ wav_suffix
    → path_name name ≡ name
unfolding path_name
path_name-eq_self [] h w = unfold components text_eq last_named in refl
path_name-eq_self (c ∷ s) h w =
    rw (components-eq_singleton c s h)
      (unfold last_named in rw (not_dot (c ∷ s) w, text_eq_cons c s) refl)

-- A file name has the suffix ".wav" if it is that suffix behind at least one character.
pub suffix-eq_wav_iff :
    (name : Text)
    → (suffix name ≡ wav_suffix) ↔ ((stem : Text) × (0 < length stem) × (name ≡ stem ++ wav_suffix))
unfolding suffix
suffix-eq_wav_iff name = (
  suffix_at_sound name (rfind b'.' name),
  λ found. ap suffix found.2 ∙ suffix_complete found.0 found.1,
)

-- The metadata of an acceptable upload.
pub record IsWavUpload (filename content_type : Option Text) : Type 0 where
  pub name : Text
  pub stem : Text
  pub is_name : filename ≡ some name
  pub non_empty : 0 < length stem
  pub ends_in_wav : path_name name ≡ stem ++ wav_suffix
  pub is_wav : content_type ≡ some wav_mime_type

validate_sound :
    (filename content_type : Option Text) (mime : Text)
    → validate_heliboard_wav_metadata filename content_type ≡ ok mime
    → IsWavUpload filename content_type × (mime ≡ wav_mime_type)
unfolding validate_heliboard_wav_metadata
validate_sound none c mime h = cc
validate_sound (some f) none mime h = ground arith
validate_sound (some f) (some c) mime h =
    let passed : (suffix (path_name f) ≡ wav_suffix) × (c ≡ wav_mime_type) = (
      ground (arith, text_eq_iff (suffix (path_name f)) wav_suffix),
      ground (arith, text_eq_iff c wav_mime_type),
    ) in
    let found = (suffix-eq_wav_iff (path_name f)).0 passed.0 in
    (
      record {
        name = f;
        stem = found.0;
        is_name = refl;
        non_empty = found.1;
        ends_in_wav = found.2;
        is_wav = ap some passed.1;
      },
      ground arith,
    )

suffix-ne-nil : (f : Text) → suffix (path_name f) ≡ wav_suffix → text_eq f [] ≡ false
unfolding text_eq path_name suffix
suffix-ne-nil [] h = cc
suffix-ne-nil (c ∷ f) h = refl

pub validate_complete :
    (f : Text)
    → suffix (path_name f) ≡ wav_suffix
    → validate_heliboard_wav_metadata (some f) (some wav_mime_type) ≡ ok wav_mime_type
unfolding validate_heliboard_wav_metadata
validate_complete f h =
    rw (suffix-ne-nil f h, h, text_eq_refl wav_suffix, text_eq_refl wav_mime_type)

-- An upload's metadata is accepted exactly if there is a file name whose last path component is
-- ".wav" behind at least one character, and the content type is audio/wav to the letter; and the
-- result is that type.
pub validate-eq-ok_iff :
    (filename content_type : Option Text) (mime : Text)
    → (validate_heliboard_wav_metadata filename content_type ≡ ok mime)
      ↔ (IsWavUpload filename content_type × (mime ≡ wav_mime_type))
validate-eq-ok_iff filename content_type mime = (
  validate_sound filename content_type mime,
  λ (w, e).
      rw (w.is_name, w.is_wav, e)
        (validate_complete w.name ((suffix-eq_wav_iff _).1 (w.stem, w.non_empty, w.ends_in_wav))),
)
