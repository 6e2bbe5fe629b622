-- ===== src/Wav/Container.antt =====
-- The header check accepts exactly the files that HeliBoard writes: the canonical 44-byte header for
-- some number of 16-bit samples, followed by that many.
use vibe_voice_vendor.Base.{
  ℕ, ◌+◌, ◌%◌, ◌^◌, ◌≤◌, ◌<◌, ◌≡◌, refl, sym, ◌∙◌, ap, ◌↔◌, ◌++◌, length, take, drop, Text, codes,
  text_eq, text_eq_sound, arith, ok, All, subst, length-append, take-append-drop, length-take,
  length-drop,
}
use vibe_voice_vendor.Struct.{Values, pack, unpack, calcsize}
use vibe_voice_vendor.Struct.RoundTrip.{
  IsByte, IsFilled, pack-unpack, unpack-pack, unpack-IsFilled, All-take, take-append, length-pack,
}
use vibe_voice_vendor.Wav.{HeliboardWavInfo, wav_format, check_header, read_heliboard_wav_info}

abbrev info_of : ℕ → HeliboardWavInfo
info_of n = record { duration_seconds = record { num = n; den = 32000 }; data_size = n }

-- The fields of the header of a file with `n` bytes of samples.
abbrev pub canonical_fields : ℕ → Values wav_format
canonical_fields n = (
  codes "RIFF",
  (
    n + 36,
    (
      codes "WAVE",
      (codes "fmt ", (16, (1, (1, (16000, (32000, (2, (16, (codes "data", (n, tt)))))))))),
    ),
  ),
)

unfoldable pub canonical_header : ℕ → Text
canonical_header n = pack wav_format (canonical_fields n)

record Accepted (file_size n : ℕ) : Type 0 where
  size_matches : file_size ≡ n + 44
  non_empty : 0 < n
  aligned : n % 2 ≡ 0

check_header-eq-ok :
    (file_size : ℕ) (v : Values wav_format) (info : HeliboardWavInfo)
    → 44 ≤ file_size
    → check_header file_size v ≡ ok info
    → (v ≡ canonical_fields info.data_size)
      × Accepted file_size info.data_size
      × (info ≡ info_of info.data_size)
unfolding check_header
check_header-eq-ok file_size (a, (b, (c, (d, (e, (f, (g, (h, (i, (j, (k, (l, (m, u))))))))))))) info
      big ok' =
    (
      ground (
        arith,
        text_eq_sound a (codes "RIFF"),
        text_eq_sound c (codes "WAVE"),
        text_eq_sound d (codes "fmt "),
        text_eq_sound l (codes "data"),
      ),
      ground arith,
      ground arith,
    )

-- What HeliBoard writes: the header, then the samples that it announces.
pub record IsHeliboardWav (contents : Text) (info : HeliboardWavInfo) : Type 0 where
  pub samples : Text
  pub layout : contents ≡ canonical_header info.data_size ++ samples
  pub announced : length samples ≡ info.data_size
  pub non_empty : 0 < info.data_size
  pub whole_samples : info.data_size % 2 ≡ 0
  pub fits : info.data_size + 36 < 2 ^ 32
  pub lasts : info ≡ info_of info.data_size

canonical-IsFilled : (n : ℕ) → n + 36 < 2 ^ 32 → IsFilled wav_format (canonical_fields n)
canonical-IsFilled n h = omega arith

-- A header that passes is the canonical one.
header_sound :
    (file_size : ℕ) (header : Text) (info : HeliboardWavInfo)
    → length header ≡ 44
    → All IsByte header
    → 44 ≤ file_size
    → check_header file_size (unpack wav_format header) ≡ ok info
    → (header ≡ canonical_header info.data_size)
      × IsFilled wav_format (canonical_fields info.data_size)
      × Accepted file_size info.data_size
      × (info ≡ info_of info.data_size)
unfolding canonical_header calcsize
header_sound file_size header info sized bytes long passed =
    let found = check_header-eq-ok file_size (unpack wav_format header) info long passed in
    (
      sym (pack-unpack wav_format header (sym sized) bytes) ∙ ap (pack wav_format) found.0,
      subst (IsFilled wav_format) found.0 (unpack-IsFilled wav_format header (sym sized) bytes),
      found.1,
      found.2,
    )

header_complete :
    (n : ℕ)
    → n + 36 < 2 ^ 32
    → Accepted (n + 44) n
    → check_header (n + 44) (canonical_fields n) ≡ ok (info_of n)
unfolding check_header text_eq
header_complete n h acc = ground arith

module _ (contents : Text) (info : HeliboardWavInfo) where
  read-eq-ok :
      read_heliboard_wav_info (length contents) contents ≡ ok info
      → (44 ≤ length contents)
        × (check_header (length contents) (unpack wav_format (take 44 contents)) ≡ ok info)
  unfolding read_heliboard_wav_info
  read-eq-ok h = (ground arith, ground arith)

  read-ok_sound :
      All IsByte contents
      → read_heliboard_wav_info (length contents) contents ≡ ok info
      → IsHeliboardWav contents info
  read-ok_sound bytes h =
      let (long, passed) = read-eq-ok h in
      let found =
        header_sound (length contents) (take 44 contents) info
          (omega (arith, length-take 44 contents)) (All-take 44 contents bytes) long passed in
      record {
        samples = drop 44 contents;
        layout = sym (take-append-drop 44 contents) ∙ ap (λ h. h ++ drop 44 contents) found.0;
        announced = omega (arith, length-drop 44 contents, found.2.size_matches);
        non_empty = found.2.non_empty;
        whole_samples = found.2.aligned;
        fits = omega (arith, found.1);
        lasts = found.3;
      }

  read_by_header :
      44 ≤ length contents
      → read_heliboard_wav_info (length contents) contents
        ≡ check_header (length contents) (unpack wav_format (take 44 contents))
  unfolding read_heliboard_wav_info
  read_by_header h = ground (arith, length-take 44 contents)

  read-ok_complete :
      IsHeliboardWav contents info → read_heliboard_wav_info (length contents) contents ≡ ok info
  unfolding canonical_header calcsize
  read-ok_complete w =
      let n = info.data_size in
      let filled : IsFilled wav_format (canonical_fields n) = canonical-IsFilled n w.fits in
      let sized : length (canonical_header n) ≡ 44 =
        length-pack wav_format (canonical_fields n) filled in
      let size : length contents ≡ n + 44 = omega (
        arith,
        ap length w.layout,
        length-append (canonical_header n) w.samples,
        sized,
        w.announced,
      ) in
      let head : take 44 contents ≡ canonical_header n =
        rw w.layout (take-append 44 (canonical_header n) w.samples sized) in
      let fields : unpack wav_format (take 44 contents) ≡ canonical_fields n =
        ap (unpack wav_format) head ∙ unpack-pack wav_format (canonical_fields n) filled in
      read_by_header (omega arith)
      ∙ rw (fields, size)
          (header_complete n w.fits
              (record { size_matches = refl; non_empty = w.non_empty; aligned = w.whole_samples })
            ∙ ap ok (sym w.lasts))

-- A file of bytes is accepted exactly if it is a HeliBoard recording: the canonical header for `n`
-- bytes of samples and then these, with `n` even, not zero and small enough for the 32-bit fields;
-- and the result is `n` with the duration n / 32000.
pub read_heliboard_wav_info-eq-ok_iff :
    (contents : Text) (info : HeliboardWavInfo)
    → All IsByte contents
    → (read_heliboard_wav_info (length contents) contents ≡ ok info) ↔ IsHeliboardWav contents info
read_heliboard_wav_info-eq-ok_iff contents info bytes =
    (read-ok_sound contents info bytes, read-ok_complete contents info)
