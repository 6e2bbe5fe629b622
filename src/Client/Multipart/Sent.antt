-- ===== src/Client/Multipart/Sent.antt =====
-- The body of an upload as a whole, and what the server makes of its file name.
use mathlib.Core.List.{append_assoc}
use vibe_voice_vendor.Base.{
  ℕ, zero, suc, ◌<◌, ◌≤◌, ◌≡◌, ◌≢◌, refl, sym, ap, ◌∙◌, Bool, false, Option, none, some, List, [],
  ◌∷◌, ◌++◌, length, take, drop, length-drop, take-append-drop, Text, codes, arith, ok,
  text_eq_refl, any, contains_char, is_surrogate, utf8_bytes, utf8, encode, join, All,
}
use vibe_voice_vendor.Wav.Metadata.{
  wav_suffix, wav_mime_type, suffix, suffix-eq_wav_iff, path_name-eq_self,
  validate_heliboard_wav_metadata, validate_complete,
}
use vibe_voice_vendor.Client.Multipart.{
  Body, end_body, put_all, crlf, delimiter, audio_disposition, hotwords_disposition, audio_type,
  audio_chunk_bytes, safe_char, safe_filename, read_chunks, put_encoded, put_hotwords, put_file,
  multipart_body,
}

-- The body gives these bytes and ends without an exception.
pub record Sends (bytes : Text) (body : Body) : Type 0 where
  pub same : join body.chunks ≡ bytes
  pub quiet : body.raised ≡ none

put_all-Sends :
    (ts : List Text) (tail : Text) (rest : Body)
    → Sends tail rest
    → Sends (join ts ++ tail) (put_all ts rest)
unfolding put_all
put_all-Sends [] tail rest sent = sent
put_all-Sends (t ∷ ts) tail rest sent =
    let more = put_all-Sends ts tail rest sent in
    record {
      same = ap (λ u. t ++ u) more.same ∙ sym (append_assoc t (join ts) tail);
      quiet = more.quiet;
    }

join-read_chunks :
    (size fuel : ℕ) (bytes : Text)
    → 0 < size
    → length bytes ≤ fuel
    → join (read_chunks size fuel bytes) ≡ bytes
unfolding read_chunks
join-read_chunks size zero [] n h = refl
join-read_chunks size zero (b ∷ bytes) n h = absurd (omega arith)
join-read_chunks size (suc fuel) [] n h = refl
join-read_chunks size (suc fuel) (b ∷ bytes) n h =
    ap (λ u. take size (b ∷ bytes) ++ u)
      (join-read_chunks size fuel (drop size (b ∷ bytes)) n
        (omega (arith, length-drop size (b ∷ bytes))))
    ∙ take-append-drop size (b ∷ bytes)

any-append :
    (p : ℕ → Bool) (s t : Text) → any p s ≡ false → any p t ≡ false → any p (s ++ t) ≡ false
any-append p [] t hs ht = ht
any-append p (c ∷ s) t hs ht = ground (arith, any-append p s t)

utf8-append : (s t : Text) → utf8 (s ++ t) ≡ utf8 s ++ utf8 t
unfolding utf8
utf8-append [] t = refl
utf8-append (c ∷ s) t =
    ap (λ u. utf8_bytes c ++ u) (utf8-append s t)
    ∙ sym (append_assoc (utf8_bytes c) (utf8 s) (utf8 t))

safe_filename-encodable :
    (name : Text) → any is_surrogate name ≡ false → any is_surrogate (safe_filename name) ≡ false
unfolding safe_filename
safe_filename-encodable [] h = refl
safe_filename-encodable (c ∷ s) h = ground (arith, safe_filename-encodable s)

-- A byte that neither ends the quoted name nor its line.
abbrev pub IsQuotable : ℕ → Type 0
IsQuotable b = (b ≢ b'"') × (b ≢ b'\\') × (b ≢ 13) × (b ≢ 10)

All-append : (s t : Text) → All IsQuotable s → All IsQuotable t → All IsQuotable (s ++ t)
All-append [] t hs ht = ht
All-append (b ∷ s) t (h, hs) ht = (h, All-append s t hs ht)

utf8_bytes-IsQuotable : (c : ℕ) → All IsQuotable (utf8_bytes (safe_char c))
utf8_bytes-IsQuotable c = ground arith

safe_filename-IsQuotable : (name : Text) → All IsQuotable (utf8 (safe_filename name))
unfolding utf8 safe_filename
safe_filename-IsQuotable [] = tt
safe_filename-IsQuotable (c ∷ s) =
    All-append (utf8_bytes (safe_char c)) (utf8 (safe_filename s)) (utf8_bytes-IsQuotable c)
      (safe_filename-IsQuotable s)

-- The part of the hotwords, which is left out if they are missing or empty.
abbrev pub hotwords_part : Option Text → Text
hotwords_part none = []
hotwords_part (some []) = []
hotwords_part (some (c ∷ t)) =
    delimiter ++ crlf ++ hotwords_disposition ++ crlf ++ crlf ++ utf8 (c ∷ t) ++ crlf

abbrev pub HotwordsEncodable : Option Text → Type 0
HotwordsEncodable none = Unit {0}
HotwordsEncodable (some t) = any is_surrogate t ≡ false

-- The whole body.
abbrev pub body_text : Text → Text → Option Text → Text
body_text name bytes hotwords = join (
    (delimiter ++ crlf)
    ∷ (audio_disposition ++ utf8 (safe_filename name) ++ codes "\"" ++ crlf)
    ∷ (audio_type ++ crlf ++ crlf)
    ∷ bytes
    ∷ crlf
    ∷ hotwords_part hotwords
    ∷ (delimiter ++ codes "--" ++ crlf)
    ∷ [])

put_all-one :
    (t tail : Text) (rest : Body) → Sends tail rest → Sends (t ++ tail) (put_all (t ∷ []) rest)
unfolding put_all
put_all-one t tail rest sent = record { same = ap (λ u. t ++ u) sent.same; quiet = sent.quiet }

put_encoded-Sends :
    (t bytes tail : Text) (rest : Body)
    → utf8 t ≡ bytes
    → any is_surrogate t ≡ false
    → Sends tail rest
    → Sends (bytes ++ tail) (put_encoded (encode t) rest)
unfolding put_encoded
put_encoded-Sends t bytes tail rest e h sent = rw (sym e, h) (put_all-one (utf8 t) tail rest sent)

put_file-Sends :
    (bytes tail : Text) (rest : Body)
    → Sends tail rest
    → Sends (bytes ++ tail) (put_file (some bytes) rest)
unfolding put_file
put_file-Sends bytes tail rest sent =
    let all = put_all-Sends (read_chunks audio_chunk_bytes (length bytes) bytes) tail rest sent in
    record {
      same =
          all.same
          ∙ ap (λ u. u ++ tail)
              (join-read_chunks audio_chunk_bytes (length bytes) bytes (omega arith) (omega arith));
      quiet = all.quiet;
    }

put_hotwords-Sends :
    (hotwords : Option Text) (tail : Text) (rest : Body)
    → HotwordsEncodable hotwords
    → Sends tail rest
    → Sends (hotwords_part hotwords ++ tail) (put_hotwords hotwords rest)
unfolding put_hotwords
put_hotwords-Sends none tail rest h sent = sent
put_hotwords-Sends (some []) tail rest h sent = sent
put_hotwords-Sends (some (c ∷ t)) tail rest h sent =
    let all =
      put_all-Sends ((delimiter ++ crlf) ∷ (hotwords_disposition ++ crlf ++ crlf) ∷ [])
        (utf8 (c ∷ t) ++ (crlf ++ tail)) (put_encoded (encode (c ∷ t)) (put_all (crlf ∷ []) rest))
        (put_encoded-Sends (c ∷ t) _ (crlf ++ tail) (put_all (crlf ∷ []) rest) refl h
          (put_all-one crlf tail rest sent)) in
    record {
      same =
          all.same
          ∙ ap (λ u. (delimiter ++ crlf ++ hotwords_disposition ++ crlf ++ crlf) ++ u)
              (sym (append_assoc (utf8 (c ∷ t)) crlf tail));
      quiet = all.quiet;
    }

abbrev audio_header : Text → Text
audio_header name = audio_disposition ++ name ++ codes "\"" ++ crlf

utf8-audio_header : (name : Text) → utf8 (audio_header name) ≡ audio_header (utf8 name)
unfolding utf8
utf8-audio_header name =
    ap (λ u. audio_disposition ++ u)
      (utf8-append (name ++ codes "\"") crlf ∙ ap (λ u. u ++ crlf) (utf8-append name (codes "\"")))

audio_header-encodable :
    (name : Text) → any is_surrogate name ≡ false → any is_surrogate (audio_header name) ≡ false
audio_header-encodable name h =
    any-append is_surrogate (name ++ codes "\"") crlf
      (any-append is_surrogate name (codes "\"") h refl) refl

put_header-Sends :
    (name tail : Text) (rest : Body)
    → any is_surrogate name ≡ false
    → Sends tail rest
    → Sends (audio_header (utf8 name) ++ tail) (put_encoded (encode (audio_header name)) rest)
put_header-Sends name tail rest h sent =
    put_encoded-Sends (audio_header name) (audio_header (utf8 name)) tail rest
      (utf8-audio_header name) (audio_header-encodable name h) sent

multipart_body-Sends :
    (name bytes : Text) (hotwords : Option Text)
    → suffix name ≡ wav_suffix
    → any is_surrogate name ≡ false
    → HotwordsEncodable hotwords
    → Sends (body_text name bytes hotwords) (multipart_body name (some bytes) hotwords)
unfolding multipart_body
multipart_body-Sends name bytes hotwords wav encodable h =
    let ending =
      put_all-one (delimiter ++ codes "--" ++ crlf) [] end_body
        (record { same = refl; quiet = refl }) in
    let with_hotwords = put_hotwords-Sends hotwords _ _ h ending in
    let with_file = put_file-Sends bytes _ _ (put_all-one crlf _ _ with_hotwords) in
    let typed = put_all-one (audio_type ++ crlf ++ crlf) _ _ with_file in
    rw (wav, text_eq_refl wav_suffix)
      (put_all-one (delimiter ++ crlf) _ _
        (put_header-Sends (safe_filename name) _ _ (safe_filename-encodable name encodable) typed))

safe_filename-has_no_slash :
    (name : Text)
    → contains_char b'/' name ≡ false
    → contains_char b'/' (safe_filename name) ≡ false
unfolding safe_filename
safe_filename-has_no_slash [] h = refl
safe_filename-has_no_slash (c ∷ s) h = ground (arith, safe_filename-has_no_slash s)

safe_filename-append_wav :
    (stem : Text) → safe_filename (stem ++ wav_suffix) ≡ safe_filename stem ++ wav_suffix
unfolding safe_filename
safe_filename-append_wav [] = refl
safe_filename-append_wav (c ∷ stem) = ap (λ u. safe_char c ∷ u) (safe_filename-append_wav stem)

length-safe_filename : (name : Text) → length (safe_filename name) ≡ length name
unfolding safe_filename
length-safe_filename [] = refl
length-safe_filename (c ∷ s) = ap suc (length-safe_filename s)

suffix-safe_filename :
    (name : Text) → suffix name ≡ wav_suffix → suffix (safe_filename name) ≡ wav_suffix
suffix-safe_filename name wav =
    let (stem, n, same) = (suffix-eq_wav_iff name).0 wav in
    (suffix-eq_wav_iff (safe_filename name)).1 (
      safe_filename stem,
      omega (arith, length-safe_filename stem),
      ap safe_filename same ∙ safe_filename-append_wav stem,
    )

-- What reaches the server of an upload.
pub record IsUpload (name bytes : Text) (hotwords : Option Text) (body : Body) : Type 0 where
  pub whole : join body.chunks ≡ body_text name bytes hotwords
  pub no_exception : body.raised ≡ none
  pub quotable : All IsQuotable (utf8 (safe_filename name))
  pub accepted :
      validate_heliboard_wav_metadata (some (safe_filename name)) (some wav_mime_type)
      ≡ ok wav_mime_type

-- For a readable file whose name has the suffix ".wav" and, with the hotwords, an encoding in UTF-8,
-- the generator raises nothing; its chunks make up the form with the bytes of the file as they are and
-- with the hotwords if they are not empty, however the file was cut into chunks; no byte of the
-- file's name in it is a quote, a backslash or a line end, whatever the name; and the server accepts
-- the name and the type.
pub multipart_body-IsUpload :
    (name bytes : Text) (hotwords : Option Text)
    → contains_char b'/' name ≡ false
    → suffix name ≡ wav_suffix
    → any is_surrogate name ≡ false
    → HotwordsEncodable hotwords
    → IsUpload name bytes hotwords (multipart_body name (some bytes) hotwords)
multipart_body-IsUpload name bytes hotwords plain wav encodable h =
    let sent = multipart_body-Sends name bytes hotwords wav encodable h in
    let safe_wav = suffix-safe_filename name wav in
    record {
      whole = sent.same;
      no_exception = sent.quiet;
      quotable = safe_filename-IsQuotable name;
      accepted = validate_complete (safe_filename name) (
          ap suffix (
            path_name-eq_self (safe_filename name) (safe_filename-has_no_slash name plain) safe_wav)
          ∙ safe_wav);
    }
