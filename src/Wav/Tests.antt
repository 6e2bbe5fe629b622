-- ===== src/Wav/Tests.antt =====
-- Small recordings and names, and the theorem of Wav at one.
use vibe_voice_vendor.Base.{
  ◌≡◌, refl, ◌↔◌, none, some, [], ◌∷◌, ◌++◌, length, Text, codes, text_eq, arith, ok, err,
}
use vibe_voice_vendor.Struct.{pack, unpack, from_le, to_le}
use vibe_voice_vendor.Wav.{
  HeliboardWavInfo, read_heliboard_wav_info, check_header, too_short, data_empty,
  riff_size_mismatch,
}
use vibe_voice_vendor.Wav.Container.{
  canonical_header, IsHeliboardWav, read_heliboard_wav_info-eq-ok_iff,
}
use vibe_voice_vendor.Wav.Metadata.{
  validate_heliboard_wav_metadata, wav_mime_type, path_name, suffix, not_wav_suffix,
  filename_missing, not_wav_type,
}

wav : Unit {0}
unfolding read_heliboard_wav_info check_header unpack pack from_le to_le text_eq canonical_header
wav = tt

abbrev recording : Text
recording = canonical_header 2 ++ 1 ∷ 255 ∷ []

abbrev recording_info : HeliboardWavInfo
recording_info = record { duration_seconds = record { num = 2; den = 32000 }; data_size = 2 }

readings :
    (read_heliboard_wav_info 46 recording ≡ ok recording_info)
    × (read_heliboard_wav_info 44 (canonical_header 0) ≡ err data_empty)
    × (read_heliboard_wav_info 47 (recording ++ 0 ∷ []) ≡ err riff_size_mismatch)
    × (read_heliboard_wav_info 3 (1 ∷ 2 ∷ 3 ∷ []) ≡ err too_short)
unfolding wav
readings = (refl, refl, refl, refl)

names :
    (validate_heliboard_wav_metadata (some (codes "a/b.wav")) (some (codes "audio/wav"))
      ≡ ok wav_mime_type)
    × (validate_heliboard_wav_metadata (some (codes "a/b.wav/.")) (some (codes "audio/wav"))
        ≡ ok wav_mime_type)
    × (validate_heliboard_wav_metadata (some (codes ".wav")) (some (codes "audio/wav"))
        ≡ err not_wav_suffix)
    × (validate_heliboard_wav_metadata (some (codes "b.WAV")) (some (codes "audio/wav"))
        ≡ err not_wav_suffix)
    × (validate_heliboard_wav_metadata (some []) (some (codes "audio/wav")) ≡ err filename_missing)
    × (validate_heliboard_wav_metadata (some (codes "b.wav")) none ≡ err not_wav_type)
unfolding validate_heliboard_wav_metadata path_name suffix text_eq
names = (refl, refl, refl, refl, refl, refl)

read_heliboard_wav_info-eq-ok_iff_example :
    (read_heliboard_wav_info (length recording) recording ≡ ok recording_info)
    ↔ IsHeliboardWav recording recording_info
unfolding wav
read_heliboard_wav_info-eq-ok_iff_example =
    read_heliboard_wav_info-eq-ok_iff recording recording_info (omega arith)
