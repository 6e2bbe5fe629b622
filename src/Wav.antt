-- ===== src/Wav.antt =====
-- The HeliBoard WAV container of server/audio.py: the metadata of the upload and the header.
-- A file is its size, as `os.path.getsize` gives it, and its bytes, as `read` gives them.
-- `ValueError` is the type of its messages. The duration, a float quotient in the source, is the
-- exact quotient.
pub mod Container
pub mod Metadata
pub mod Tests
use vibe_voice_vendor.Base.{
  ℕ, ◌+◌, ◌-◌, ◌%◌, Bool, not, Option, none, some, List, [], ◌∷◌, length, take, Text, codes,
  text_eq, ◌==◌, ltb, Result, ok, err, raise_if, ◌>>=◌, ◌>>◌, Fraction,
}
use vibe_voice_vendor.Struct.{Format, Values, bytes_of, uint, unpack}

abbrev pub header_bytes : ℕ
header_bytes = 44

abbrev pub sample_rate_hz : ℕ
sample_rate_hz = 16000

abbrev pub channel_count : ℕ
channel_count = 1

abbrev pub sample_bits : ℕ
sample_bits = 16

abbrev pub block_align_bytes : ℕ
block_align_bytes = 2

abbrev pub bytes_per_second : ℕ
bytes_per_second = 32000

pub record HeliboardWavInfo : Type 0 where
  pub duration_seconds : Fraction
  pub data_size : ℕ

-- The messages of the `ValueError`s, in the order of the tests.
pub data WavError : Type 0 where
  too_short header_incomplete not_riff riff_size_mismatch not_wave fmt_misplaced : WavError
  fmt_not_canonical not_pcm not_mono bad_sample_rate bad_byte_rate bad_block_align : WavError
  bad_bits_per_sample data_misplaced data_size_mismatch data_empty data_misaligned : WavError

-- "<4sI4s4sIHHIIHH4sI"
abbrev pub wav_format : Format
wav_format =
    bytes_of 4
    ∷ uint 4
    ∷ bytes_of 4
    ∷ bytes_of 4
    ∷ uint 4
    ∷ uint 2
    ∷ uint 2
    ∷ uint 4
    ∷ uint 4
    ∷ uint 2
    ∷ uint 2
    ∷ bytes_of 4
    ∷ uint 4
    ∷ []

infix 50 ◌/=◌
abbrev ◌/=◌ : ℕ → ℕ → Bool
a /= b = not (a == b)

abbrev is_not : Text → Text → Bool
is_not s t = not (text_eq s t)

unfoldable pub check_header : ℕ → Values wav_format → Result WavError HeliboardWavInfo
check_header file_size
      (
        riff_magic,
        (
          riff_size,
          (
            wave_magic,
            (
              fmt_magic,
              (
                fmt_size,
                (
                  audio_format,
                  (
                    channels,
                    (
                      sample_rate,
                      (byte_rate, (block_align, (bits_per_sample, (data_magic, (data_size, _))))),
                    ),
                  ),
                ),
              ),
            ),
          ),
        ),
      ) =
    do
      raise_if (is_not riff_magic (codes "RIFF")) not_riff
      raise_if (riff_size /= file_size - 8) riff_size_mismatch
      raise_if (is_not wave_magic (codes "WAVE")) not_wave
      raise_if (is_not fmt_magic (codes "fmt ")) fmt_misplaced
      raise_if (fmt_size /= 16) fmt_not_canonical
      raise_if (audio_format /= 1) not_pcm
      raise_if (channels /= channel_count) not_mono
      raise_if (sample_rate /= sample_rate_hz) bad_sample_rate
      raise_if (byte_rate /= bytes_per_second) bad_byte_rate
      raise_if (block_align /= block_align_bytes) bad_block_align
      raise_if (bits_per_sample /= sample_bits) bad_bits_per_sample
      raise_if (is_not data_magic (codes "data")) data_misplaced
      raise_if (data_size /= file_size - header_bytes) data_size_mismatch
      raise_if (data_size == 0) data_empty
      raise_if (data_size % block_align_bytes /= 0) data_misaligned
      ok (record {
        duration_seconds = record { num = data_size; den = bytes_per_second };
        data_size = data_size;
      })

-- `f.read(44)` returns the first 44 bytes, or all if there are fewer.
unfoldable pub read_heliboard_wav_info : ℕ → Text → Result WavError HeliboardWavInfo
read_heliboard_wav_info file_size contents = do
  raise_if (ltb file_size header_bytes) too_short
  let header = take header_bytes contents
  raise_if (length header /= header_bytes) header_incomplete
  check_header file_size (unpack wav_format header)
