-- ===== src/Opus/Tests.antt =====
-- Runs of ffmpeg, and the theorems of Opus at one.
use vibe_voice_vendor.Base.{ℕ, ◌≡◌, ◌↔◌, refl, true, Option, none, some, [], Text, codes, ok, err}
use vibe_voice_vendor.Backend.{JsonValue, object, string, member, end}
use vibe_voice_vendor.Backend.Requests.{GroqRequest}
use vibe_voice_vendor.Opus.{
  finished, timed_out, communicate_raised, drained, drain_cancelled, opus_cancelled, ffmpeg_timeout,
  ffmpeg_failed, running, Ffmpeg, compress_file_to_opus, transcribe_with_groq,
}
use vibe_voice_vendor.Opus.Compressed.{IsCleaned, compress_file_to_opus-IsCleaned}
use vibe_voice_vendor.Opus.Answered.{IsAnswered, transcribe_with_groq-ok_iff}

abbrev succeeded : Ffmpeg
succeeded = record {
  starts = true;
  communicated = finished 0 [];
  drained = drained;
  output = some (codes "OggS");
}

compressions :
    ((compress_file_to_opus succeeded true).0 ≡ ok (codes "OggS"))
    × ((compress_file_to_opus (record succeeded { communicated = timed_out }) true).0
        ≡ err ffmpeg_timeout)
    × ((compress_file_to_opus
          (record succeeded { communicated = timed_out; drained = drain_cancelled })
          true).0
        ≡ err opus_cancelled)
    × ((compress_file_to_opus (record succeeded { communicated = finished 1 (codes "no") }) true).0
        ≡ err (ffmpeg_failed (codes "no")))
    × ((compress_file_to_opus
          (record succeeded { communicated = communicate_raised })
          true).1.process
        ≡ running)
unfolding compress_file_to_opus
compressions = (refl, refl, refl, refl, refl)

compress_file_to_opus-IsCleaned_example :
    IsCleaned succeeded true (compress_file_to_opus succeeded true)
compress_file_to_opus-IsCleaned_example = compress_file_to_opus-IsCleaned succeeded true

-- Groq answers with the contents that it is sent.
abbrev echo : GroqRequest → Option (ℕ × Text)
echo request = some (200, request.file_contents)

abbrev as_object : Text → Option JsonValue
as_object body = some (object (member (codes "text") (string body) end))

transcribe_with_groq-ok_iff_example :
    (transcribe_with_groq as_object echo succeeded (codes "key") (codes "whisper-large-v3") none
      ≡ ok (codes "OggS"))
    ↔ IsAnswered as_object echo succeeded
        (codes "key")
        (codes "whisper-large-v3")
        none
        (codes "OggS")
transcribe_with_groq-ok_iff_example =
    transcribe_with_groq-ok_iff as_object echo succeeded (codes "key") (codes "whisper-large-v3")
      none (codes "OggS")
