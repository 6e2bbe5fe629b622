-- ===== src/Backend/Process.antt =====
-- server/transcribe.py: the two process functions, on the job that they are given. The chunks are the
-- texts that the stream yields; a chunk that is no text is not modelled. `describe` gives the message
-- for an error of the check.
pub mod Completed
use vibe_voice_vendor.Base.{
  ℕ, Bool, true, false, Option, none, some, List, [], ◌∷◌, ◌++◌, Text, codes, if◌then◌else◌,
  Fraction, Result, ok, err, join,
}
use vibe_voice_vendor.Models.{streaming}
use vibe_voice_vendor.Disk.{FilePath}
use vibe_voice_vendor.Queue.{TranscriptionJob, Outcome, returned, raised}
use vibe_voice_vendor.Backend.{
  JsonValue, list, object, string, number, JsonValues, nil, cons, Members, end, member, OutputError,
  validate_vibevoice_output,
}

-- The job afterwards, and how the function ended.
abbrev pub Processed : Type 0
Processed = TranscriptionJob × Outcome

abbrev pub runtime_error : Text
runtime_error = codes "RuntimeError"

-- `job.require_audio_path()` before the rest.
unfoldable pub with_audio : Option FilePath → Processed → Processed → Processed
with_audio none missing rest = missing
with_audio (some p) missing rest = rest

abbrev pub no_audio : TranscriptionJob → Processed
no_audio job = (job, raised (codes "Job has no audio file") runtime_error)

-- `await job.chunk_queue.put(chunk)`
abbrev pub put_chunk : Text → TranscriptionJob → TranscriptionJob
put_chunk chunk job = record job { chunk_queue = job.chunk_queue ++ some chunk ∷ [] }

-- The loop over the stream; its first round sets the status.
unfoldable pub put_chunks : List Text → TranscriptionJob → TranscriptionJob
put_chunks [] job = job
put_chunks (chunk ∷ chunks) job =
    put_chunks chunks (put_chunk chunk (record job { status = streaming }))

unfoldable pub on_validated :
    (OutputError → Text) → Result OutputError (Unit {0}) → TranscriptionJob → Processed
on_validated describe (ok u) job = (job, returned)
on_validated describe (err e) job =
    (record job { error_message = some (describe e) }, raised (describe e) runtime_error)

-- From the end of the stream on; `failure` has the message and the type of an exception of it.
unfoldable pub on_streamed :
    (Text → Option JsonValue)
    → (OutputError → Text)
    → List Text
    → Option (Text × Text)
    → TranscriptionJob
    → Processed
unfolding on_validated
on_streamed loads describe chunks (some (message, type_name)) job = (job, raised message type_name)
on_streamed loads describe chunks none job =
    on_validated describe (validate_vibevoice_output loads (join chunks)) job

unfoldable pub process_vibevoice_job :
    (Text → Option JsonValue)
    → (OutputError → Text)
    → List Text
    → Option (Text × Text)
    → TranscriptionJob
    → Processed
unfolding put_chunks on_streamed with_audio
process_vibevoice_job loads describe chunks failure job =
    with_audio job.audio_path (no_audio job)
      (on_streamed loads describe chunks failure (put_chunks chunks job))

-- `[{"Start": 0, "End": job.audio_duration_seconds, "Content": text}]`
abbrev pub groq_segments : JsonValue → Text → JsonValue
groq_segments duration text = list (
    cons
      (object (
        member (codes "Start") (number (codes "0") true)
          (member (codes "End") duration (member (codes "Content") (string text) end))))
      nil)

unfoldable pub on_transcribed :
    (JsonValue → Text) → JsonValue → Result (Text × Text) Text → TranscriptionJob → Processed
on_transcribed dumps duration (err (message, type_name)) job = (job, raised message type_name)
on_transcribed dumps duration (ok []) job = (job, returned)
on_transcribed dumps duration (ok (c ∷ text)) job =
    (put_chunk (dumps (groq_segments duration (c ∷ text))) job, returned)

-- `duration` is the job's as a JSON number; `answer` is what transcribe_audio_file returned or raised.
unfoldable pub process_groq_job :
    (JsonValue → Text) → JsonValue → Result (Text × Text) Text → TranscriptionJob → Processed
unfolding on_transcribed with_audio
process_groq_job dumps duration answer job =
    let started = record job { status = streaming } in
    with_audio job.audio_path (no_audio started) (on_transcribed dumps duration answer started)
