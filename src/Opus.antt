-- ===== src/Opus.antt =====
-- server/audio.py: the compression of a recording by the program ffmpeg, and server/groq_client.py from
-- there to the answer. What the process does is an argument: whether it starts, how `communicate` ends, what
-- happens while it is killed, and what it leaves in its output file. The temporary files can always be
-- made and removed.
pub mod Compressed
pub mod Answered
mod Tests
use vibe_voice_vendor.Base.{
  ℕ, Bool, true, false, not, Option, none, some, Text, codes, ◌==◌, if◌then◌else◌, Result, ok, err,
  raise_if, ◌>>=◌, ◌>>◌,
}
use vibe_voice_vendor.Backend.{JsonValue}
use vibe_voice_vendor.Backend.Groq.{GroqError, transcribe_audio_file}
use vibe_voice_vendor.Backend.Requests.{GroqRequest, groq_request}

-- How `asyncio.wait_for(process.communicate(), ...)` ends: with the exit status and stderr, by its
-- timeout, by the cancellation of the task, or by another exception.
pub data Communicated : Type 0 where
  finished : ℕ → Text → Communicated
  timed_out task_cancelled communicate_raised : Communicated

-- The second `communicate`: its end, an Exception, or another cancellation, which is no Exception.
pub data Drained : Type 0 where
  drained drain_raised drain_cancelled : Drained

pub data OpusError : Type 0 where
  not_started ffmpeg_timeout opus_cancelled communicate_failed not_read : OpusError
  ffmpeg_failed : Text → OpusError

pub data ProcessState : Type 0 where
  absent running ended : ProcessState

pub record Ffmpeg : Type 0 where
  pub starts : Bool
  pub communicated : Communicated
  pub drained : Drained
  pub output : Option Text

-- What is there after a call: ffmpeg's process, and the two temporary files.
pub record Conversion : Type 0 where
  pub process : ProcessState
  pub source_exists : Bool
  pub output_exists : Bool

abbrev pub Converted : Type 0
Converted = Result OpusError Text × Conversion

-- `kill_and_drain`, and what is raised after it; `process.kill` does nothing where the process is over.
unfoldable pub kill_and_drain : Drained → OpusError → OpusError
kill_and_drain drain_cancelled e = opus_cancelled
kill_and_drain drained e = e
kill_and_drain drain_raised e = e

-- _communicate_or_kill: the exit status with stderr or an exception, and the process.
unfoldable pub communicate_or_kill :
    Communicated → Drained → Result OpusError (ℕ × Text) × ProcessState
unfolding kill_and_drain
communicate_or_kill (finished status stderr) d = (ok (status, stderr), ended)
communicate_or_kill timed_out d = (err (kill_and_drain d ffmpeg_timeout), ended)
communicate_or_kill task_cancelled d = (err (kill_and_drain d opus_cancelled), ended)
communicate_or_kill communicate_raised d = (err communicate_failed, running)

unfoldable pub read_output : Option Text → Result OpusError Text
read_output none = err not_read
read_output (some bytes) = ok bytes

unfoldable pub check_exit : Result OpusError (ℕ × Text) → Option Text → Result OpusError Text
unfolding read_output
check_exit (err e) output = err e
check_exit (ok (status, stderr)) output = do
  raise_if (not (status == 0)) (ffmpeg_failed stderr)
  read_output output

-- The `try` of compress_file_to_opus, with the output file.
unfoldable pub convert : Ffmpeg → Bool → Converted
unfolding check_exit
convert f source =
    if f.starts
    then (let (answer, process) = communicate_or_kill f.communicated f.drained in
        (
          check_exit answer f.output,
          record { process = process; source_exists = source; output_exists = true },
        ))
    else (
      err not_started,
      record { process = absent; source_exists = source; output_exists = true },
    )

-- `finally: os.unlink(dst_path)`
abbrev pub unlink_output : Converted → Converted
unlink_output (result, c) = (result, record c { output_exists = false })

unfoldable pub compress_file_to_opus : Ffmpeg → Bool → Converted
unfolding convert communicate_or_kill
compress_file_to_opus f source = unlink_output (convert f source)

-- The end of the `with` block removes the source.
abbrev pub leave_source : Converted → Converted
leave_source (result, c) = (result, record c { source_exists = false })

unfoldable pub compress_to_opus : Ffmpeg → Converted
unfolding compress_file_to_opus
compress_to_opus f = leave_source (compress_file_to_opus f true)

pub data GroqFailure : Type 0 where
  not_compressed : OpusError → GroqFailure
  not_posted : GroqFailure
  bad_answer : GroqError → GroqFailure

abbrev pub Post : Type 0
Post = GroqRequest → Option (ℕ × Text)

abbrev pub as_failure : Result GroqError Text → Result GroqFailure Text
as_failure (ok text) = ok text
as_failure (err e) = err (bad_answer e)

unfoldable pub on_answer : (Text → Option JsonValue) → Option (ℕ × Text) → Result GroqFailure Text
on_answer loads none = err not_posted
on_answer loads (some (status, body)) = as_failure (transcribe_audio_file loads status body)

unfoldable pub on_compressed :
    (Text → Option JsonValue)
    → Post
    → (Text → GroqRequest)
    → Result OpusError Text
    → Result GroqFailure Text
unfolding on_answer
on_compressed loads post request (err e) = err (not_compressed e)
on_compressed loads post request (ok opus_bytes) = on_answer loads (post (request opus_bytes))

-- transcribe_audio_file as a whole; `post` is `http_client.post`, none where it raises.
unfoldable pub transcribe_with_groq :
    (Text → Option JsonValue) → Post → Ffmpeg → Text → Text → Option Text → Result GroqFailure Text
unfolding on_compressed compress_file_to_opus
transcribe_with_groq loads post f api_key model_name hotwords =
    on_compressed loads post (groq_request api_key model_name hotwords)
      (compress_file_to_opus f true).0
