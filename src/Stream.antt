-- ===== src/Stream.antt =====
-- server/routes/transcribe.py: `event_stream`, the generator of the response's text. Each round of
-- its loop is one poll, which says what the round met; with no poll left, the server closes the
-- generator at its `await`.
use vibe_voice_vendor.Base.{
  ℕ, ◌-◌, ◌*◌, Bool, true, false, Option, none, some, List, [], ◌∷◌, ◌++◌, Text, codes, leb,
  if◌then◌else◌, Fraction,
}
use vibe_voice_vendor.Models.{
  JobId, JobStatus, uploading, queued, processing, streaming, completed, failed, cancelled,
}
use vibe_voice_vendor.Json.{
  Payload, queue_payload, chunk_payload, error_payload, done_payload, JsonLibrary,
}
use vibe_voice_vendor.Queue.{TranscriptionJob}

-- One `yield`.
pub data Frame : Type 0 where
  named_frame : Text → Payload → Frame
  data_frame : Payload → Frame
  comment_frame : Text → Frame

-- The lines of a frame: the text of the `yield` is these, each with its "\n".
abbrev pub frame_lines : JsonLibrary → Frame → List Text
frame_lines json (named_frame name p) =
    (codes "event: " ++ name) ∷ (codes "data: " ++ json.dumps p) ∷ [] ∷ []
frame_lines json (data_frame p) = (codes "data: " ++ json.dumps p) ∷ [] ∷ []
frame_lines json (comment_frame t) = (codes ": " ++ t) ∷ [] ∷ []

-- The client is gone; one second passed without a chunk; a chunk or the sentinel was there. With the
-- reading of the clock after it.
pub data Poll : Type 0 where
  gone : Poll
  idle : ℕ → Poll
  item : Option Text → ℕ → Poll

-- Ticks of the clock in a second; the keep-alive's interval.
abbrev pub ticks_per_second : ℕ
ticks_per_second = 1000000000

abbrev pub keepalive_ticks : ℕ
keepalive_ticks = 5 * ticks_per_second

-- `job.error_message or "Transcription failed"`
abbrev pub error_text : Option Text → Text
error_text none = codes "Transcription failed"
error_text (some []) = codes "Transcription failed"
error_text (some (c ∷ t)) = c ∷ t

-- `job.status == FAILED or job.error_message is not None`, for a job that is not cancelled
abbrev pub result_frame : JobId → Option Text → Frame
result_frame id none = named_frame (codes "done") (done_payload id)
result_frame id (some t) = named_frame (codes "error") (error_payload (error_text (some t)))

-- After the sentinel.
unfoldable pub last_frames : JobId → JobStatus → Option Text → List Frame
last_frames id cancelled message = []
last_frames id failed message =
    named_frame (codes "error") (error_payload (error_text message)) ∷ []
last_frames id uploading message = result_frame id message ∷ []
last_frames id queued message = result_frame id message ∷ []
last_frames id processing message = result_frame id message ∷ []
last_frames id streaming message = result_frame id message ∷ []
last_frames id completed message = result_frame id message ∷ []

-- What was yielded, and whether `queue.cancel` was called.
pub record Streamed : Type 0 where
  pub frames : List Frame
  pub cancels : Bool

-- The `while` loop and what follows it. The job's fields are those at the end of the loop.
unfoldable pub stream_from : TranscriptionJob → ℕ → List Poll → Streamed
unfolding last_frames
stream_from job last_sent [] = record { frames = []; cancels = true }
stream_from job last_sent (gone ∷ more) = record { frames = []; cancels = true }
stream_from job last_sent (idle now ∷ more) =
    let sent = stream_from job now more in
    let silent = stream_from job last_sent more in
    if leb keepalive_ticks (now - last_sent)
    then record sent { frames = comment_frame (codes "keepalive") ∷ sent.frames }
    else silent
stream_from job last_sent (item none now ∷ more) = record {
  frames = last_frames job.job_id job.status job.error_message;
  cancels = false;
}
stream_from job last_sent (item (some chunk) now ∷ more) =
    let rest = stream_from job now more in
    record rest { frames = data_frame (chunk_payload chunk) ∷ rest.frames }

-- The first `yield`.
unfoldable pub first_frame : JobId → Option (ℕ × Fraction) → Frame
first_frame id none = comment_frame (codes "accepted")
first_frame id (some (position, eta)) =
    named_frame (codes "queue")
      (queue_payload (record { job_id = id; position = position; estimated_wait_seconds = eta }))

-- The generator, from the position and the waiting time, and the clock after the first `yield`.
unfoldable pub event_stream : TranscriptionJob → Option (ℕ × Fraction) → ℕ → List Poll → Streamed
unfolding first_frame stream_from
event_stream job place now polls =
    let rest = stream_from job now polls in
    record rest { frames = first_frame job.job_id place ∷ rest.frames }
