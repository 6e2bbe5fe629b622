-- ===== src/Backend/Process/Completed.antt =====
-- When a job is COMPLETED: the process functions followed by the worker's `settle`.
use mathlib.Core.List.{append_assoc, append-nil}
use vibe_voice_vendor.Base.{
  join, ◌≡◌, ◌≢◌, refl, sym, ◌∙◌, ◌↔◌, inl, inr, Option, none, some, List, [], ◌∷◌, ◌++◌, map, Text,
  strip, arith, Result, ok, err,
}
use vibe_voice_vendor.Models.{streaming, completed}
use vibe_voice_vendor.Disk.{FilePath}
use vibe_voice_vendor.Queue.{TranscriptionJob, returned}
use vibe_voice_vendor.Queue.Worker.{settle}
use vibe_voice_vendor.Queue.Events.Cancel.{settle-completed_iff}
use vibe_voice_vendor.Backend.{JsonValue, OutputError, validate_vibevoice_output, nil, cons}
use vibe_voice_vendor.Backend.Segments.{IsOutput, validate_vibevoice_output-eq-ok_iff}
use vibe_voice_vendor.Backend.Process.{
  put_chunks, put_chunk, on_validated, on_streamed, with_audio, process_vibevoice_job,
  groq_segments, on_transcribed, process_groq_job, Processed,
}

-- The chunks are put in their order, and nothing else of the job but its status changes.
pub put_chunks_lem :
    (chunks : List Text) (job : TranscriptionJob)
    → ((put_chunks chunks job).chunk_queue ≡ job.chunk_queue ++ map some chunks)
      × ((put_chunks chunks job).error_message ≡ job.error_message)
      × ((put_chunks chunks job).audio_path ≡ job.audio_path)
unfolding put_chunks
put_chunks_lem [] job = (sym (append-nil job.chunk_queue), refl, refl)
put_chunks_lem (chunk ∷ chunks) job =
    let w = put_chunks_lem chunks (put_chunk chunk (record job { status = streaming })) in
    (w.0 ∙ append_assoc job.chunk_queue (some chunk ∷ []) (map some chunks), w.1, w.2)

on_validated-completed_iff :
    (describe : OutputError → Text) (r : Result OutputError (Unit {0})) (job : TranscriptionJob)
    → job.error_message ≡ none
    → (((on_validated describe r job).1 ≡ returned)
        × ((on_validated describe r job).0.error_message ≡ none))
      ↔ (r ≡ ok tt)
unfolding on_validated
on_validated-completed_iff describe (ok u) job h = ((λ w. refl), λ w. (refl, h))
on_validated-completed_iff describe (err e) job h = ground arith

on_validated-chunk_queue :
    (describe : OutputError → Text) (r : Result OutputError (Unit {0})) (job : TranscriptionJob)
    → (on_validated describe r job).0.chunk_queue ≡ job.chunk_queue
unfolding on_validated
on_validated-chunk_queue describe (ok u) job = refl
on_validated-chunk_queue describe (err e) job = refl

module _ (loads : Text → Option JsonValue) (describe : OutputError → Text)
    (chunks : List Text) where
  on_streamed-returned_iff :
      (failure : Option (Text × Text)) (job : TranscriptionJob)
      → job.error_message ≡ none
      → (((on_streamed loads describe chunks failure job).1 ≡ returned)
          × ((on_streamed loads describe chunks failure job).0.error_message ≡ none))
        ↔ ((failure ≡ none) × IsOutput loads (strip (join chunks)))
  unfolding on_streamed
  on_streamed-returned_iff (some (message, type_name)) job h =
      ((λ w. ground (arith, w.0)), λ w. ground (arith, w.0))
  on_streamed-returned_iff none job h =
      let valid =
        on_validated-completed_iff describe (validate_vibevoice_output loads (join chunks)) job h in
      let output = validate_vibevoice_output-eq-ok_iff loads (join chunks) in
      ((λ w. (refl, output.0 (valid.0 w))), λ w. valid.1 (output.1 w.1))

  on_streamed-chunk_queue :
      (failure : Option (Text × Text)) (job : TranscriptionJob)
      → (on_streamed loads describe chunks failure job).0.chunk_queue ≡ job.chunk_queue
  unfolding on_streamed
  on_streamed-chunk_queue (some (message, type_name)) job = refl
  on_streamed-chunk_queue none job = on_validated-chunk_queue describe _ job

  process_vibevoice_job-on_streamed :
      (failure : Option (Text × Text)) (job : TranscriptionJob) (p : FilePath)
      → job.audio_path ≡ some p
      → process_vibevoice_job loads describe chunks failure job
        ≡ on_streamed loads describe chunks failure (put_chunks chunks job)
  unfolding process_vibevoice_job with_audio
  process_vibevoice_job-on_streamed failure job p h = rw h refl

  -- The process function puts the stream's chunks on the job's queue, in their order, also where it
  -- raises; and the worker makes the job COMPLETED exactly if the stream raised nothing and the joined
  -- chunks, without the white space round them, are a list of segments. The job has its audio file and
  -- no message yet.
  pub process_vibevoice_job-completed_iff :
      (failure : Option (Text × Text)) (job : TranscriptionJob) (p : FilePath)
      → job.audio_path ≡ some p
      → job.error_message ≡ none
      → let (after, outcome) = process_vibevoice_job loads describe chunks failure job in
        (after.chunk_queue ≡ job.chunk_queue ++ map some chunks)
        × (((settle outcome after).0.status ≡ completed)
            ↔ ((failure ≡ none) × IsOutput loads (strip (join chunks))))
  process_vibevoice_job-completed_iff failure job p h m =
      let put = put_chunks_lem chunks job in
      let (sound, complete) =
        on_streamed-returned_iff failure (put_chunks chunks job) (put.1 ∙ m) in
      let settled = λ (r : Processed). settle-completed_iff r.1 r.0 in
      let run = on_streamed loads describe chunks failure (put_chunks chunks job) in
      rw (process_vibevoice_job-on_streamed failure job p h) (
        on_streamed-chunk_queue failure (put_chunks chunks job) ∙ put.0,
        (λ w. sound ((settled run).0 w), λ w. (settled run).1 (complete w)),
      )

-- The Groq backend's answer in the other's format passes the check that the other's output must pass:
-- a client that reads the one reads the other. The text is not empty, and the JSON library reads back
-- what it printed, which has no white space round it.
pub process_groq_job-validate :
    (loads : Text → Option JsonValue) (dumps : JsonValue → Text) (duration : JsonValue)
    (text : Text) (job : TranscriptionJob) (p : FilePath)
    → text ≢ []
    → job.audio_path ≡ some p
    → loads (dumps (groq_segments duration text)) ≡ some (groq_segments duration text)
    → strip (dumps (groq_segments duration text)) ≡ dumps (groq_segments duration text)
    → dumps (groq_segments duration text) ≢ []
    → let (after, outcome) = process_groq_job dumps duration (ok text) job in
      (outcome ≡ returned)
      × (after.status ≡ streaming)
      × (after.chunk_queue ≡ job.chunk_queue ++ some (dumps (groq_segments duration text)) ∷ [])
      × (validate_vibevoice_output loads (dumps (groq_segments duration text)) ≡ ok tt)
unfolding process_groq_job on_transcribed with_audio
process_groq_job-validate loads dumps duration [] job p n h l s e = absurd (n refl)
process_groq_job-validate loads dumps duration (c ∷ text) job p n h l s e = (
  ground (arith, h),
  ground (arith, h),
  ground (arith, h),
  (validate_vibevoice_output-eq-ok_iff loads (dumps (groq_segments duration (c ∷ text)))).1 (
      rw s (record {
        non_empty = e;
        segments = cons _ nil;
        is_list = l;
        all_segments = ((_, refl, inr (inr (inl refl))), tt);
      })),
)
