-- ===== src/Client/EndToEnd.antt =====
-- From `event_stream` to the client: what the client receives of a job's chunks and of its end.
use vibe_voice_vendor.Base.{
  ℕ, ◌-◌, ◌≡◌, refl, ◌∙◌, ap, Bool, true, false, not, Bool-cases, inl, inr, Option, none, some,
  List, [], ◌∷◌, ◌++◌, map, Text, leb, arith, if◌then◌else◌, Fraction, All,
}
use vibe_voice_vendor.Models.{
  JobStatus, uploading, queued, processing, streaming, completed, failed, cancelled, is_cancelled,
}
use vibe_voice_vendor.Json.{
  queue_payload, chunk_payload, error_payload, done_payload, JsonLibrary, IsJson,
}
use vibe_voice_vendor.Queue.{TranscriptionJob}
use vibe_voice_vendor.Stream.{
  Poll, gone, idle, item, keepalive_ticks, error_text, last_frames, stream_from, first_frame,
  Streamed, event_stream,
}
use vibe_voice_vendor.Client.{TranscriptionEvent, receive}
use vibe_voice_vendor.Client.RoundTrip.{
  event_of_payload, IsEventFrame, response_text, events_of, receive-response_text,
}

-- The chunks that the polls bring before the sentinel, or before the client is gone.
abbrev pub chunks_of : List Poll → List Text
chunks_of [] = []
chunks_of (gone ∷ more) = []
chunks_of (idle now ∷ more) = chunks_of more
chunks_of (item none now ∷ more) = []
chunks_of (item (some chunk) now ∷ more) = chunk ∷ chunks_of more

-- Whether the sentinel comes, with the client still there.
abbrev pub finishes : List Poll → Bool
finishes [] = false
finishes (gone ∷ more) = false
finishes (idle now ∷ more) = finishes more
finishes (item none now ∷ more) = true
finishes (item (some chunk) now ∷ more) = finishes more

abbrev pub is_failure : JobStatus → Option Text → Bool
is_failure failed message = true
is_failure status none = false
is_failure status (some t) = true

module _ (json : JsonLibrary) where
  -- What the client is told of the end of a job.
  abbrev pub end_events : TranscriptionJob → List TranscriptionEvent
  end_events job =
      if is_cancelled job.status
      then []
      else if is_failure job.status job.error_message
      then event_of_payload json (error_payload (error_text job.error_message)) ∷ []
      else event_of_payload json (done_payload job.job_id) ∷ []

  abbrev pub chunk_event : Text → TranscriptionEvent
  chunk_event t = event_of_payload json (chunk_payload t)

  abbrev pub place_events : TranscriptionJob → Option (ℕ × Fraction) → List TranscriptionEvent
  place_events job none = []
  place_events job (some (position, eta)) =
      event_of_payload json (
        queue_payload
          (record { job_id = job.job_id; position = position; estimated_wait_seconds = eta }))
      ∷ []

  abbrev pub stream_events : TranscriptionJob → List Poll → List TranscriptionEvent
  stream_events job polls =
      map chunk_event (chunks_of polls) ++ (if finishes polls then end_events job else [])

  -- The last frames, by the status and the message.
  events_of-last_frames :
      (job : TranscriptionJob) (status : JobStatus) (message : Option Text)
      → job.status ≡ status
      → job.error_message ≡ message
      → (events_of json (last_frames job.job_id status message) ≡ end_events job)
        × All IsEventFrame (last_frames job.job_id status message)
  unfolding last_frames
  events_of-last_frames job uploading none s m = rw (s, m) (refl, (refl, tt))
  events_of-last_frames job uploading (some t) s m = rw (s, m) (refl, (refl, tt))
  events_of-last_frames job queued none s m = rw (s, m) (refl, (refl, tt))
  events_of-last_frames job queued (some t) s m = rw (s, m) (refl, (refl, tt))
  events_of-last_frames job processing none s m = rw (s, m) (refl, (refl, tt))
  events_of-last_frames job processing (some t) s m = rw (s, m) (refl, (refl, tt))
  events_of-last_frames job streaming none s m = rw (s, m) (refl, (refl, tt))
  events_of-last_frames job streaming (some t) s m = rw (s, m) (refl, (refl, tt))
  events_of-last_frames job completed none s m = rw (s, m) (refl, (refl, tt))
  events_of-last_frames job completed (some t) s m = rw (s, m) (refl, (refl, tt))
  events_of-last_frames job failed message s m = rw (s, m) (refl, (refl, tt))
  events_of-last_frames job cancelled message s m = rw s (refl, tt)

  record StreamsAll (job : TranscriptionJob) (polls : List Poll) (streamed : Streamed)
      : Type 0 where
    announces : events_of json streamed.frames ≡ stream_events job polls
    well_named : All IsEventFrame streamed.frames
    cancels_unless_finished : streamed.cancels ≡ not (finishes polls)

  stream_from-StreamsAll :
      (job : TranscriptionJob) (last_sent : ℕ) (polls : List Poll)
      → StreamsAll job polls (stream_from job last_sent polls)
  unfolding stream_from
  stream_from-StreamsAll job last_sent [] = record {
    announces = refl;
    well_named = tt;
    cancels_unless_finished = refl;
  }
  stream_from-StreamsAll job last_sent (gone ∷ more) = record {
    announces = refl;
    well_named = tt;
    cancels_unless_finished = refl;
  }
  stream_from-StreamsAll job last_sent (idle now ∷ more) =
      elim (Bool-cases (leb keepalive_ticks (now - last_sent))) [
        | inl b ↦
            let w = stream_from-StreamsAll job now more in
            rw b (record {
              announces = w.announces;
              well_named = (omega arith, w.well_named);
              cancels_unless_finished = w.cancels_unless_finished;
            })
        | inr b ↦
            let w = stream_from-StreamsAll job last_sent more in
            rw b (record {
              announces = w.announces;
              well_named = w.well_named;
              cancels_unless_finished = w.cancels_unless_finished;
            })
      ]
  stream_from-StreamsAll job last_sent (item none now ∷ more) =
      let w = events_of-last_frames job job.status job.error_message refl refl in
      record { announces = w.0; well_named = w.1; cancels_unless_finished = refl }
  stream_from-StreamsAll job last_sent (item (some chunk) now ∷ more) =
      let w = stream_from-StreamsAll job now more in
      record {
        announces = ap (◌∷◌ (chunk_event chunk)) w.announces;
        well_named = (refl, w.well_named);
        cancels_unless_finished = w.cancels_unless_finished;
      }

  event_stream-StreamsAll :
      (job : TranscriptionJob) (place : Option (ℕ × Fraction)) (now : ℕ) (polls : List Poll)
      → (events_of json (event_stream job place now polls).frames
          ≡ place_events job place ++ stream_events job polls)
        × All IsEventFrame (event_stream job place now polls).frames
        × ((event_stream job place now polls).cancels ≡ not (finishes polls))
  unfolding event_stream first_frame
  event_stream-StreamsAll job none now polls =
      let w = stream_from-StreamsAll job now polls in
      (w.announces, (omega arith, w.well_named), w.cancels_unless_finished)
  event_stream-StreamsAll job (some (position, eta)) now polls =
      let w = stream_from-StreamsAll job now polls in
      (
        ap (λ events. place_events job (some (position, eta)) ++ events) w.announces,
        (refl, w.well_named),
        w.cancels_unless_finished,
      )

  -- With a JSON library that reads back what it printed on one line, the client receives from the
  -- text of the event stream exactly: the queue event, if the job had a position; the text of every
  -- chunk before the sentinel, in order; and, if the sentinel came, nothing for a cancelled job, the
  -- error for one that failed or has a message, and otherwise that it is done. The stream cancels the
  -- job exactly if the sentinel did not come.
  pub receive-event_stream :
      IsJson json
      → (job : TranscriptionJob) (place : Option (ℕ × Fraction)) (now : ℕ) (polls : List Poll)
      → (receive json (response_text json (event_stream job place now polls).frames)
          ≡ record { events = place_events job place ++ stream_events job polls; raised = none })
        × ((event_stream job place now polls).cancels ≡ not (finishes polls))
  receive-event_stream laws job place now polls =
      let (announces, named, cancels) = event_stream-StreamsAll job place now polls in
      (
        receive-response_text json laws (event_stream job place now polls).frames named
            ∙ ap (λ events. record { events = events; raised = none }) announces,
        cancels,
      )
