-- ===== src/Queue/Events/WindUp.antt =====
-- What `discard_audio`, `_notify_terminal` and `_schedule_cleanup` together do to a job, to its place
-- and to the rest of the queue.
use vibe_voice_vendor.Base.{
  ◌≡◌, Bool-cases, ==_self, inl, inr, Bool, true, false, not, ◌&&◌, ◌||◌, Option, none, List, [],
  ◌∷◌, ◌++◌, Text, ◌==◌, if◌then◌else◌, arith,
}
use vibe_voice_vendor.Models.{JobId, processing, is_cancelled, is_terminal}
use vibe_voice_vendor.Keys.{mem}
use vibe_voice_vendor.Queue.{
  TranscriptionJob, TranscriptionQueue, set_job, wind_up, discard_from, discard_audio,
  notify_terminal, schedule_cleanup, mark_cancelled, cancel_task, Outcome, returned,
}
use vibe_voice_vendor.Queue.Worker.{settle}
use vibe_voice_vendor.Queue.Events.JobOk.{JobOk, Place, place, OkAt, ends_once-append_none}

abbrev pub closed_queue : TranscriptionJob → List (Option Text)
closed_queue job = if job.terminal_notified then job.chunk_queue else job.chunk_queue ++ none ∷ []

abbrev pub wound : Bool → TranscriptionJob → TranscriptionJob
wound listed job = record job {
  audio_path = none;
  terminal_notified = true;
  chunk_queue = closed_queue job;
  cleanup_scheduled = job.cleanup_scheduled || listed;
}

abbrev pub swept : Place → TranscriptionJob → Place
swept at job = record at { sweeping = at.sweeping || (at.listed && not job.cleanup_scheduled) }

module _ (id j : JobId) (q : TranscriptionQueue) where
  pub heap-wind_up :
      (wind_up id q).heap j ≡ (if j == id then wound (mem id q.jobs) (q.heap id) else q.heap j)
  unfolding wind_up discard_audio notify_terminal schedule_cleanup
  heap-wind_up = ground arith

module _ (id : JobId) (q : TranscriptionQueue) where
  pub jobs-wind_up : (wind_up id q).jobs ≡ q.jobs
  unfolding wind_up discard_audio schedule_cleanup
  jobs-wind_up = ground arith

  pub pending-wind_up : (wind_up id q).pending ≡ q.pending
  unfolding wind_up discard_audio schedule_cleanup
  pending-wind_up = ground arith

  pub max_size-wind_up : (wind_up id q).max_size ≡ q.max_size
  unfolding wind_up discard_audio schedule_cleanup
  max_size-wind_up = ground arith

  pub processing_times-wind_up : (wind_up id q).processing_times ≡ q.processing_times
  unfolding wind_up discard_audio schedule_cleanup
  processing_times-wind_up = ground arith

  pub disk-wind_up : (wind_up id q).disk ≡ discard_from (q.heap id).audio_path q.disk
  unfolding wind_up discard_audio schedule_cleanup
  disk-wind_up = ground arith

  pub worker-wind_up : (wind_up id q).worker ≡ q.worker
  unfolding wind_up discard_audio schedule_cleanup
  worker-wind_up = ground arith

  pub cleanup_tasks-wind_up : (wind_up id q).cleanup_tasks ≡ (
      if mem id q.jobs && not (q.heap id).cleanup_scheduled
      then id ∷ q.cleanup_tasks
      else q.cleanup_tasks)
  unfolding wind_up discard_audio schedule_cleanup notify_terminal
  cleanup_tasks-wind_up = ground arith

-- A job that is being cancelled.
pub cancelled-JobOk :
    (job : TranscriptionJob) (at : Place)
    → JobOk job at
    → at.listed ≡ true
    → is_terminal job.status ≡ false
    → JobOk (wound at.listed (mark_cancelled job)) (swept at (mark_cancelled job))
unfolding mark_cancelled cancel_task
cancelled-JobOk job at o l t = ground (arith, ends_once-append_none job.chunk_queue)

-- A job that the worker has awaited.
abbrev pub resumed : Outcome → TranscriptionJob → TranscriptionJob
resumed outcome job = record (settle outcome job).0 { process_task = none }

abbrev pub left : Outcome → TranscriptionJob → Place → Place
left outcome job at = record at { current = false; halted = not (settle outcome job).1 }

pub resumed-JobOk :
    (outcome : Outcome) (job : TranscriptionJob) (at : Place)
    → JobOk job at
    → at.current ≡ true
    → at.halted ≡ false
    → JobOk
        (wound at.listed (resumed outcome job))
        (swept (left outcome job at) (resumed outcome job))
unfolding settle
resumed-JobOk outcome job at o c h = ground (arith, ends_once-append_none job.chunk_queue)

-- A job that the worker takes on with no `process_fn`: it is done at once.
pub idle-JobOk :
    (job : TranscriptionJob) (at : Place)
    → JobOk job at
    → at.pending ≡ true
    → at.listed ≡ true
    → is_cancelled job.status ≡ false
    → at.halted ≡ false
    → JobOk (wound at.listed (resumed returned (record job { status = processing }))) (
        swept
          (record at { pending = false; current = false })
          (resumed returned (record job { status = processing })))
unfolding settle
idle-JobOk job at o p l c h = ground (arith, ends_once-append_none job.chunk_queue)

place-wind_up :
    (id j : JobId) (q : TranscriptionQueue)
    → place j (wind_up id q) ≡ (if j == id then swept (place id q) (q.heap id) else place j q)
unfolding mem
place-wind_up id j q = ground (
  arith,
  jobs-wind_up id q,
  pending-wind_up id q,
  worker-wind_up id q,
  cleanup_tasks-wind_up id q,
)

-- So a queue that winds up a job keeps every job in order, if that job was ready for it.
pub wind_up-OkAt :
    (id j : JobId) (q : TranscriptionQueue)
    → JobOk (wound (mem id q.jobs) (q.heap id)) (swept (place id q) (q.heap id))
    → ((j == id) ≡ false → OkAt j q)
    → OkAt j (wind_up id q)
wind_up-OkAt id j q ready others = elim (Bool-cases (j == id)) [
  | inl same ↦ rw (heap-wind_up id j q, place-wind_up id j q, same) ready
  | inr other ↦ rw (heap-wind_up id j q, place-wind_up id j q, other) (others other)
]

pub set_job-wind_up-OkAt :
    (id j : JobId) (job : TranscriptionJob) (q : TranscriptionQueue)
    → JobOk (wound (mem id q.jobs) job) (swept (place id q) job)
    → ((j == id) ≡ false → OkAt j q)
    → OkAt j (wind_up id (set_job id job q))
set_job-wind_up-OkAt id j job q ready others =
    wind_up-OkAt id j (set_job id job q) (rw (==_self id) ready) (λ other. rw other (others other))
