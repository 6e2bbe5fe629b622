-- ===== src/Queue.antt =====
-- server/queue.py: the jobs and the operations of `TranscriptionQueue` that the routes call.
--
-- A job object is shared by the queue, the route that made it and the worker. It is named by its id,
-- which is random and so its own: `heap` holds every job object, and `jobs` the keys of the ordered
-- dictionary `_jobs`, so a job that was popped from `_jobs` still exists. Clock readings are numbers
-- of ticks, and an average of them is the exact quotient.
pub mod Status
pub mod Worker
pub mod Events
use vibe_voice_vendor.Base.{
  ℕ, suc, ◌+◌, ◌*◌, Bool, true, false, ◌&&◌, not, Option, none, some, List, [], ◌∷◌, ◌++◌, length,
  Text, codes, text_eq, ◌==◌, leb, if◌then◌else◌, Result, ok, err, ◌>>=◌, Fraction, All,
}
use vibe_voice_vendor.Models.{
  JobId, JobStatus, uploading, queued, cancelled, is_terminal, is_active, is_uploading, is_queued,
  JobInfo, QueueStatusResponse,
}
use vibe_voice_vendor.Keys.{mem, put_key, remove_key}
use vibe_voice_vendor.Disk.{FilePath, Disk, discard_file}

-- How the task of `process_fn` ended; `raised` has `str(exc)` and the exception's type name.
pub data Outcome : Type 0 where
  returned interrupted : Outcome
  raised : Text → Text → Outcome

-- A task that was asked to cancel gets the `CancelledError` at its next step.
pub data TaskState : Type 0 where
  running cancelling : TaskState
  done : Outcome → TaskState

pub record TranscriptionJob : Type 0 where
  pub job_id : JobId
  pub client_identity : Text
  pub audio_path : Option FilePath
  pub audio_mime : Text
  pub hotwords : Option Text
  pub audio_duration_seconds : Fraction
  pub status : JobStatus
  pub chunk_queue : List (Option Text)
  pub error_message : Option Text
  pub created_at : ℕ
  pub cancel_requested : Bool
  pub process_task : Option TaskState
  pub terminal_notified : Bool
  pub cleanup_scheduled : Bool

-- The worker task: at `await self._pending.get()`, at `await job.process_task`, or over.
pub data WorkerState : Type 0 where
  waiting stopped : WorkerState
  awaiting : JobId → ℕ → WorkerState

pub record TranscriptionQueue : Type 0 where
  pub max_size : ℕ
  pub pending : List JobId
  pub jobs : List JobId
  pub processing_times : List ℕ
  pub worker : WorkerState
  pub process_fn_set : Bool
  pub cleanup_tasks : List JobId
  pub heap : JobId → TranscriptionJob
  pub disk : Disk

-- asyncio.QueueFull, ValueError, KeyError, and the RuntimeError of `submit` with the state.
pub data QueueError : Type 0 where
  queue_full bad_max_size key_error : QueueError
  cannot_submit : JobStatus → QueueError

abbrev pub max_history : ℕ
max_history = 20

abbrev pub job_cancelled : Text
job_cancelled = codes "Job cancelled"

abbrev pub update : JobId → TranscriptionJob → (JobId → TranscriptionJob) → JobId → TranscriptionJob
update id job heap k = if k == id then job else heap k

abbrev pub set_job : JobId → TranscriptionJob → TranscriptionQueue → TranscriptionQueue
set_job id job q = record q { heap = update id job q.heap }

-- TranscriptionJob(client_identity=...), with its id and the clock reading given.
unfoldable pub new_job : JobId → Text → ℕ → TranscriptionJob
new_job id client now = record {
  job_id = id;
  client_identity = client;
  audio_path = none;
  audio_mime = codes "application/octet-stream";
  hotwords = none;
  audio_duration_seconds = record { num = 0; den = 1 };
  status = uploading;
  chunk_queue = [];
  error_message = none;
  created_at = now;
  cancel_requested = false;
  process_task = none;
  terminal_notified = false;
  cleanup_scheduled = false;
}

unfoldable pub count_active : (JobId → TranscriptionJob) → List JobId → ℕ
count_active heap [] = 0
count_active heap (k ∷ ks) = (if is_active (heap k).status then 1 else 0) + count_active heap ks

abbrev pub active_count : TranscriptionQueue → ℕ
active_count q = count_active q.heap q.jobs

unfoldable pub reserve :
    TranscriptionJob → TranscriptionQueue → Result QueueError TranscriptionQueue
reserve job q =
    if leb q.max_size (active_count q)
    then err queue_full
    else ok (record (set_job job.job_id (record job { status = uploading }) q) {
      jobs = put_key job.job_id q.jobs;
    })

-- submit after the lookup of the job
unfoldable pub enter : JobId → TranscriptionQueue → TranscriptionQueue
enter id q = record (set_job id (record (q.heap id) { status = queued }) q) {
  pending = q.pending ++ id ∷ [];
}

unfoldable pub submit : JobId → TranscriptionQueue → Result QueueError TranscriptionQueue
unfolding enter
submit id q =
    if mem id q.jobs
    then (if is_uploading (q.heap id).status
        then ok (enter id q)
        else err (cannot_submit (q.heap id).status))
    else err key_error

unfoldable pub enqueue :
    TranscriptionJob → TranscriptionQueue → Result QueueError TranscriptionQueue
enqueue job q = do reserved ← reserve job q; submit job.job_id reserved

-- `if task and not task.done(): task.cancel()`
unfoldable pub cancel_task : Option TaskState → Option TaskState
cancel_task (some running) = some cancelling
cancel_task t = t

-- _notify_terminal
unfoldable pub notify_terminal : TranscriptionJob → TranscriptionJob
notify_terminal job =
    if job.terminal_notified
    then job
    else record job { terminal_notified = true; chunk_queue = job.chunk_queue ++ none ∷ [] }

unfoldable pub discard_from : Option FilePath → Disk → Disk
discard_from none disk = disk
discard_from (some p) disk = discard_file p disk

-- discard_audio of the job named `id`. The file of an upload can always be removed, or is gone: an
-- OSError of `os.unlink` other than FileNotFoundError, which would leave out what follows, is not
-- modelled.
unfoldable pub discard_audio : JobId → TranscriptionQueue → TranscriptionQueue
unfolding discard_from
discard_audio id q = record (set_job id (record (q.heap id) { audio_path = none }) q) {
  disk = discard_from (q.heap id).audio_path q.disk;
}

-- _schedule_cleanup
unfoldable pub schedule_cleanup : JobId → TranscriptionQueue → TranscriptionQueue
schedule_cleanup id q =
    if mem id q.jobs && not (q.heap id).cleanup_scheduled
    then record (set_job id (record (q.heap id) { cleanup_scheduled = true }) q) {
      cleanup_tasks = id ∷ q.cleanup_tasks;
    }
    else q

-- What `cancel` and the worker's `finally` block do last.
unfoldable pub wind_up : JobId → TranscriptionQueue → TranscriptionQueue
wind_up id q =
    let discarded = discard_audio id q in
    schedule_cleanup id (set_job id (notify_terminal (discarded.heap id)) discarded)

pub mark_cancelled : TranscriptionJob → TranscriptionJob
mark_cancelled job = record job {
  cancel_requested = true;
  status = cancelled;
  error_message = some job_cancelled;
  process_task = cancel_task job.process_task;
}

unfoldable pub cancel : JobId → TranscriptionQueue → TranscriptionQueue × Bool
unfolding mark_cancelled
cancel id q =
    if mem id q.jobs && not (is_terminal (q.heap id).status)
    then (wind_up id (set_job id (mark_cancelled (q.heap id)) q), true)
    else (q, false)

-- The part of _cleanup_job after its sleep, and the end of its task.
unfoldable pub cleanup_job : JobId → TranscriptionQueue → TranscriptionQueue
cleanup_job id q =
    let swept = record q { cleanup_tasks = remove_key id q.cleanup_tasks } in
    if mem id q.jobs then discard_audio id (record swept { jobs = remove_key id q.jobs }) else swept

-- __init__ and set_process_fn. No job object exists yet; the heap is filled by `reserve`.
unfoldable pub init : ℕ → Bool → Disk → Result QueueError TranscriptionQueue
init max_size process_fn_set disk =
    if leb 1 max_size
    then ok (record {
      max_size = max_size;
      pending = [];
      jobs = [];
      processing_times = [];
      worker = waiting;
      process_fn_set = process_fn_set;
      cleanup_tasks = [];
      heap = λ k. new_job k [] 0;
      disk = disk;
    })
    else err bad_max_size
