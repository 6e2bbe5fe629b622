-- ===== src/Queue/Events.antt =====
-- The queue in its event loop. The loop runs one piece of code at a time, from one `await` to the
-- next, so a history is a list of such pieces: those of the route (server/routes/transcribe.py), of
-- the worker, of the task that runs `process_fn` (server/transcribe.py), of the cleanup tasks, and of
-- `stop`. A piece that cannot run where the history has it changes nothing.
mod JobOk
pub mod WindUp
mod Each
mod Capacity
mod Distinct
pub mod Invariant
pub mod Reachable
pub mod Cancel
pub mod Order
pub mod Races
mod ProcessFn
pub mod Progress
pub mod Tests
use vibe_voice_vendor.Base.{
  ℕ, Bool, true, false, not, ◌&&◌, ◌||◌, Option, none, some, List, [], ◌∷◌, ◌++◌, Text, ◌==◌,
  if◌then◌else◌, Result, ok, err, Fraction,
}
use vibe_voice_vendor.Models.{JobId, streaming, is_uploading}
use vibe_voice_vendor.Keys.{mem}
use vibe_voice_vendor.Disk.{FilePath, has_file}
use vibe_voice_vendor.Queue.{
  Outcome, returned, interrupted, raised, TaskState, running, cancelling, done, TranscriptionJob,
  TranscriptionQueue, QueueError, WorkerState, waiting, stopped, awaiting, set_job, new_job,
  reserve, submit, cancel, cleanup_job,
}
use vibe_voice_vendor.Queue.Worker.{take, resume}

pub data Event : Type 0 where
  -- the route: reserve a new job; note its metadata; note its spooled file; submit; cancel; read
  arrives : JobId → Text → ℕ → Event
  describes : JobId → Text → Option Text → Event
  spools : JobId → FilePath → Fraction → Event
  submits cancels reads : JobId → Event
  -- the worker's two pieces, at a clock reading
  takes resumes : ℕ → Event
  -- process_fn: `job.status = STREAMING`, a chunk, `job.error_message = ...`, the end
  streams : JobId → Event
  emits faults : JobId → Text → Event
  ends : JobId → Outcome → Event
  -- the end of a cleanup task's sleep; the start and the end of `stop`
  expires : JobId → Event
  stops clears : Event

abbrev pub is_current : JobId → WorkerState → Bool
is_current k waiting = false
is_current k stopped = false
is_current k (awaiting id start) = k == id

abbrev pub is_stopped : WorkerState → Bool
is_stopped stopped = true
is_stopped _ = false

-- A random id is in use nowhere.
abbrev pub is_fresh : JobId → TranscriptionQueue → Bool
is_fresh id q =
    not (mem id q.jobs || mem id q.pending || mem id q.cleanup_tasks || is_current id q.worker)

abbrev pub after : Result QueueError TranscriptionQueue → TranscriptionQueue → TranscriptionQueue
after (ok q) _ = q
after (err e) q = q

abbrev pub is_running : Option TaskState → Bool
is_running (some running) = true
is_running _ = false

-- A running task returns or raises; one that was cancelled ends by the `CancelledError`, or by an
-- exception that its clean-up raises.
abbrev pub can_end : Option TaskState → Outcome → Bool
can_end (some running) returned = true
can_end (some running) (raised m t) = true
can_end (some cancelling) interrupted = true
can_end (some cancelling) (raised m t) = true
can_end _ _ = false

-- Cancelling the worker at its second `await`: a task that is not over is cancelled, and one that is
-- over does not keep the `CancelledError` from the worker.
abbrev pub interrupt : Option TaskState → Option TaskState
interrupt (some running) = some cancelling
interrupt (some (done o)) = some (done interrupted)
interrupt t = t

abbrev pub uploads : JobId → TranscriptionQueue → Bool
uploads id q = mem id q.jobs && is_uploading (q.heap id).status

abbrev pub on_job :
    JobId → (TranscriptionJob → TranscriptionJob) → TranscriptionQueue → TranscriptionQueue
on_job id f q = set_job id (f (q.heap id)) q

abbrev pub if_running :
    JobId → (TranscriptionJob → TranscriptionJob) → TranscriptionQueue → TranscriptionQueue
if_running id f q = if is_running (q.heap id).process_task then on_job id f q else q

abbrev pub pop_front : List (Option Text) → List (Option Text)
pop_front [] = []
pop_front (c ∷ cs) = cs

pub resume_task : JobId → ℕ → ℕ → Option TaskState → TranscriptionQueue → TranscriptionQueue
resume_task id start now (some (done outcome)) q = resume id start now outcome q
resume_task id start now _ q = q

pub resume_worker : ℕ → WorkerState → TranscriptionQueue → TranscriptionQueue
unfolding resume_task
resume_worker now (awaiting id start) q = resume_task id start now (q.heap id).process_task q
resume_worker now _ q = q

abbrev pub take_if_waiting : WorkerState → ℕ → TranscriptionQueue → TranscriptionQueue
take_if_waiting waiting now q = take now q
take_if_waiting _ now q = q

-- `self._worker_task.cancel()`
pub stop_worker : WorkerState → TranscriptionQueue → TranscriptionQueue
stop_worker waiting q = record q { worker = stopped }
stop_worker stopped q = q
stop_worker (awaiting id start) q =
    on_job id (λ job. record job { process_task = interrupt job.process_task }) q

unfoldable pub react : Event → TranscriptionQueue → TranscriptionQueue
unfolding resume_worker stop_worker
react (arrives id client now) q =
    if is_fresh id q then after (reserve (new_job id client now) q) q else q
react (describes id mime hotwords) q =
    if uploads id q
    then on_job id (λ job. record job { audio_mime = mime; hotwords = hotwords }) q
    else q
react (spools id p duration) q =
    if uploads id q && not (has_file p q.disk.files)
    then record (on_job id
        (λ job. record job { audio_path = some p; audio_duration_seconds = duration }) q) {
          disk = record q.disk { files = p ∷ q.disk.files; dirs = p.directory ∷ q.disk.dirs };
        }
    else q
react (submits id) q = after (submit id q) q
react (cancels id) q = (cancel id q).0
react (reads id) q = on_job id (λ job. record job { chunk_queue = pop_front job.chunk_queue }) q
react (takes now) q = take_if_waiting q.worker now q
react (resumes now) q = resume_worker now q.worker q
react (streams id) q = if_running id (λ job. record job { status = streaming }) q
react (emits id chunk) q =
    if_running id (λ job. record job { chunk_queue = job.chunk_queue ++ some chunk ∷ [] }) q
react (faults id message) q = if_running id (λ job. record job { error_message = some message }) q
react (ends id outcome) q =
    if can_end (q.heap id).process_task outcome
    then on_job id (λ job. record job { process_task = some (done outcome) }) q
    else q
react (expires id) q = if mem id q.cleanup_tasks then cleanup_job id q else q
react stops q = stop_worker q.worker q
react clears q = if is_stopped q.worker then record q { cleanup_tasks = [] } else q

unfoldable pub run : List Event → TranscriptionQueue → TranscriptionQueue
run [] q = q
run (e ∷ es) q = run es (react e q)
