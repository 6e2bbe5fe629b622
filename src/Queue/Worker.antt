-- ===== src/Queue/Worker.antt =====
-- server/queue.py: `_worker`, cut at its two `await`s. `take` is the part from `_pending.get()` to
-- the next `await`; `resume` is the part from the end of `await job.process_task` to the top of the
-- loop. A `CancelledError` reaches the worker at its second `await` once the task has ended, since
-- cancelling the worker cancels the task that it awaits; so the task that the handler would still
-- cancel and await (lines 219-230) is over by then.
use vibe_voice_vendor.Base.{
  ℕ, ◌-◌, Bool, true, false, not, ◌||◌, Option, none, some, List, [], ◌∷◌, ◌++◌, length, Text,
  codes, ltb, if◌then◌else◌, drop,
}
use vibe_voice_vendor.Models.{
  JobId, JobStatus, processing, completed, failed, cancelled, is_cancelled, is_finished,
}
use vibe_voice_vendor.Keys.{mem}
use vibe_voice_vendor.Queue.{
  Outcome, returned, interrupted, raised, running, TranscriptionJob, TranscriptionQueue, waiting,
  stopped, awaiting, set_job, max_history, job_cancelled, wind_up,
}

abbrev pub queue_stopped : Text
queue_stopped = codes "Queue stopped"

-- `str(exc) or type(exc).__name__`
abbrev text_of : Text → Text → Text
text_of [] type_name = type_name
text_of (c ∷ message) type_name = c ∷ message

abbrev is_some : Option Text → Bool
is_some none = false
is_some (some t) = true

-- The job's status and message after the `try` statement, and whether the worker goes on.
unfoldable pub settle : Outcome → TranscriptionJob → TranscriptionJob × Bool
settle returned job =
    (record job { status = if is_some job.error_message then failed else completed }, true)
settle (raised message type_name) job =
    (record job { status = failed; error_message = some (text_of message type_name) }, true)
settle interrupted job =
    if job.cancel_requested
    then (record job { status = cancelled; error_message = some job_cancelled }, true)
    else (record job { status = cancelled; error_message = some queue_stopped }, false)

-- The history keeps the last `max_history` times.
unfoldable pub record_time : ℕ → List ℕ → List ℕ
record_time elapsed times =
    let longer = times ++ elapsed ∷ [] in
    if ltb max_history (length longer) then drop 1 longer else longer

unfoldable pub times_after : JobStatus → ℕ → List ℕ → List ℕ
unfolding record_time
times_after status elapsed times = if is_finished status then record_time elapsed times else times

-- The `try`, its handlers and the `finally` block, for a job that has just been awaited.
unfoldable pub resume : JobId → ℕ → ℕ → Outcome → TranscriptionQueue → TranscriptionQueue
unfolding times_after
resume id start now outcome q =
    let (job, goes_on) = settle outcome (q.heap id) in
    wind_up id (record (set_job id (record job { process_task = none }) q) {
      processing_times = times_after job.status (now - start) q.processing_times;
      worker = if goes_on then waiting else stopped;
    })

-- The job is taken on, `if self._process_fn`; with none there is nothing to await.
unfoldable pub start_job : Bool → JobId → ℕ → TranscriptionQueue → TranscriptionQueue
start_job true id now q =
    record (set_job id (record (q.heap id) { status = processing; process_task = some running })
      q) { worker = awaiting id now }
start_job false id now q =
    resume id now now returned (set_job id (record (q.heap id) { status = processing }) q)

-- One round of the loop up to `await job.process_task`, with the queue's first entry.
unfoldable pub take_entry : JobId → ℕ → TranscriptionQueue → TranscriptionQueue
unfolding start_job
take_entry id now q =
    if not (mem id q.jobs) || is_cancelled (q.heap id).status
    then q
    else start_job q.process_fn_set id now q

unfoldable pub take_from : List JobId → ℕ → TranscriptionQueue → TranscriptionQueue
take_from [] now q = q
take_from (id ∷ rest) now q = take_entry id now (record q { pending = rest })

-- With the queue empty, the worker goes on waiting.
unfoldable pub take : ℕ → TranscriptionQueue → TranscriptionQueue
unfolding take_from
take now q = take_from q.pending now q
