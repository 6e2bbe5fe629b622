-- ===== src/Queue/Events/ProcessFn.antt =====
-- `set_process_fn` is called once, before the worker starts: no event changes what it set.
use vibe_voice_vendor.Base.{
  ℕ, ◌≡◌, refl, ◌∙◌, Bool, true, false, Option, none, some, List, [], ◌∷◌, arith, ok,
}
use vibe_voice_vendor.Models.{JobId, processing}
use vibe_voice_vendor.Disk.{Disk}
use vibe_voice_vendor.Queue.{
  Outcome, returned, TaskState, running, cancelling, done, TranscriptionQueue, WorkerState, waiting,
  stopped, awaiting, set_job, init, reserve, submit, cancel, cleanup_job, wind_up, discard_audio,
  schedule_cleanup,
}
use vibe_voice_vendor.Queue.Worker.{resume, take, take_from, take_entry, start_job}
use vibe_voice_vendor.Queue.Events.{
  Event, arrives, describes, spools, submits, cancels, reads, takes, resumes, streams, emits,
  faults, ends, expires, stops, clears, react, run, resume_worker, resume_task, stop_worker,
  take_if_waiting,
}

pub process_fn_set-resume :
    (id : JobId) (start now : ℕ) (o : Outcome) (q : TranscriptionQueue)
    → (resume id start now o q).process_fn_set ≡ q.process_fn_set
unfolding resume wind_up discard_audio schedule_cleanup
process_fn_set-resume id start now o q = ground arith

-- No event unsets the process function.
abbrev pub SameFn : TranscriptionQueue → TranscriptionQueue → Type 0
SameFn q r = r.process_fn_set ≡ q.process_fn_set

start_job-SameFn :
    (set : Bool) (id : JobId) (now : ℕ) (q : TranscriptionQueue) → SameFn q (start_job set id now q)
unfolding start_job
start_job-SameFn true id now q = refl
start_job-SameFn false id now q =
    process_fn_set-resume id now now returned
      (set_job id (record (q.heap id) { status = processing }) q)

take_entry-SameFn : (id : JobId) (now : ℕ) (q : TranscriptionQueue) → SameFn q (take_entry id now q)
unfolding take_entry
take_entry-SameFn id now q = ground (arith, start_job-SameFn q.process_fn_set id now q)

take_from-SameFn :
    (line : List JobId) (now : ℕ) (q : TranscriptionQueue) → SameFn q (take_from line now q)
unfolding take_from
take_from-SameFn [] now q = refl
take_from-SameFn (id ∷ rest) now q = take_entry-SameFn id now (record q { pending = rest })

take_if_waiting-SameFn :
    (w : WorkerState) (now : ℕ) (q : TranscriptionQueue) → SameFn q (take_if_waiting w now q)
unfolding take
take_if_waiting-SameFn waiting now q = take_from-SameFn q.pending now q
take_if_waiting-SameFn stopped now q = refl
take_if_waiting-SameFn (awaiting id start) now q = refl

resume_task-SameFn :
    (id : JobId) (start now : ℕ) (t : Option TaskState) (q : TranscriptionQueue)
    → SameFn q (resume_task id start now t q)
unfolding resume_task
resume_task-SameFn id start now none q = refl
resume_task-SameFn id start now (some running) q = refl
resume_task-SameFn id start now (some cancelling) q = refl
resume_task-SameFn id start now (some (done o)) q = process_fn_set-resume id start now o q

resume_worker-SameFn :
    (now : ℕ) (w : WorkerState) (q : TranscriptionQueue) → SameFn q (resume_worker now w q)
unfolding resume_worker
resume_worker-SameFn now waiting q = refl
resume_worker-SameFn now stopped q = refl
resume_worker-SameFn now (awaiting id start) q =
    resume_task-SameFn id start now (q.heap id).process_task q

stop_worker-SameFn : (w : WorkerState) (q : TranscriptionQueue) → SameFn q (stop_worker w q)
unfolding stop_worker
stop_worker-SameFn waiting q = refl
stop_worker-SameFn stopped q = refl
stop_worker-SameFn (awaiting id start) q = refl

react-SameFn : (e : Event) (q : TranscriptionQueue) → SameFn q (react e q)
unfolding react reserve submit cancel cleanup_job wind_up discard_audio schedule_cleanup
react-SameFn (takes now) q = take_if_waiting-SameFn q.worker now q
react-SameFn (resumes now) q = resume_worker-SameFn now q.worker q
react-SameFn stops q = stop_worker-SameFn q.worker q
react-SameFn (arrives id client now) q = ground arith
react-SameFn (describes id mime hotwords) q = ground arith
react-SameFn (spools id p duration) q = ground arith
react-SameFn (submits id) q = ground arith
react-SameFn (cancels id) q = ground arith
react-SameFn (reads id) q = ground arith
react-SameFn (streams id) q = ground arith
react-SameFn (emits id chunk) q = ground arith
react-SameFn (faults id message) q = ground arith
react-SameFn (ends id outcome) q = ground arith
react-SameFn (expires id) q = ground arith
react-SameFn clears q = ground arith

pub run-SameFn : (es : List Event) (q : TranscriptionQueue) → SameFn q (run es q)
unfolding run
run-SameFn [] q = refl
run-SameFn (e ∷ es) q = run-SameFn es (react e q) ∙ react-SameFn e q

pub process_fn_set-init :
    (max_size : ℕ) (set : Bool) (disk : Disk) (q : TranscriptionQueue)
    → init max_size set disk ≡ ok q
    → q.process_fn_set ≡ set
unfolding init
process_fn_set-init max_size set disk q e = ground arith
