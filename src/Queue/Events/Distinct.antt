-- ===== src/Queue/Events/Distinct.antt =====
-- `_jobs`, `_pending` and `_cleanup_tasks` name no job twice.
use vibe_voice_vendor.Base.{
  ℕ, ◌≡◌, refl, Bool, true, false, not, ◌&&◌, ◌||◌, Bool-cases, inl, inr, Option, some, List, [],
  ◌∷◌, ==_self, arith,
}
use vibe_voice_vendor.Models.{JobId, is_terminal, is_cancelled}
use vibe_voice_vendor.Keys.{
  mem, distinct, distinct-put_key, distinct-remove_key, distinct-append_one,
}
use vibe_voice_vendor.Queue.{
  Outcome, returned, TaskState, done, TranscriptionJob, TranscriptionQueue, WorkerState, waiting,
  stopped, awaiting, set_job, reserve, new_job, submit, cancel, discard_audio, cleanup_job, wind_up,
  mark_cancelled,
}
use vibe_voice_vendor.Queue.Worker.{take, take_from, take_entry, start_job, resume, settle}
use vibe_voice_vendor.Queue.Events.{
  Event, arrives, submits, cancels, takes, resumes, expires, stops, clears, react, resume_worker,
  resume_task, stop_worker, take_if_waiting,
}
use vibe_voice_vendor.Queue.Events.JobOk.{OkAt, implies}
use vibe_voice_vendor.Queue.Events.WindUp.{jobs-wind_up, pending-wind_up, cleanup_tasks-wind_up}

pub record AllDistinct (q : TranscriptionQueue) : Type 0 where
  pub jobs : distinct q.jobs ≡ true
  pub pending : distinct q.pending ≡ true
  pub sweeping : distinct q.cleanup_tasks ≡ true

-- A job that is swept was scheduled, so a second cleanup is not scheduled.
scheduled-settle :
    (o : Outcome) (job : TranscriptionJob)
    → (settle o job).0.cleanup_scheduled ≡ job.cleanup_scheduled
unfolding settle
scheduled-settle o job = ground arith

wind_up-AllDistinct :
    (id : JobId) (q : TranscriptionQueue)
    → implies (mem id q.cleanup_tasks) (q.heap id).cleanup_scheduled ≡ true
    → AllDistinct q
    → AllDistinct (wind_up id q)
unfolding distinct
wind_up-AllDistinct id q s d = record {
  jobs = rw (jobs-wind_up id q) d.jobs;
  pending = rw (pending-wind_up id q) d.pending;
  sweeping = rw (cleanup_tasks-wind_up id q) (ground arith);
}

cancels-AllDistinct :
    (id : JobId) (q : TranscriptionQueue)
    → OkAt id q
    → AllDistinct q
    → AllDistinct (react (cancels id) q)
unfolding react cancel
cancels-AllDistinct id q o d =
    elim (Bool-cases (mem id q.jobs && not (is_terminal (q.heap id).status))) [
      | inl b ↦
          rw (b, react, cancel)
            (wind_up-AllDistinct id (set_job id (mark_cancelled (q.heap id)) q)
              (rw (==_self id) o.sweeping_scheduled)
              (record { jobs = d.jobs; pending = d.pending; sweeping = d.sweeping }))
      | inr b ↦ rw (b, react, cancel) d
    ]

resume-AllDistinct :
    (id : JobId) (start now : ℕ) (o : Outcome) (q : TranscriptionQueue)
    → implies (mem id q.cleanup_tasks) (q.heap id).cleanup_scheduled ≡ true
    → AllDistinct q
    → AllDistinct (resume id start now o q)
unfolding resume
resume-AllDistinct id start now o q s d =
    wind_up-AllDistinct id _ (rw (==_self id) (rw (scheduled-settle o (q.heap id)) s))
      (record { jobs = d.jobs; pending = d.pending; sweeping = d.sweeping })

start_job-AllDistinct :
    (set : Bool) (id : JobId) (now : ℕ) (q : TranscriptionQueue)
    → implies (mem id q.cleanup_tasks) (q.heap id).cleanup_scheduled ≡ true
    → AllDistinct q
    → AllDistinct (start_job set id now q)
unfolding start_job
start_job-AllDistinct true id now q s d = record {
  jobs = d.jobs;
  pending = d.pending;
  sweeping = d.sweeping;
}
start_job-AllDistinct false id now q s d =
    resume-AllDistinct id now now returned _ (rw (==_self id) s)
      (record { jobs = d.jobs; pending = d.pending; sweeping = d.sweeping })

distinct-tail : (x : JobId) (xs : List JobId) → distinct (x ∷ xs) ≡ true → distinct xs ≡ true
unfolding distinct
distinct-tail x xs d = ground arith

take_entry-AllDistinct :
    (id : JobId) (now : ℕ) (q : TranscriptionQueue)
    → implies (mem id q.cleanup_tasks) (q.heap id).cleanup_scheduled ≡ true
    → AllDistinct q
    → AllDistinct (take_entry id now q)
unfolding take_entry
take_entry-AllDistinct id now q s d =
    elim (Bool-cases (not (mem id q.jobs) || is_cancelled (q.heap id).status)) [
      | inl b ↦ rw (b, take_entry) d
      | inr b ↦ rw (b, take_entry) (start_job-AllDistinct q.process_fn_set id now q s d)
    ]

take_from-AllDistinct :
    (entries : List JobId) (now : ℕ) (q : TranscriptionQueue)
    → ((k : JobId) → OkAt k q)
    → q.pending ≡ entries
    → AllDistinct q
    → AllDistinct (take_from entries now q)
unfolding take_from
take_from-AllDistinct [] now q all first d = d
take_from-AllDistinct (id ∷ rest) now q all first d =
    take_entry-AllDistinct id now (record q { pending = rest }) (all id).sweeping_scheduled
      (record {
        jobs = d.jobs;
        pending = distinct-tail id rest (rw first at d.pending);
        sweeping = d.sweeping;
      })

takes-AllDistinct :
    (now : ℕ) (q : TranscriptionQueue)
    → ((k : JobId) → OkAt k q)
    → AllDistinct q
    → AllDistinct (react (takes now) q)
unfolding react take
takes-AllDistinct now q all d = go q.worker
  where
    go : (w : WorkerState) → AllDistinct (take_if_waiting w now q)
    go waiting = take_from-AllDistinct q.pending now q all refl d
    go stopped = d
    go (awaiting id start) = d

resume_task-AllDistinct :
    (id : JobId) (start now : ℕ) (t : Option TaskState) (q : TranscriptionQueue)
    → OkAt id q
    → AllDistinct q
    → AllDistinct (resume_task id start now t q)
unfolding resume_task
resume_task-AllDistinct id start now (some (done o)) q ok' d =
    resume-AllDistinct id start now o q ok'.sweeping_scheduled d
resume_task-AllDistinct id start now _ q ok' d = d

resume_worker-AllDistinct :
    (now : ℕ) (w : WorkerState) (q : TranscriptionQueue)
    → ((k : JobId) → OkAt k q)
    → AllDistinct q
    → AllDistinct (resume_worker now w q)
unfolding resume_worker
resume_worker-AllDistinct now (awaiting id start) q all d =
    resume_task-AllDistinct id start now (q.heap id).process_task q (all id) d
resume_worker-AllDistinct now _ q all d = d

stop_worker-AllDistinct :
    (w : WorkerState) (q : TranscriptionQueue) → AllDistinct q → AllDistinct (stop_worker w q)
unfolding stop_worker
stop_worker-AllDistinct waiting q d = record {
  jobs = d.jobs;
  pending = d.pending;
  sweeping = d.sweeping;
}
stop_worker-AllDistinct stopped q d = d
stop_worker-AllDistinct (awaiting id start) q d = record {
  jobs = d.jobs;
  pending = d.pending;
  sweeping = d.sweeping;
}

pub react-AllDistinct :
    (e : Event) (q : TranscriptionQueue)
    → ((k : JobId) → OkAt k q)
    → AllDistinct q
    → AllDistinct (react e q)
unfolding react reserve new_job submit cleanup_job discard_audio distinct
react-AllDistinct (arrives id client now) q all d = ground (arith, distinct-put_key id q.jobs)
react-AllDistinct (submits id) q all d =
    let o = all id in ground (arith, distinct-append_one id q.pending)
react-AllDistinct (cancels id) q all d = cancels-AllDistinct id q (all id) d
react-AllDistinct (takes now) q all d = takes-AllDistinct now q all d
react-AllDistinct (resumes now) q all d = resume_worker-AllDistinct now q.worker q all d
react-AllDistinct (expires id) q all d =
    ground (arith, distinct-remove_key id q.jobs, distinct-remove_key id q.cleanup_tasks)
react-AllDistinct stops q all d = stop_worker-AllDistinct q.worker q d
react-AllDistinct clears q all d = ground arith
react-AllDistinct e q all d = ground arith
