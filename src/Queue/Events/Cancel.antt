-- ===== src/Queue/Events/Cancel.antt =====
-- What `cancel` and the worker's return from a job do.
use vibe_voice_vendor.Base.{
  ℕ, ◌≡◌, refl, ◌↔◌, ◌≢◌, Bool, true, false, not, ◌&&◌, Bool-cases, ==_self, ◌⊎◌, inl, inr, Option,
  none, some, List, ◌∷◌, ◌==◌, if◌then◌else◌, arith, ap, ◌∙◌,
}
use vibe_voice_vendor.Models.{JobId, completed, cancelled, is_terminal}
use vibe_voice_vendor.Keys.{mem}
use vibe_voice_vendor.Disk.{
  FilePath, Disk, has_file, has_file-discard_file, path_eq_refl, path_eq, path_eq-ne,
}
use vibe_voice_vendor.Queue.{
  Outcome, returned, interrupted, raised, TranscriptionJob, TranscriptionQueue, WorkerState,
  waiting, stopped, set_job, cancel, cancel_task, mark_cancelled, wind_up, discard_from,
  job_cancelled,
}
use vibe_voice_vendor.Queue.Worker.{resume, settle}
use vibe_voice_vendor.Queue.Events.{is_running}
use vibe_voice_vendor.Queue.Events.WindUp.{
  heap-wind_up, jobs-wind_up, pending-wind_up, worker-wind_up, disk-wind_up, closed_queue,
  processing_times-wind_up, max_size-wind_up, cleanup_tasks-wind_up,
}

-- A job that an operation has ended, and what of the queue it left alone.
pub record HasEnded (q : TranscriptionQueue) (id : JobId) (r : TranscriptionQueue) : Type 0 where
  pub silent : (r.heap id).audio_path ≡ none
  pub file_gone : (p : FilePath) → (q.heap id).audio_path ≡ some p → has_file p r.disk.files ≡ false
  pub told : (r.heap id).terminal_notified ≡ true
  pub sentinel : (r.heap id).chunk_queue ≡ closed_queue (q.heap id)
  pub scheduled : mem id q.jobs ≡ true → (r.heap id).cleanup_scheduled ≡ true
  pub same_jobs : r.jobs ≡ q.jobs
  pub same_line : r.pending ≡ q.pending
  pub others : (j : JobId) → (j == id) ≡ false → r.heap j ≡ q.heap j

gone_from :
    (o : Option FilePath) (p : FilePath) (disk : Disk)
    → o ≡ some p
    → has_file p (discard_from o disk).files ≡ false
unfolding discard_from
gone_from none p disk e = cc
gone_from (some r) p disk e = ground (
  arith,
  e,
  has_file-discard_file p p disk,
  path_eq_refl p,
  ap (λ o. (discard_from o disk).files) e,
)

set_job-wind_up-HasEnded :
    (id : JobId) (job : TranscriptionJob) (times : List ℕ) (w : WorkerState)
    (q : TranscriptionQueue)
    → job.audio_path ≡ (q.heap id).audio_path
    → closed_queue job ≡ closed_queue (q.heap id)
    → HasEnded q id
        (wind_up id (set_job id job (record q { processing_times = times; worker = w })))
set_job-wind_up-HasEnded id job times w q a c = record {
  silent = rw (heap-wind_up, ==_self id);
  file_gone = λ p e. rw (disk-wind_up, ==_self id) (gone_from job.audio_path p q.disk (a ∙ e));
  told = rw (heap-wind_up, ==_self id);
  sentinel = rw (heap-wind_up, ==_self id) c;
  scheduled = λ m. rw (heap-wind_up, ==_self id) (rw m (ground arith));
  same_jobs = jobs-wind_up id _;
  same_line = pending-wind_up id _;
  others = λ j n. rw (heap-wind_up, n) refl;
}

kept_from :
    (o : Option FilePath) (p : FilePath) (disk : Disk)
    → o ≢ some p
    → has_file p (discard_from o disk).files ≡ has_file p disk.files
unfolding discard_from
kept_from none p disk n = refl
kept_from (some r) p disk n =
    let other : path_eq r p ≡ false = path_eq-ne r p (λ e. n (ap some e)) in
    has_file-discard_file r p disk ∙ rw other refl

one_task_by :
    (scheduled : Bool) (tasks : List JobId) (id : JobId)
    → (if not scheduled then id ∷ tasks else tasks) ≡ (if scheduled then tasks else id ∷ tasks)
one_task_by true tasks id = refl
one_task_by false tasks id = refl

-- A job that `cancel` has ended.
pub record HasCancelled (id : JobId) (q : TranscriptionQueue) : Type 0 where
  pub returned_true : (cancel id q).1 ≡ true
  pub ended : HasEnded q id (cancel id q).0
  pub is_marked : ((cancel id q).0.heap id).status ≡ cancelled
  pub has_message : ((cancel id q).0.heap id).error_message ≡ some job_cancelled
  pub requested : ((cancel id q).0.heap id).cancel_requested ≡ true
  pub task_asked : ((cancel id q).0.heap id).process_task ≡ cancel_task (q.heap id).process_task
  pub task_stopped : is_running ((cancel id q).0.heap id).process_task ≡ false
  pub same_worker : (cancel id q).0.worker ≡ q.worker
  pub same_times : (cancel id q).0.processing_times ≡ q.processing_times
  pub same_size : (cancel id q).0.max_size ≡ q.max_size
  pub other_fields :
      (((cancel id q).0.heap id).job_id ≡ (q.heap id).job_id)
      × (((cancel id q).0.heap id).client_identity ≡ (q.heap id).client_identity)
      × (((cancel id q).0.heap id).audio_mime ≡ (q.heap id).audio_mime)
      × (((cancel id q).0.heap id).hotwords ≡ (q.heap id).hotwords)
      × (((cancel id q).0.heap id).audio_duration_seconds ≡ (q.heap id).audio_duration_seconds)
      × (((cancel id q).0.heap id).created_at ≡ (q.heap id).created_at)
  pub one_task :
      (cancel id q).0.cleanup_tasks
      ≡ (if (q.heap id).cleanup_scheduled then q.cleanup_tasks else id ∷ q.cleanup_tasks)
  pub other_files :
      (p : FilePath)
      → (q.heap id).audio_path ≢ some p
      → has_file p (cancel id q).0.disk.files ≡ has_file p q.disk.files

abbrev pub can_cancel : JobId → TranscriptionQueue → Bool
can_cancel id q = mem id q.jobs && not (is_terminal (q.heap id).status)

pub cancel_accepted :
    (id : JobId) (q : TranscriptionQueue) → can_cancel id q ≡ true → HasCancelled id q
unfolding cancel cancel_task
cancel_accepted id q b = record {
  returned_true = rw (b, cancel);
  ended =
      rw (b, cancel)
        (set_job-wind_up-HasEnded id (mark_cancelled (q.heap id)) q.processing_times q.worker q refl
          refl);
  is_marked = rw (b, cancel) (rw (heap-wind_up, ==_self id));
  has_message = rw (b, cancel) (rw (heap-wind_up, ==_self id));
  requested = rw (b, cancel) (rw (heap-wind_up, ==_self id));
  task_asked = rw (b, cancel) (rw (heap-wind_up, ==_self id));
  task_stopped = rw (b, cancel) (rw (heap-wind_up, ==_self id) (ground arith));
  same_worker = rw (b, cancel) (worker-wind_up id _);
  same_times = rw (b, cancel) (processing_times-wind_up id _);
  same_size = rw (b, cancel) (max_size-wind_up id _);
  other_fields =
      rw (b, cancel) (rw (heap-wind_up, ==_self id) (refl, refl, refl, refl, refl, refl));
  one_task =
      let listed : mem id q.jobs ≡ true = ground arith in
      rw (b, cancel)
        (rw (cleanup_tasks-wind_up, ==_self id, listed)
          (one_task_by (q.heap id).cleanup_scheduled q.cleanup_tasks id));
  other_files = λ p n.
      rw (b, cancel) (rw (disk-wind_up, ==_self id) (kept_from (q.heap id).audio_path p q.disk n));
}

-- `cancel` returns False and changes nothing if the job is not listed or is terminal. Otherwise it
-- returns True: the job is CANCELLED with its message, its task is asked to stop, its audio file is
-- gone from the disk, its sentinel is put if it was not, and a cleanup task is made for it if there was
-- none. Its other fields, every other file and job, the line, the worker, the processing times and the
-- size of the queue are as they were.
pub cancel-outcome :
    (id : JobId) (q : TranscriptionQueue)
    → ((can_cancel id q ≡ false) × (cancel id q ≡ (q, false)))
      ⊎ ((can_cancel id q ≡ true) × HasCancelled id q)
unfolding cancel
cancel-outcome id q = elim (Bool-cases (can_cancel id q)) [
  | inl b ↦ inr (b, cancel_accepted id q b)
  | inr b ↦ inl (b, rw b)
]

settle-is_terminal :
    (o : Outcome) (job : TranscriptionJob) → is_terminal (settle o job).0.status ≡ true
unfolding settle
settle-is_terminal o job = ground arith

pub settle-completed_iff :
    (o : Outcome) (job : TranscriptionJob)
    → ((settle o job).0.status ≡ completed) ↔ ((o ≡ returned) × (job.error_message ≡ none))
unfolding settle
settle-completed_iff o job = (λ h. (ground arith, ground arith), λ h. ground arith)

next_stopped_iff :
    (o : Outcome) (job : TranscriptionJob)
    → ((if (settle o job).1 then waiting else stopped) ≡ stopped)
      ↔ ((o ≡ interrupted) × (job.cancel_requested ≡ false))
unfolding settle
next_stopped_iff o job = (λ h. (ground arith, ground arith), λ h. ground arith)

next_waiting_iff :
    (o : Outcome) (job : TranscriptionJob)
    → ((if (settle o job).1 then waiting else stopped) ≡ waiting)
      ↔ ((o ≢ interrupted) ⊎ (job.cancel_requested ≡ true))
unfolding settle
next_waiting_iff returned job = (λ h. inl (λ e. cc), λ h. refl)
next_waiting_iff (raised m t) job = (λ h. inl (λ e. cc), λ h. refl)
next_waiting_iff interrupted job = (λ h. inr (ground arith), λ h. ground arith)

settle-audio_path :
    (o : Outcome) (job : TranscriptionJob) → (settle o job).0.audio_path ≡ job.audio_path
unfolding settle
settle-audio_path o job = ground arith

settle-closed_queue :
    (o : Outcome) (job : TranscriptionJob)
    → closed_queue (record (settle o job).0 { process_task = none }) ≡ closed_queue job
unfolding settle
settle-closed_queue o job = ground arith

-- What the worker leaves when it is done with a job.
pub record HasResumed (id : JobId) (start now : ℕ) (o : Outcome) (q : TranscriptionQueue)
    : Type 0 where
  pub ended : HasEnded q id (resume id start now o q)
  pub is_over : is_terminal ((resume id start now o q).heap id).status ≡ true
  pub no_task : ((resume id start now o q).heap id).process_task ≡ none
  pub completed_iff :
      (((resume id start now o q).heap id).status ≡ completed)
      ↔ ((o ≡ returned) × ((q.heap id).error_message ≡ none))
  pub stopped_iff :
      ((resume id start now o q).worker ≡ stopped)
      ↔ ((o ≡ interrupted) × ((q.heap id).cancel_requested ≡ false))
  pub waiting_iff :
      ((resume id start now o q).worker ≡ waiting)
      ↔ ((o ≢ interrupted) ⊎ ((q.heap id).cancel_requested ≡ true))

-- Whatever the way in which `process_fn` ended, the worker closes the job: its status is terminal,
-- COMPLETED exactly if `process_fn` returned and no error message was set; its task is dropped, its
-- audio file is gone, its sentinel is put if it was not, its cleanup is scheduled, and every other
-- job is as it was. The worker is over exactly if it met a CancelledError and the job's own
-- cancellation was not asked for; otherwise it waits for the next job.
pub resume-HasResumed :
    (id : JobId) (start now : ℕ) (o : Outcome) (q : TranscriptionQueue)
    → HasResumed id start now o q
unfolding resume
resume-HasResumed id start now o q = record {
  ended =
      set_job-wind_up-HasEnded id _ _ _ q (settle-audio_path o (q.heap id))
        (settle-closed_queue o (q.heap id));
  is_over = rw (heap-wind_up, ==_self id) (settle-is_terminal o (q.heap id));
  no_task = rw (heap-wind_up, ==_self id);
  completed_iff = rw (heap-wind_up, ==_self id) (settle-completed_iff o (q.heap id));
  stopped_iff = rw worker-wind_up (next_stopped_iff o (q.heap id));
  waiting_iff = rw worker-wind_up (next_waiting_iff o (q.heap id));
}
