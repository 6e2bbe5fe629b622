-- ===== src/Queue/Events/Capacity.antt =====
-- No event but an accepted reservation makes a job active, and a reservation is accepted only below
-- the limit; so the number of active jobs stays within it.
use vibe_voice_vendor.Base.{
  ℕ, ◌+◌, ◌-◌, length, length-append, ◌≤◌, ◌≡◌, refl, Bool, true, false, not, ◌&&◌, ◌||◌,
  Bool-cases, inl, inr, Option, none, some, List, [], ◌∷◌, ◌++◌, Text, ==_self, ◌∙◌, arith,
}
use vibe_voice_vendor.Models.{
  JobId, JobStatus, uploading, processing, is_terminal, is_active, is_cancelled,
}
use vibe_voice_vendor.Keys.{mem, remove_key, put_key_absent}
use vibe_voice_vendor.Queue.{
  Outcome, returned, TaskState, done, TranscriptionJob, TranscriptionQueue, WorkerState, waiting,
  stopped, awaiting, count_active, active_count, update, set_job, reserve, new_job, submit, cancel,
  discard_audio, cleanup_job, mark_cancelled,
}
use vibe_voice_vendor.Queue.Worker.{
  take, take_from, take_entry, start_job, resume, settle, times_after, record_time,
}
use vibe_voice_vendor.Queue.Events.{
  Event, arrives, cancels, takes, resumes, streams, expires, stops, react, resume_worker,
  resume_task, stop_worker, take_if_waiting,
}
use vibe_voice_vendor.Queue.Events.JobOk.{OkAt, implies}
use vibe_voice_vendor.Queue.Events.WindUp.{
  heap-wind_up, jobs-wind_up, max_size-wind_up, processing_times-wind_up,
}

abbrev is_simple : Event → Bool
is_simple (arrives id client now) = false
is_simple (expires id) = false
is_simple _ = true

abbrev Calm : (JobId → TranscriptionJob) → (JobId → TranscriptionJob) → Type 0
Calm old new = (k : JobId) → implies (is_active (new k).status) (is_active (old k).status) ≡ true

count_active_mono :
    (old new : JobId → TranscriptionJob) (ks : List JobId)
    → Calm old new
    → count_active new ks ≤ count_active old ks
unfolding count_active
count_active_mono old new [] calm = omega arith
count_active_mono old new (k ∷ ks) calm = ground (arith, calm k, count_active_mono old new ks calm)

count_active-update_absent :
    (heap : JobId → TranscriptionJob) (id : JobId) (job : TranscriptionJob) (ks : List JobId)
    → mem id ks ≡ false
    → count_active (update id job heap) ks ≡ count_active heap ks
unfolding count_active mem
count_active-update_absent heap id job [] h = refl
count_active-update_absent heap id job (k ∷ ks) h =
    ground (arith, count_active-update_absent heap id job ks)

count_active-append_one-le :
    (heap : JobId → TranscriptionJob) (id : JobId) (ks : List JobId)
    → count_active heap (ks ++ id ∷ []) ≤ count_active heap ks + 1
unfolding count_active
count_active-append_one-le heap id [] = ground arith
count_active-append_one-le heap id (k ∷ ks) = ground (arith, count_active-append_one-le heap id ks)

count_active-remove_key-le :
    (heap : JobId → TranscriptionJob) (id : JobId) (ks : List JobId)
    → count_active heap (remove_key id ks) ≤ count_active heap ks
unfolding count_active remove_key
count_active-remove_key-le heap id [] = omega arith
count_active-remove_key-le heap id (k ∷ ks) = ground (arith, count_active-remove_key-le heap id ks)

-- What an event leaves of the queue's own fields.
record Kept (q r : TranscriptionQueue) : Type 0 where
  same_limit : r.max_size ≡ q.max_size
  same_jobs : r.jobs ≡ q.jobs
  calm : Calm q.heap r.heap
  short : length q.processing_times ≤ 20 → length r.processing_times ≤ 20

Kept-bounded :
    {q r : TranscriptionQueue}
    → Kept q r
    → active_count q ≤ q.max_size
    → active_count r ≤ r.max_size
Kept-bounded {q} {r} k h =
    rw (k.same_limit, k.same_jobs) (omega (arith, count_active_mono q.heap r.heap q.jobs k.calm, h))

Kept-refl : (q : TranscriptionQueue) → Kept q q
Kept-refl q = record {
  same_limit = refl;
  same_jobs = refl;
  calm = λ k. ground arith;
  short = λ h. ground arith;
}

cancels-Kept : (q : TranscriptionQueue) (id : JobId) → Kept q (react (cancels id) q)
unfolding react cancel
cancels-Kept q id = elim (Bool-cases (mem id q.jobs && not (is_terminal (q.heap id).status))) [
  | inl b ↦
      rw (b, react, cancel)
        (record {
          same_limit = max_size-wind_up id _;
          same_jobs = jobs-wind_up id _;
          calm = λ k. ground (arith, heap-wind_up id k (set_job id (mark_cancelled (q.heap id)) q));
          short = λ h. rw processing_times-wind_up h;
        })
  | inr b ↦ rw (b, react, cancel) (Kept-refl q)
]

-- The history of processing times stays within its limit.
length-times_after :
    (status : JobStatus) (elapsed : ℕ) (times : List ℕ)
    → length times ≤ 20
    → length (times_after status elapsed times) ≤ 20
unfolding times_after record_time
length-times_after status elapsed [] h = ground arith
length-times_after status elapsed (t ∷ times) h = ground (arith, length-append times (elapsed ∷ []))

settled_inactive :
    (o : Outcome) (job : TranscriptionJob) → is_active (settle o job).0.status ≡ false
unfolding settle
settled_inactive o job = ground arith

resume-Kept :
    (q : TranscriptionQueue) (id : JobId) (start now : ℕ) (o : Outcome)
    → Kept q (resume id start now o q)
unfolding resume
resume-Kept q id start now o = record {
  same_limit = max_size-wind_up id _;
  same_jobs = jobs-wind_up id _;
  calm = λ k. rw heap-wind_up (ground (arith, settled_inactive o (q.heap id)));
  short = λ h.
      rw processing_times-wind_up
        (length-times_after (settle o (q.heap id)).0.status (now - start) q.processing_times h);
}

Kept-trans : {q r s : TranscriptionQueue} → Kept q r → Kept r s → Kept q s
Kept-trans h k = record {
  same_limit = k.same_limit ∙ h.same_limit;
  same_jobs = k.same_jobs ∙ h.same_jobs;
  calm = λ j. ground (arith, h.calm j, k.calm j);
  short = λ l. k.short (h.short l);
}

-- The worker starts a job that is active, since it is queued.
start_job-Kept :
    (set : Bool) (id : JobId) (now : ℕ) (q : TranscriptionQueue)
    → is_active (q.heap id).status ≡ true
    → Kept q (start_job set id now q)
unfolding start_job
start_job-Kept true id now q a = record {
  same_limit = refl;
  same_jobs = refl;
  calm = λ k. ground arith;
  short = λ h. ground arith;
}
start_job-Kept false id now q a =
    Kept-trans
      (record {
        same_limit = refl;
        same_jobs = refl;
        calm = λ k. ground arith;
        short = λ h. ground arith;
      })
      (resume-Kept (set_job id (record (q.heap id) { status = processing }) q) id now now returned)

taken_active :
    (id : JobId) (rest : List JobId) (q : TranscriptionQueue)
    → OkAt id q
    → q.pending ≡ id ∷ rest
    → (not (mem id q.jobs) || is_cancelled (q.heap id).status) ≡ false
    → is_active (q.heap id).status ≡ true
unfolding mem
taken_active id rest q o first b =
    let m : mem id q.pending ≡ true = rw first (rw (==_self id)) in ground arith

take_entry-Kept :
    (id : JobId) (rest : List JobId) (now : ℕ) (q : TranscriptionQueue)
    → OkAt id q
    → q.pending ≡ id ∷ rest
    → Kept q (take_entry id now (record q { pending = rest }))
unfolding take_entry
take_entry-Kept id rest now q o first =
    elim (Bool-cases (not (mem id q.jobs) || is_cancelled (q.heap id).status)) [
      | inl b ↦ rw b (record {
        same_limit = refl;
        same_jobs = refl;
        calm = λ k. ground arith;
        short = λ h. ground arith;
      })
      | inr b ↦ rw b (
          Kept-trans
            (record {
              same_limit = refl;
              same_jobs = refl;
              calm = λ k. ground arith;
              short = λ h. ground arith;
            })
            (start_job-Kept q.process_fn_set id now (record q { pending = rest })
              (taken_active id rest q o first b)))
    ]

take_from-Kept :
    (entries : List JobId) (now : ℕ) (q : TranscriptionQueue)
    → ((k : JobId) → OkAt k q)
    → q.pending ≡ entries
    → Kept q (take_from entries now q)
unfolding take_from
take_from-Kept [] now q all first = Kept-refl q
take_from-Kept (id ∷ rest) now q all first = take_entry-Kept id rest now q (all id) first

take-Kept :
    (now : ℕ) (q : TranscriptionQueue) → ((k : JobId) → OkAt k q) → Kept q (react (takes now) q)
unfolding react take
take-Kept now q all = go q.worker
  where
    go : (w : WorkerState) → Kept q (take_if_waiting w now q)
    go waiting = take_from-Kept q.pending now q all refl
    go stopped = Kept-refl q
    go (awaiting id start) = Kept-refl q

resume_worker-Kept :
    (now : ℕ) (w : WorkerState) (q : TranscriptionQueue) → Kept q (resume_worker now w q)
unfolding resume_worker
resume_worker-Kept now (awaiting id start) q = resume_task-Kept (q.heap id).process_task
  where
    resume_task-Kept : (t : Option TaskState) → Kept q (resume_task id start now t q)
    resume_task-Kept (some (done o)) = resume-Kept q id start now o
    resume_task-Kept _ = Kept-refl q
resume_worker-Kept now _ q = Kept-refl q

stop_worker-Kept : (w : WorkerState) (q : TranscriptionQueue) → Kept q (stop_worker w q)
unfolding stop_worker
stop_worker-Kept waiting q = record {
  same_limit = refl;
  same_jobs = refl;
  calm = λ k. ground arith;
  short = λ h. ground arith;
}
stop_worker-Kept stopped q = Kept-refl q
stop_worker-Kept (awaiting id start) q = record {
  same_limit = refl;
  same_jobs = refl;
  calm = λ k. ground arith;
  short = λ h. ground arith;
}

-- Every event but a reservation and the end of a cleanup.
simple-Kept :
    (e : Event) (q : TranscriptionQueue)
    → ((k : JobId) → OkAt k q)
    → is_simple e ≡ true
    → Kept q (react e q)
unfolding react submit
simple-Kept (cancels id) q all s = cancels-Kept q id
simple-Kept (takes now) q all s = take-Kept now q all
simple-Kept (resumes now) q all s = resume_worker-Kept now q.worker q
simple-Kept stops q all s = stop_worker-Kept q.worker q
simple-Kept (streams id) q all s =
    let o = all id in
    record {
      same_limit = ground arith;
      same_jobs = ground arith;
      calm = λ k. ground arith;
      short = λ h. ground arith;
    }
simple-Kept e q all s = record {
  same_limit = ground arith;
  same_jobs = ground arith;
  calm = λ k. ground arith;
  short = λ h. ground arith;
}

arrives-bounded :
    (q : TranscriptionQueue) (id : JobId) (client : Text) (now : ℕ)
    → active_count q ≤ q.max_size
    → active_count (react (arrives id client now) q) ≤ (react (arrives id client now) q).max_size
unfolding react reserve new_job
arrives-bounded q id client now h =
    let job = record (new_job id client now) { status = uploading } in
    ground (
      arith,
      count_active-update_absent q.heap id job q.jobs,
      put_key_absent id q.jobs,
      count_active-append_one-le (update id job q.heap) id q.jobs,
    )

expires-bounded :
    (q : TranscriptionQueue) (id : JobId)
    → active_count q ≤ q.max_size
    → active_count (react (expires id) q) ≤ (react (expires id) q).max_size
unfolding react cleanup_job discard_audio
expires-bounded q id h =
    let silent = update id (record (q.heap id) { audio_path = none }) q.heap in
    let calm : count_active silent (remove_key id q.jobs)
        ≤ count_active q.heap (remove_key id q.jobs) =
      count_active_mono q.heap silent (remove_key id q.jobs) (λ k. ground arith) in
    ground (arith, calm, count_active-remove_key-le q.heap id q.jobs)

pub react-bounded :
    (e : Event) (q : TranscriptionQueue)
    → ((k : JobId) → OkAt k q)
    → active_count q ≤ q.max_size
    → active_count (react e q) ≤ (react e q).max_size
react-bounded (arrives id client now) q all h = arrives-bounded q id client now h
react-bounded (expires id) q all h = expires-bounded q id h
react-bounded e q all h = Kept-bounded (simple-Kept e q all refl) h

pub max_size-react :
    (e : Event) (q : TranscriptionQueue)
    → ((k : JobId) → OkAt k q)
    → (react e q).max_size ≡ q.max_size
unfolding react reserve cleanup_job discard_audio
max_size-react (arrives id client now) q all = ground arith
max_size-react (expires id) q all = ground arith
max_size-react e q all = (simple-Kept e q all refl).same_limit

pub react-short :
    (e : Event) (q : TranscriptionQueue)
    → ((k : JobId) → OkAt k q)
    → length q.processing_times ≤ 20
    → length (react e q).processing_times ≤ 20
unfolding react reserve cleanup_job discard_audio
react-short (arrives id client now) q all h = ground arith
react-short (expires id) q all h = ground arith
react-short e q all h = (simple-Kept e q all refl).short h
