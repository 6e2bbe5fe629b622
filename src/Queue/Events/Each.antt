-- ===== src/Queue/Events/Each.antt =====
-- Each event keeps every job in order.
use vibe_voice_vendor.Base.{
  ℕ, ◌≡◌, refl, Bool, true, false, not, ◌&&◌, ◌||◌, Bool-cases, inl, inr, Option, some, List, [],
  ◌∷◌, Text, ◌==◌, ==_self, ◌-◌, if◌then◌else◌, arith, Fraction,
}
use vibe_voice_vendor.Models.{JobId, processing, is_terminal, is_cancelled}
use vibe_voice_vendor.Keys.{mem, distinct, mem-put_key, mem-append_one, mem-remove_key}
use vibe_voice_vendor.Disk.{FilePath}
use vibe_voice_vendor.Queue.{
  Outcome, returned, TaskState, done, TranscriptionQueue, WorkerState, waiting, stopped, awaiting,
  set_job, reserve, new_job, submit, cancel, discard_audio, cleanup_job, mark_cancelled,
}
use vibe_voice_vendor.Queue.Worker.{
  take, take_from, take_entry, start_job, resume, settle, times_after,
}
use vibe_voice_vendor.Queue.Events.{
  Event, arrives, describes, spools, submits, cancels, reads, takes, resumes, streams, emits,
  faults, ends, expires, stops, clears, react, resume_worker, resume_task, stop_worker,
  take_if_waiting, is_current, is_stopped,
}
use vibe_voice_vendor.Queue.Events.JobOk.{
  OkAt, JobOk, place, all_chunks, all_chunks-append_some, all_chunks-pop_front, ends_once-pop_front,
}
use vibe_voice_vendor.Queue.Events.WindUp.{
  set_job-wind_up-OkAt, resumed, wound, swept, left, cancelled-JobOk, resumed-JobOk, idle-JobOk,
}

module _ (q : TranscriptionQueue) (id j : JobId) (oi : OkAt id q) (oj : OkAt j q) where
  cancels-OkAt : OkAt j (react (cancels id) q)
  unfolding react cancel
  cancels-OkAt = elim (Bool-cases (mem id q.jobs && not (is_terminal (q.heap id).status))) [
    | inl b ↦
        rw (b, react, cancel)
          (set_job-wind_up-OkAt id j (mark_cancelled (q.heap id)) q
            (cancelled-JobOk (q.heap id) (place id q) oi (ground arith) (ground arith)) (λ _. oj))
    | inr b ↦ rw (b, react, cancel) oj
  ]

  describes-OkAt : (m : Text) (h : Option Text) → OkAt j (react (describes id m h) q)
  unfolding react
  describes-OkAt m h = ground arith

  spools-OkAt : (p : FilePath) (d : Fraction) → OkAt j (react (spools id p d) q)
  unfolding react
  spools-OkAt p d = ground arith

  submits-OkAt : OkAt j (react (submits id) q)
  unfolding react submit
  submits-OkAt = ground (arith, mem-append_one j id q.pending)

  streams-OkAt : OkAt j (react (streams id) q)
  unfolding react
  streams-OkAt = ground arith

  emits-OkAt : (c : Text) → OkAt j (react (emits id c) q)
  unfolding react
  emits-OkAt c = ground (arith, all_chunks-append_some (q.heap id).chunk_queue c)

  faults-OkAt : (c : Text) → OkAt j (react (faults id c) q)
  unfolding react
  faults-OkAt c = ground arith

  ends-OkAt : (o : Outcome) → OkAt j (react (ends id o) q)
  unfolding react
  ends-OkAt o = ground arith

  arrives-OkAt : (client : Text) (now : ℕ) → OkAt j (react (arrives id client now) q)
  unfolding react reserve new_job all_chunks
  arrives-OkAt client now = ground (arith, mem-put_key j id q.jobs)

-- The worker goes on to wait, or is over.
abbrev next_worker : Bool → WorkerState
next_worker goes_on = if goes_on then waiting else stopped

next_not_current : (id : JobId) (b : Bool) → is_current id (next_worker b) ≡ false
next_not_current id b = ground arith

next_stopped : (b : Bool) → is_stopped (next_worker b) ≡ not b
next_stopped b = ground arith

resume-ready :
    (q : TranscriptionQueue) (id j : JobId) (start now : ℕ) (o : Outcome)
    → JobOk
        (wound (mem id q.jobs) (resumed o (q.heap id)))
        (swept (left o (q.heap id) (place id q)) (resumed o (q.heap id)))
    → ((j == id) ≡ false → OkAt j (record q { worker = next_worker (settle o (q.heap id)).1 }))
    → OkAt j (resume id start now o q)
unfolding resume
resume-ready q id j start now o ready others =
    set_job-wind_up-OkAt id j (resumed o (q.heap id))
      (record q {
        processing_times =
            times_after (resumed o (q.heap id)).status (now - start) q.processing_times;
        worker = next_worker (settle o (q.heap id)).1;
      })
      (rw (next_not_current id (settle o (q.heap id)).1, next_stopped (settle o (q.heap id)).1)
        ready)
      others

-- A job that is not the worker's does not see the worker move on.
moved-OkAt :
    (q : TranscriptionQueue) (j : JobId) (b : Bool)
    → OkAt j q
    → is_current j q.worker ≡ false
    → is_stopped q.worker ≡ false
    → OkAt j (record q { worker = next_worker b })
moved-OkAt q j b oj c h = ground arith

module _ (q : TranscriptionQueue) (id j : JobId) (oi : OkAt id q) (oj : OkAt j q) where
  resume-OkAt :
      (start now : ℕ) (o : Outcome)
      → q.worker ≡ awaiting id start
      → OkAt j (resume id start now o q)
  resume-OkAt start now o w =
      resume-ready q id j start now o
        (resumed-JobOk o (q.heap id) (place id q) oi (rw w (==_self id)) (rw w))
        (λ other. moved-OkAt q j _ oj (rw w other) (rw w))

-- The worker takes the first entry; `q` still has it.
module _ (q : TranscriptionQueue) (id j : JobId) (rest : List JobId) (oi : OkAt id q)
    (oj : OkAt j q) (first : q.pending ≡ id ∷ rest) (once : distinct q.pending ≡ true)
    (ready : q.worker ≡ waiting) where
  taken_pending : mem j q.pending ≡ (j == id || mem j rest)
  unfolding mem
  taken_pending = rw first

  taken_once : mem id rest ≡ false
  unfolding distinct
  taken_once = let d : distinct (id ∷ rest) ≡ true = rw first at once in ground arith

  skipped-OkAt :
      (not (mem id q.jobs) || is_cancelled (q.heap id).status) ≡ true
      → OkAt j (record q { pending = rest })
  skipped-OkAt b = ground (arith, taken_pending, taken_once)

  taken_first : mem id q.pending ≡ true
  unfolding mem
  taken_first = rw first (rw (==_self id))

  idle-ready :
      (b : (not (mem id q.jobs) || is_cancelled (q.heap id).status) ≡ false)
      → let job = record (q.heap id) { status = processing } in
        JobOk (wound (mem id q.jobs) (resumed returned job)) (
          swept (left returned job (place id (record q { pending = rest }))) (resumed returned job))
  unfolding settle
  idle-ready b = rw taken_once (
      rw ready at (
        idle-JobOk (q.heap id) (place id q) oi taken_first (ground arith) (ground arith)
          (rw ready)))

  other-OkAt :
      (w : WorkerState)
      → (j == id) ≡ false
      → is_current j w ≡ false
      → is_stopped w ≡ false
      → OkAt j (record q { pending = rest; worker = w })
  other-OkAt w other c h = ground (arith, taken_pending)

  started-OkAt :
      (set : Bool) (now : ℕ)
      → (not (mem id q.jobs) || is_cancelled (q.heap id).status) ≡ false
      → OkAt j (start_job set id now (record q { pending = rest }))
  unfolding start_job settle
  started-OkAt true now b = ground (arith, taken_pending, taken_once)
  started-OkAt false now b =
      resume-ready
        (set_job id (record (q.heap id) { status = processing }) (record q { pending = rest })) id j
        now now returned (rw (==_self id) (idle-ready b))
        (λ other. rw other (other-OkAt waiting other refl refl))

  take_entry-OkAt : (now : ℕ) → OkAt j (take_entry id now (record q { pending = rest }))
  unfolding take_entry
  take_entry-OkAt now = elim (Bool-cases (not (mem id q.jobs) || is_cancelled (q.heap id).status)) [
    | inl b ↦ rw b (skipped-OkAt b)
    | inr b ↦ rw b (started-OkAt q.process_fn_set now b)
  ]

take_from-OkAt :
    (q : TranscriptionQueue) (j : JobId) (now : ℕ) (entries : List JobId)
    → ((k : JobId) → OkAt k q)
    → q.pending ≡ entries
    → distinct q.pending ≡ true
    → q.worker ≡ waiting
    → OkAt j (take_from entries now q)
unfolding take_from
take_from-OkAt q j now [] all first once ready = all j
take_from-OkAt q j now (id ∷ rest) all first once ready =
    take_entry-OkAt q id j rest (all id) (all j) first once ready now

module _ (q : TranscriptionQueue) (j : JobId) (all : (k : JobId) → OkAt k q) where
  takes-OkAt : (now : ℕ) → distinct q.pending ≡ true → OkAt j (react (takes now) q)
  unfolding react take
  takes-OkAt now once = go q.worker refl
    where
      go : (w : WorkerState) → q.worker ≡ w → OkAt j (take_if_waiting w now q)
      go waiting e = take_from-OkAt q j now q.pending all refl once e
      go stopped e = all j
      go (awaiting id start) e = all j

  resume_task-OkAt :
      (id : JobId) (start now : ℕ) (t : Option TaskState)
      → q.worker ≡ awaiting id start
      → OkAt j (resume_task id start now t q)
  unfolding resume_task
  resume_task-OkAt id start now (some (done o)) w =
      resume-OkAt q id j (all id) (all j) start now o w
  resume_task-OkAt id start now _ w = all j

  resume_worker-OkAt : (now : ℕ) (w : WorkerState) → q.worker ≡ w → OkAt j (resume_worker now w q)
  unfolding resume_worker
  resume_worker-OkAt now (awaiting id start) e =
      resume_task-OkAt id start now (q.heap id).process_task e
  resume_worker-OkAt now _ e = all j

  stop_worker-OkAt : (w : WorkerState) → q.worker ≡ w → OkAt j (stop_worker w q)
  unfolding stop_worker
  stop_worker-OkAt waiting e = let o = all j in ground arith
  stop_worker-OkAt stopped e = all j
  stop_worker-OkAt (awaiting id start) e = let o = all j in let oi = all id in ground arith

  expires-OkAt :
      (id : JobId)
      → distinct q.jobs ≡ true
      → distinct q.cleanup_tasks ≡ true
      → OkAt j (react (expires id) q)
  unfolding react cleanup_job discard_audio
  expires-OkAt id dj dc =
      let o = all j in
      let oi = all id in
      ground (arith, mem-remove_key j id q.jobs, mem-remove_key j id q.cleanup_tasks)

  reads-OkAt : (id : JobId) → OkAt j (react (reads id) q)
  unfolding react
  reads-OkAt id =
      let o = all j in
      let oi = all id in
      ground (
        arith,
        all_chunks-pop_front (q.heap id).chunk_queue,
        ends_once-pop_front (q.heap id).chunk_queue,
      )

  clears-OkAt : OkAt j (react clears q)
  unfolding react mem
  clears-OkAt = let o = all j in ground arith

-- Every event.
pub react-OkAt :
    (e : Event) (q : TranscriptionQueue) (j : JobId)
    → distinct q.jobs ≡ true
    → distinct q.pending ≡ true
    → distinct q.cleanup_tasks ≡ true
    → ((k : JobId) → OkAt k q)
    → OkAt j (react e q)
react-OkAt (arrives id client now) q j dj dp dc all =
    arrives-OkAt q id j (all id) (all j) client now
react-OkAt (describes id m h) q j dj dp dc all = describes-OkAt q id j (all id) (all j) m h
react-OkAt (spools id p d) q j dj dp dc all = spools-OkAt q id j (all id) (all j) p d
react-OkAt (submits id) q j dj dp dc all = submits-OkAt q id j (all id) (all j)
react-OkAt (cancels id) q j dj dp dc all = cancels-OkAt q id j (all id) (all j)
react-OkAt (reads id) q j dj dp dc all = reads-OkAt q j all id
react-OkAt (takes now) q j dj dp dc all = takes-OkAt q j all now dp
react-OkAt (resumes now) q j dj dp dc all =
    unfold react in resume_worker-OkAt q j all now q.worker refl
react-OkAt (streams id) q j dj dp dc all = streams-OkAt q id j (all id) (all j)
react-OkAt (emits id c) q j dj dp dc all = emits-OkAt q id j (all id) (all j) c
react-OkAt (faults id c) q j dj dp dc all = faults-OkAt q id j (all id) (all j) c
react-OkAt (ends id o) q j dj dp dc all = ends-OkAt q id j (all id) (all j) o
react-OkAt (expires id) q j dj dp dc all = expires-OkAt q j all id dj dc
react-OkAt stops q j dj dp dc all = unfold react in stop_worker-OkAt q j all q.worker refl
react-OkAt clears q j dj dp dc all = clears-OkAt q j all
