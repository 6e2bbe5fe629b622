-- ===== src/Queue/Events/Order.antt =====
-- First come, first served: the worker takes the jobs in the order in which they were submitted.
use mathlib.Core.List.{append_assoc, append-nil}
use vibe_voice_vendor.Base.{
  ℕ, ◌≡◌, refl, sym, ap, ◌∙◌, Bool, true, false, not, ◌&&◌, ◌||◌, Bool-cases, inl, inr, ◌⊎◌, Option,
  some, List, [], ◌∷◌, ◌++◌, if◌then◌else◌, arith,
}
use vibe_voice_vendor.Models.{JobId, processing, is_uploading, is_cancelled, is_terminal}
use vibe_voice_vendor.Keys.{mem}
use vibe_voice_vendor.Queue.{
  Outcome, returned, TaskState, running, done, TranscriptionQueue, WorkerState, waiting, stopped,
  awaiting, reserve, submit, cancel, discard_audio, cleanup_job,
}
use vibe_voice_vendor.Queue.Worker.{take, take_from, take_entry, start_job, resume}
use vibe_voice_vendor.Queue.Events.{
  Event, submits, cancels, takes, resumes, stops, react, run, resume_worker, resume_task,
  stop_worker, take_if_waiting,
}
use vibe_voice_vendor.Queue.Events.WindUp.{pending-wind_up}

-- The job that an event submits, and the job that it takes off the line, if any.
abbrev pub submitted_by : TranscriptionQueue → Event → List JobId
submitted_by q (submits id) =
    if mem id q.jobs && is_uploading (q.heap id).status then id ∷ [] else []
submitted_by q _ = []

abbrev pub first_of_line : WorkerState → List JobId → List JobId
first_of_line waiting (id ∷ rest) = id ∷ []
first_of_line _ _ = []

abbrev pub taken_by : TranscriptionQueue → Event → List JobId
taken_by q (takes now) = first_of_line q.worker q.pending
taken_by q _ = []

-- The same over a history.
pub submitted : List Event → TranscriptionQueue → List JobId
submitted [] q = []
submitted (e ∷ es) q = submitted_by q e ++ submitted es (react e q)

pub taken : List Event → TranscriptionQueue → List JobId
taken [] q = []
taken (e ∷ es) q = taken_by q e ++ taken es (react e q)

pending-resume :
    (id : JobId) (start now : ℕ) (o : Outcome) (q : TranscriptionQueue)
    → (resume id start now o q).pending ≡ q.pending
unfolding resume
pending-resume id start now o q = pending-wind_up id _

pending-start_job :
    (set : Bool) (id : JobId) (now : ℕ) (q : TranscriptionQueue)
    → (start_job set id now q).pending ≡ q.pending
unfolding start_job
pending-start_job true id now q = refl
pending-start_job false id now q = pending-resume id now now returned _

pending-take_entry :
    (id : JobId) (now : ℕ) (q : TranscriptionQueue) → (take_entry id now q).pending ≡ q.pending
unfolding take_entry
pending-take_entry id now q =
    elim (Bool-cases (not (mem id q.jobs) || is_cancelled (q.heap id).status)) [
      | inl b ↦ rw (b, take_entry)
      | inr b ↦ rw (b, take_entry) (pending-start_job q.process_fn_set id now q)
    ]

pending-cancel : (id : JobId) (q : TranscriptionQueue) → (cancel id q).0.pending ≡ q.pending
unfolding cancel
pending-cancel id q = elim (Bool-cases (mem id q.jobs && not (is_terminal (q.heap id).status))) [
  | inl b ↦ rw (b, cancel) (pending-wind_up id _)
  | inr b ↦ rw (b, cancel)
]

pending-resume_worker :
    (now : ℕ) (w : WorkerState) (q : TranscriptionQueue)
    → (resume_worker now w q).pending ≡ q.pending
unfolding resume_worker resume_task
pending-resume_worker now (awaiting id start) q = go (q.heap id).process_task
  where
    go : (t : Option TaskState) → (resume_task id start now t q).pending ≡ q.pending
    go (some (done o)) = pending-resume id start now o q
    go _ = refl
pending-resume_worker now _ q = refl

pending-stop_worker :
    (w : WorkerState) (q : TranscriptionQueue) → (stop_worker w q).pending ≡ q.pending
unfolding stop_worker
pending-stop_worker waiting q = refl
pending-stop_worker stopped q = refl
pending-stop_worker (awaiting id start) q = refl

take_from-line :
    (entries : List JobId) (now : ℕ) (q : TranscriptionQueue)
    → q.pending ≡ entries
    → entries ≡ first_of_line waiting entries ++ (take_from entries now q).pending
unfolding take_from
take_from-line [] now q e = sym e
take_from-line (id ∷ rest) now q e = ap (◌∷◌ id) (sym (pending-take_entry id now _))

takes-line :
    (now : ℕ) (w : WorkerState) (q : TranscriptionQueue)
    → q.pending ≡ first_of_line w q.pending ++ (take_if_waiting w now q).pending
unfolding take
takes-line now waiting q = take_from-line q.pending now q refl
takes-line now stopped q = first_of_stopped q.pending
  where
    first_of_stopped : (entries : List JobId) → entries ≡ first_of_line stopped entries ++ entries
    first_of_stopped [] = refl
    first_of_stopped _ = refl
takes-line now (awaiting id start) q = first_of_busy q.pending
  where
    first_of_busy :
        (entries : List JobId) → entries ≡ first_of_line (awaiting id start) entries ++ entries
    first_of_busy [] = refl
    first_of_busy _ = refl

submits-line :
    (id : JobId) (q : TranscriptionQueue)
    → q.pending ++ submitted_by q (submits id) ≡ (react (submits id) q).pending
unfolding react submit
submits-line id q = ground (arith, append-nil q.pending)

-- One event: what it takes stands in front, what it submits at the end.
react-line :
    (e : Event) (q : TranscriptionQueue)
    → q.pending ++ submitted_by q e ≡ taken_by q e ++ (react e q).pending
unfolding react reserve cleanup_job discard_audio
react-line (submits id) q = submits-line id q
react-line (takes now) q = append-nil q.pending ∙ takes-line now q.worker q
react-line (cancels id) q = append-nil q.pending ∙ sym (pending-cancel id q)
react-line (resumes now) q = append-nil q.pending ∙ sym (pending-resume_worker now q.worker q)
react-line stops q = append-nil q.pending ∙ sym (pending-stop_worker q.worker q)
react-line e q = append-nil q.pending ∙ ground arith

-- Over any history, the line at the start and then the jobs submitted are the jobs taken and then the
-- line at the end: the worker takes the jobs in the order of their submission, each once.
pub line-run :
    (es : List Event) (q : TranscriptionQueue)
    → q.pending ++ submitted es q ≡ taken es q ++ (run es q).pending
unfolding run submitted taken
line-run [] q = append-nil q.pending
line-run (e ∷ es) q =
    sym (append_assoc q.pending (submitted_by q e) (submitted es (react e q)))
    ∙ ap (λ line. line ++ submitted es (react e q)) (react-line e q)
    ∙ append_assoc (taken_by q e) (react e q).pending (submitted es (react e q))
    ∙ ap (λ line. taken_by q e ++ line) (line-run es (react e q))
    ∙ sym (append_assoc (taken_by q e) (taken es (react e q)) (run (e ∷ es) q).pending)

-- What becomes of the first job in the line, which has left it.
pub record FirstServed (id : JobId) (now : ℕ) (r : TranscriptionQueue) : Type 0 where
  pub started : r.worker ≡ awaiting id now
  pub in_processing : (r.heap id).status ≡ processing
  pub has_task : (r.heap id).process_task ≡ some running

abbrev pub can_start : JobId → TranscriptionQueue → Bool
can_start id q = mem id q.jobs && not (is_cancelled (q.heap id).status)

abbrev pub Disposed : JobId → ℕ → TranscriptionQueue → TranscriptionQueue → Type 0
Disposed id now q r =
    ((can_start id q ≡ true) × FirstServed id now r)
    ⊎ ((can_start id q ≡ false) × (r.worker ≡ waiting) × (r.heap id ≡ q.heap id))

take_entry-Disposed :
    (id : JobId) (rest : List JobId) (now : ℕ) (q : TranscriptionQueue)
    → q.worker ≡ waiting
    → q.process_fn_set ≡ true
    → Disposed id now q (take_entry id now (record q { pending = rest }))
unfolding take_entry start_job
take_entry-Disposed id rest now q w set = ground arith

pub take-first :
    (id : JobId) (rest : List JobId) (now : ℕ) (q : TranscriptionQueue)
    → q.worker ≡ waiting
    → q.pending ≡ id ∷ rest
    → react (takes now) q ≡ take_entry id now (record q { pending = rest })
unfolding react take take_from
take-first id rest now q w p = ap (λ s. take_if_waiting s now q) w ∙ ap (λ l. take_from l now q) p

-- The waiting worker takes the first job off the line: if it is listed and not cancelled, the worker
-- starts its task and awaits it; otherwise the worker drops it as it is and waits on.
pub takes-Disposed :
    (id : JobId) (rest : List JobId) (now : ℕ) (q : TranscriptionQueue)
    → q.worker ≡ waiting
    → q.process_fn_set ≡ true
    → q.pending ≡ id ∷ rest
    → ((react (takes now) q).pending ≡ rest) × Disposed id now q (react (takes now) q)
takes-Disposed id rest now q w set p = rw (take-first id rest now q w p) (
  pending-take_entry id now (record q { pending = rest }),
  take_entry-Disposed id rest now q w set,
)
