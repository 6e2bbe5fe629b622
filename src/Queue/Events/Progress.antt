-- ===== src/Queue/Events/Progress.antt =====
-- The queue does its work: from every state in which the worker waits, the jobs in the line can be
-- served one by one, however `process_fn` ends for each, and then all of them are over.
use vibe_voice_vendor.Base.{
  ℕ, ◌≡◌, ◌≢◌, refl, ap, ◌∙◌, inl, inr, true, false, Bool-cases, ==_self, some, List, [], ◌∷◌, ◌==◌,
  arith, ok,
}
use vibe_voice_vendor.Models.{JobId, queued, processing, is_terminal}
use vibe_voice_vendor.Keys.{mem}
use vibe_voice_vendor.Disk.{Disk}
use vibe_voice_vendor.Queue.{
  Outcome, returned, interrupted, raised, running, done, TranscriptionQueue, waiting, awaiting,
  set_job, init,
}
use vibe_voice_vendor.Queue.Worker.{resume, take_entry, start_job}
use vibe_voice_vendor.Queue.Events.{
  Event, takes, resumes, ends, react, run, can_end, resume_worker, resume_task,
}
use vibe_voice_vendor.Queue.Events.Cancel.{resume-HasResumed}
use vibe_voice_vendor.Queue.Events.Reachable.{listed-Accounted}
use vibe_voice_vendor.Queue.Events.ProcessFn.{
  process_fn_set-resume, run-SameFn, process_fn_set-init,
}
use vibe_voice_vendor.Queue.Events.Order.{take-first, can_start}

-- One round of the worker with the first job of the line.
abbrev pub serve : (JobId → Outcome) → ℕ → JobId → List Event → List Event
serve answer now id later = takes now ∷ ends id (answer id) ∷ resumes now ∷ later

abbrev pub drain : (JobId → Outcome) → ℕ → List JobId → List Event
drain answer now [] = []
drain answer now (id ∷ ids) = serve answer now id (drain answer now ids)

abbrev started : JobId → ℕ → List JobId → TranscriptionQueue → TranscriptionQueue
started id now rest q =
    record (set_job id (record (q.heap id) { status = processing; process_task = some running })
      q) { worker = awaiting id now; pending = rest }

abbrev ended : JobId → Outcome → TranscriptionQueue → TranscriptionQueue
ended id o q = set_job id (record (q.heap id) { process_task = some (done o) }) q

-- The state after a round: the job has left the line, and is over if it was to be served.
record RoundDone (id : JobId) (rest : List JobId) (q r : TranscriptionQueue) : Type 0 where
  waits : r.worker ≡ waiting
  set : r.process_fn_set ≡ true
  left : r.pending ≡ rest
  same_jobs : r.jobs ≡ q.jobs
  over : can_start id q ≡ true → is_terminal (r.heap id).status ≡ true
  skipped : can_start id q ≡ false → (r.heap id).status ≡ (q.heap id).status
  others : (j : JobId) → (j == id) ≡ false → r.heap j ≡ q.heap j

module _ (answer : JobId → Outcome) (ends_itself : (k : JobId) → answer k ≢ interrupted)
    (now : ℕ) where
  round-started :
      (id : JobId) (rest : List JobId) (q : TranscriptionQueue)
      → q.process_fn_set ≡ true
      → can_start id q ≡ true
      → RoundDone id rest q
          (resume id now now (answer id) (ended id (answer id) (started id now rest q)))
  round-started id rest q set b =
      let before = ended id (answer id) (started id now rest q) in
      let w = resume-HasResumed id now now (answer id) before in
      record {
        waits = w.waiting_iff.1 (inl (ends_itself id));
        set = process_fn_set-resume id now now (answer id) before ∙ set;
        left = w.ended.same_line;
        same_jobs = w.ended.same_jobs;
        over = λ c. w.is_over;
        skipped = λ c. cc (b, c);
        others = λ j n. w.ended.others j n ∙ rw n refl;
      }

  can_end-running : (o : Outcome) → o ≢ interrupted → can_end (some running) o ≡ true
  can_end-running returned h = refl
  can_end-running (raised m t) h = refl
  can_end-running interrupted h = absurd (h refl)

  react-started :
      (id : JobId) (rest : List JobId) (q : TranscriptionQueue)
      → q.worker ≡ waiting
      → q.process_fn_set ≡ true
      → q.pending ≡ id ∷ rest
      → can_start id q ≡ true
      → react (takes now) q ≡ started id now rest q
  react-started id rest q w set p b =
      take-first id rest now q w p ∙ unfold take_entry start_job in ground (arith, b, set)

  react-ended :
      (id : JobId) (rest : List JobId) (q : TranscriptionQueue)
      → react (ends id (answer id)) (started id now rest q)
        ≡ ended id (answer id) (started id now rest q)
  unfolding react
  react-ended id rest q = rw (==_self id) (rw (can_end-running (answer id) (ends_itself id)) refl)

  react-resumed :
      (id : JobId) (o : Outcome) (rest : List JobId) (q : TranscriptionQueue)
      → react (resumes now) (ended id o (started id now rest q))
        ≡ resume id now now o (ended id o (started id now rest q))
  unfolding react resume_worker resume_task
  react-resumed id o rest q = rw (==_self id) refl

  resumes_waiting : (q : TranscriptionQueue) → q.worker ≡ waiting → react (resumes now) q ≡ q
  unfolding react resume_worker
  resumes_waiting q w = ap (λ s. resume_worker now s q) w

  -- A job that is not started is left as it is, but for a task that may end.
  ends_skipped :
      (id : JobId) (o : Outcome) (rest : List JobId) (q : TranscriptionQueue)
      → q.worker ≡ waiting
      → q.process_fn_set ≡ true
      → can_start id q ≡ false
      → RoundDone id rest q (react (ends id o) (record q { pending = rest }))
  unfolding react
  ends_skipped id o rest q w set b = elim (Bool-cases (can_end (q.heap id).process_task o)) [
    | inl e ↦ rw e (record {
      waits = w;
      set = set;
      left = refl;
      same_jobs = refl;
      over = λ c. cc (b, c);
      skipped = λ c. rw (==_self id) refl;
      others = λ j n. rw n refl;
    })
    | inr e ↦ rw e (record {
      waits = w;
      set = set;
      left = refl;
      same_jobs = refl;
      over = λ c. cc (b, c);
      skipped = λ c. refl;
      others = λ j n. refl;
    })
  ]

  abbrev round : JobId → TranscriptionQueue → TranscriptionQueue
  round id q = react (resumes now) (react (ends id (answer id)) (react (takes now) q))

  round-RoundDone :
      (id : JobId) (rest : List JobId) (q : TranscriptionQueue)
      → q.worker ≡ waiting
      → q.process_fn_set ≡ true
      → q.pending ≡ id ∷ rest
      → RoundDone id rest q (round id q)
  round-RoundDone id rest q w set p = elim (Bool-cases (can_start id q)) [
    | inl b ↦
        let all : round id q
            ≡ resume id now now (answer id) (ended id (answer id) (started id now rest q)) =
          ap (λ s. react (resumes now) (react (ends id (answer id)) s))
            (react-started id rest q w set p b)
          ∙ ap (react (resumes now)) (react-ended id rest q)
          ∙ react-resumed id (answer id) rest q in
        rw all (round-started id rest q set b)
    | inr b ↦
        let dropped : react (takes now) q ≡ record q { pending = rest } =
          take-first id rest now q w p ∙ unfold take_entry in ground (arith, b) in
        let done = ends_skipped id (answer id) rest q w set b in
        rw dropped (
          rw
            (resumes_waiting (react (ends id (answer id)) (record q { pending = rest })) done.waits)
            done)
  ]

  -- A job that is over stays over, and the listed jobs of the line come to be.
  record IsDrained (ids : List JobId) (q r : TranscriptionQueue) : Type 0 where
    empty_line : r.pending ≡ []
    still_waits : r.worker ≡ waiting
    stays_over :
        (j : JobId) → is_terminal (q.heap j).status ≡ true → is_terminal (r.heap j).status ≡ true
    all_over :
        (j : JobId) → mem j ids ≡ true → mem j q.jobs ≡ true → is_terminal (r.heap j).status ≡ true

  over-round :
      (id : JobId) (rest : List JobId) (q r : TranscriptionQueue)
      → RoundDone id rest q r
      → (j : JobId) → is_terminal (q.heap j).status ≡ true
      → is_terminal (r.heap j).status ≡ true
  over-round id rest q r d j h = elim (Bool-cases (j == id)) [
    | inr n ↦ ap (λ job. is_terminal job.status) (d.others j n) ∙ h
    | inl e ↦
        let same : j ≡ id = ground arith in
        rw same (elim (Bool-cases (can_start id q)) [
          | inl c ↦ d.over c
          | inr c ↦ ap is_terminal (d.skipped c) ∙ (rw same at h)
        ])
  ]

  -- A listed job that is dropped is over already: it is cancelled.
  over-first :
      (id : JobId) (rest : List JobId) (q r : TranscriptionQueue)
      → RoundDone id rest q r
      → mem id q.jobs ≡ true
      → is_terminal (r.heap id).status ≡ true
  over-first id rest q r d m = elim (Bool-cases (can_start id q)) [
    | inl c ↦ d.over c
    | inr c ↦
        let gone : is_terminal (q.heap id).status ≡ true = ground arith in
        ap is_terminal (d.skipped c) ∙ gone
  ]

  run-drain :
      (ids : List JobId) (q : TranscriptionQueue)
      → q.worker ≡ waiting
      → q.process_fn_set ≡ true
      → q.pending ≡ ids
      → IsDrained ids q (run (drain answer now ids) q)
  unfolding run mem
  run-drain [] q w set p = record {
    empty_line = p;
    still_waits = w;
    stays_over = λ j h. h;
    all_over = λ j h m. cc;
  }
  run-drain (id ∷ ids) q w set p =
      let d = round-RoundDone id ids q w set p in
      let ih = run-drain ids (round id q) d.waits d.set d.left in
      record {
        empty_line = ih.empty_line;
        still_waits = ih.still_waits;
        stays_over = λ j h. ih.stays_over j (over-round id ids q (round id q) d j h);
        all_over = λ j h m. elim (Bool-cases (j == id)) [
          | inl e ↦
              let same : j ≡ id = ground arith in
              ih.stays_over j (rw same (over-first id ids q (round id q) d (rw same at m)))
          | inr n ↦ ih.all_over j (ground arith) (ap (mem j) d.same_jobs ∙ m)
        ];
      }

module _ (max_size : ℕ) (disk : Disk) (q : TranscriptionQueue)
    (start : init max_size true disk ≡ ok q) (es : List Event) where
  -- After any history that leaves the worker waiting, the line can be worked off, whatever `process_fn`
  -- returns or raises for each job: after one round of the worker for each job of the line, the line
  -- is empty, the worker waits, and every job that was listed and queued is completed, failed or
  -- cancelled.
  pub queued-is_terminal :
      (answer : JobId → Outcome) (now : ℕ)
      → ((k : JobId) → answer k ≢ interrupted)
      → (run es q).worker ≡ waiting
      → let after = run (drain answer now (run es q).pending) (run es q) in
        (after.pending ≡ [])
        × (after.worker ≡ waiting)
        × ((j : JobId)
            → mem j (run es q).jobs ≡ true
            → ((run es q).heap j).status ≡ queued
            → is_terminal (after.heap j).status ≡ true)
  queued-is_terminal answer now itself w =
      let set-run = run-SameFn es q ∙ process_fn_set-init max_size true disk q start in
      let d = run-drain answer itself now (run es q).pending (run es q) w set-run refl in
      (
        d.empty_line,
        d.still_waits,
        λ j m s.
            d.all_over j ((listed-Accounted max_size true disk q start es j m).waits_in_line s) m,
      )
