-- ===== src/Queue/Events/Races.antt =====
-- Two interleavings of a cancellation with the worker that do not end as the code means them to.
use vibe_voice_vendor.Base.{ℕ, ◌≡◌, refl, ap, ◌∙◌, true, ==_self, inr, some, [], ◌∷◌, arith}
use vibe_voice_vendor.Models.{JobId, failed, cancelled}
use vibe_voice_vendor.Queue.{
  Outcome, returned, interrupted, cancelling, done, TranscriptionQueue, waiting, awaiting, cancel,
  cancel_task, job_cancelled,
}
use vibe_voice_vendor.Queue.Worker.{resume, settle}
use vibe_voice_vendor.Queue.Events.{
  cancels, resumes, ends, stops, react, run, resume_worker, resume_task, stop_worker,
}
use vibe_voice_vendor.Queue.Events.WindUp.{heap-wind_up}
use vibe_voice_vendor.Queue.Events.Cancel.{can_cancel, cancel_accepted, resume-HasResumed}

-- The worker resumes a job whose task is over.
resume_done :
    (id : JobId) (start now : ℕ) (o : Outcome) (q : TranscriptionQueue)
    → q.worker ≡ awaiting id start
    → (q.heap id).process_task ≡ some (done o)
    → react (resumes now) q ≡ resume id start now o q
unfolding react resume_worker resume_task
resume_done id start now o q w t =
    ap (λ s. resume_worker now s q) w ∙ ap (λ k. resume_task id start now k q) t

heap-resume :
    (id : JobId) (start now : ℕ) (o : Outcome) (q : TranscriptionQueue)
    → (((resume id start now o q).heap id).status ≡ (settle o (q.heap id)).0.status)
      × (((resume id start now o q).heap id).error_message ≡ (settle o (q.heap id)).0.error_message)
unfolding resume
heap-resume id start now o q = (rw (heap-wind_up, ==_self id), rw (heap-wind_up, ==_self id))

cancels_lem : (id : JobId) (q : TranscriptionQueue) → react (cancels id) q ≡ (cancel id q).0
unfolding react
cancels_lem id q = refl

module _ (id : JobId) (start now : ℕ) (q : TranscriptionQueue)
    (busy : q.worker ≡ awaiting id start) where
  settled_late :
      (c : TranscriptionQueue)
      → (c.heap id).error_message ≡ some job_cancelled
      → ((((resume id start now returned c).heap id).status ≡ failed)
          × (((resume id start now returned c).heap id).error_message ≡ some job_cancelled))
  unfolding settle
  settled_late c m = (
    ground (arith, heap-resume id start now returned c),
    ground (arith, heap-resume id start now returned c),
  )

  -- A job that is cancelled after its task has returned and before the worker resumes is CANCELLED,
  -- and then the worker makes it FAILED, with the message of the cancellation.
  pub late_cancel_fails :
      (q.heap id).process_task ≡ some (done returned)
      → can_cancel id q ≡ true
      → let c = react (cancels id) q in
        let r = react (resumes now) c in
        ((c.heap id).status ≡ cancelled)
        × ((r.heap id).status ≡ failed)
        × ((r.heap id).error_message ≡ some job_cancelled)
  unfolding cancel_task
  late_cancel_fails over live =
      let h = cancel_accepted id q live in
      let c = (cancel id q).0 in
      let resumed : react (resumes now) c ≡ resume id start now returned c =
        resume_done id start now returned c (h.same_worker ∙ busy)
          (h.task_asked ∙ ap cancel_task over) in
      rw (cancels_lem id q) (
        rw resumed
          (h.is_marked, (settled_late c h.has_message).0, (settled_late c h.has_message).1))

  after_stop : TranscriptionQueue
  after_stop = react (ends id interrupted) (react stops q)

  stop_worker_busy : react stops q ≡ stop_worker (awaiting id start) q
  unfolding react
  stop_worker_busy = ap (λ s. stop_worker s q) busy

  worker_after : (q.heap id).process_task ≡ some cancelling → after_stop.worker ≡ awaiting id start
  unfolding after_stop
  worker_after t = rw stop_worker_busy (unfold react stop_worker in ground arith)

  task_after :
      (q.heap id).process_task ≡ some cancelling
      → (after_stop.heap id).process_task ≡ some (done interrupted)
  unfolding after_stop
  task_after t = rw stop_worker_busy (unfold react stop_worker in ground arith)

  requested_after :
      (q.heap id).process_task ≡ some cancelling
      → (q.heap id).cancel_requested ≡ true
      → (after_stop.heap id).cancel_requested ≡ true
  unfolding after_stop
  requested_after t c = rw stop_worker_busy (unfold react stop_worker in ground arith)

  -- `stop` is called while the task of a cancelled job has not ended: the worker takes the
  -- CancelledError of `stop` for that of the job, and waits for the next job instead of ending, so the
  -- `await self._worker_task` in `stop` does not return.
  pub stop_swallowed :
      (q.heap id).process_task ≡ some cancelling
      → (q.heap id).cancel_requested ≡ true
      → (run (stops ∷ ends id interrupted ∷ resumes now ∷ []) q).worker ≡ waiting
  unfolding run after_stop
  stop_swallowed t c =
      let k = after_stop in
      rw (resume_done id start now interrupted k (worker_after t) (task_after t))
        ((resume-HasResumed id start now interrupted k).waiting_iff.1 (inr (requested_after t c)))
