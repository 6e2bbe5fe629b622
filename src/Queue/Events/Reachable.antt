-- ===== src/Queue/Events/Reachable.antt =====
-- What follows from the invariant for a queue that started empty, whatever has happened since.
use vibe_voice_vendor.Base.{
  ℕ, ◌≤◌, length, ◌≡◌, refl, Bool, true, false, ◌||◌, ◌⊎◌, inl, inr, Option, none, some, List,
  arith, ok,
}
use vibe_voice_vendor.Models.{
  JobId, JobStatus, queued, processing, streaming, completed, failed, cancelled, is_terminal,
}
use vibe_voice_vendor.Keys.{mem}
use vibe_voice_vendor.Disk.{Disk, FilePath}
use vibe_voice_vendor.Queue.{
  TranscriptionJob, TranscriptionQueue, WorkerState, waiting, stopped, awaiting, active_count,
  max_history, init,
}
use vibe_voice_vendor.Queue.Events.{Event, run, is_current, is_stopped}
use vibe_voice_vendor.Queue.Events.JobOk.{all_chunks, ends_once, no_audio}
use vibe_voice_vendor.Queue.Events.Invariant.{Inv, run-Inv, run-short, init-Inv, max_size-run}

abbrev pub IsServed : JobStatus → Type 0
IsServed s = (s ≡ processing) ⊎ (s ≡ streaming)

abbrev pub IsTerminal : JobStatus → Type 0
IsTerminal s = (s ≡ completed) ⊎ (s ≡ failed) ⊎ (s ≡ cancelled)

-- Who will act next on a job that the queue lists.
pub record Accounted (q : TranscriptionQueue) (j : JobId) : Type 0 where
  pub waits_in_line : (q.heap j).status ≡ queued → mem j q.pending ≡ true
  pub is_with_worker : IsServed (q.heap j).status → (start : ℕ) × (q.worker ≡ awaiting j start)
  pub will_be_swept :
      IsTerminal (q.heap j).status → (mem j q.cleanup_tasks ≡ true) ⊎ (q.worker ≡ stopped)

-- What a job's client and its audio have seen of its end.
pub record IsClosed (job : TranscriptionJob) : Type 0 where
  pub notified : job.terminal_notified ≡ true
  pub silent : job.audio_path ≡ none
  pub sentinel_last : ends_once job.chunk_queue ≡ true

current→awaiting :
    (j : JobId) (w : WorkerState) → is_current j w ≡ true → (start : ℕ) × (w ≡ awaiting j start)
current→awaiting j (awaiting id start) h = (start, ground arith)
current→awaiting j waiting h = cc
current→awaiting j stopped h = cc

no_audio→none : (o : Option FilePath) → no_audio o ≡ true → o ≡ none
no_audio→none none h = refl
no_audio→none (some p) h = cc

swept_or_stopped :
    (b : Bool) (w : WorkerState) → (b || is_stopped w) ≡ true → (b ≡ true) ⊎ (w ≡ stopped)
swept_or_stopped true w h = inl refl
swept_or_stopped false stopped h = inr refl
swept_or_stopped false waiting h = cc
swept_or_stopped false (awaiting id start) h = cc

module _ (max_size : ℕ) (set : Bool) (disk : Disk) (q : TranscriptionQueue)
    (start : init max_size set disk ≡ ok q) (es : List Event) where
  reached-Inv : Inv (run es q)
  reached-Inv = run-Inv es q (init-Inv max_size set disk q start)

  max_size-init : q.max_size ≡ max_size
  unfolding init
  max_size-init = ground (arith, start)

  -- After any history of events, at most `max_size` jobs are active: uploading, queued, processing or
  -- streaming.
  pub active_count-le-max_size : active_count (run es q) ≤ max_size
  active_count-le-max_size = omega (
    arith,
    reached-Inv.bounded,
    max_size-run es q (init-Inv max_size set disk q start),
    max_size-init,
  )

  -- After any history, a job that the queue lists is not forgotten: a queued one is in the line, one
  -- in processing or streaming is the one that the worker awaits, and a terminal one has a cleanup
  -- task, unless the worker was stopped.
  pub listed-Accounted : (j : JobId) → mem j (run es q).jobs ≡ true → Accounted (run es q) j
  listed-Accounted j m =
      let o = reached-Inv.each j in
      record {
        waits_in_line = λ s. ground arith;
        is_with_worker = λ s. current→awaiting j (run es q).worker (ground arith);
        will_be_swept = λ s. swept_or_stopped _ (run es q).worker (ground arith);
      }

  -- After any history, at most one job is processing or streaming.
  pub served_unique :
      (i j : JobId)
      → IsServed ((run es q).heap i).status
      → IsServed ((run es q).heap j).status
      → i ≡ j
  served_unique i j si sj =
      let oi = reached-Inv.each i in
      let oj = reached-Inv.each j in
      let wi = current→awaiting i (run es q).worker (ground arith) in
      let wj = current→awaiting j (run es q).worker (ground arith) in ground arith

  -- After any history, a terminal job has had its sentinel put exactly once, as the last entry of its
  -- chunk queue (which is empty once that was read), and it names no audio file (`audio_path` is none).
  pub terminal-IsClosed :
      (j : JobId) → IsTerminal ((run es q).heap j).status → IsClosed ((run es q).heap j)
  terminal-IsClosed j t =
      let o = reached-Inv.each j in
      record {
        notified = ground arith;
        silent = no_audio→none _ (ground arith);
        sentinel_last = ground arith;
      }

  -- After any history, the chunk queue of a job that is not terminal holds chunks alone: its stream
  -- is not ended.
  pub live-all_chunks :
      (j : JobId)
      → is_terminal ((run es q).heap j).status ≡ false
      → all_chunks ((run es q).heap j).chunk_queue ≡ true
  live-all_chunks j t = let o = reached-Inv.each j in ground arith

  -- After any history, the queue remembers at most `max_history` processing times.
  pub processing_times-le-max_history : length (run es q).processing_times ≤ max_history
  unfolding init
  processing_times-le-max_history =
      run-short es q (init-Inv max_size set disk q start) (ground (arith, start))
