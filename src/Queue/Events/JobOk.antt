-- ===== src/Queue/Events/JobOk.antt =====
-- What holds of one job at every moment, and that the queue's last steps with a job keep it.
use vibe_voice_vendor.Base.{
  ◌≡◌, refl, Bool, true, false, not, ◌&&◌, ◌||◌, Option, none, some, List, [], ◌∷◌, ◌++◌, Text,
  arith,
}
use vibe_voice_vendor.Models.{
  JobId, JobStatus, processing, streaming, is_terminal, is_queued, is_cancelled,
}
use vibe_voice_vendor.Queue.{TaskState, TranscriptionJob, TranscriptionQueue}
use vibe_voice_vendor.Queue.Events.{is_running, pop_front, is_current, is_stopped}
use vibe_voice_vendor.Keys.{mem}

abbrev pub implies : Bool → Bool → Bool
implies a b = not a || b

abbrev pub is_served : JobStatus → Bool
is_served processing = true
is_served streaming = true
is_served _ = false

abbrev pub has_task : Option TaskState → Bool
has_task none = false
has_task (some t) = true

abbrev pub no_audio : {A : Type 0} → Option A → Bool
no_audio none = true
no_audio (some p) = false

-- Chunks alone; and chunks behind which the sentinel stands once, or nothing once it was read.
unfoldable pub all_chunks : List (Option Text) → Bool
all_chunks [] = true
all_chunks (none ∷ cs) = false
all_chunks (some c ∷ cs) = all_chunks cs

unfoldable pub ends_once : List (Option Text) → Bool
ends_once [] = true
ends_once (none ∷ []) = true
ends_once (none ∷ c ∷ cs) = false
ends_once (some c ∷ []) = false
ends_once (some c ∷ d ∷ cs) = ends_once (d ∷ cs)

-- Where a job stands: in `_jobs`, in `_pending`, in `_cleanup_tasks`, with the worker; and whether
-- the worker is over.
pub record Place : Type 0 where
  pub listed : Bool
  pub pending : Bool
  pub sweeping : Bool
  pub current : Bool
  pub halted : Bool

pub record JobOk (job : TranscriptionJob) (at : Place) : Type 0 where
  pub pending_waits : implies at.pending (is_queued job.status || is_cancelled job.status) ≡ true
  pub queued_pending : implies (is_queued job.status) at.pending ≡ true
  pub live_listed : implies (is_queued job.status || is_served job.status) at.listed ≡ true
  pub served_current : implies (is_served job.status) at.current ≡ true
  pub current_served : implies at.current (is_served job.status || is_cancelled job.status) ≡ true
  pub current_not_pending : implies at.current (not at.pending) ≡ true
  pub task_current : implies (has_task job.process_task) at.current ≡ true
  pub current_task : implies at.current (has_task job.process_task) ≡ true
  pub running_served : implies (is_running job.process_task) (is_served job.status) ≡ true
  pub terminal_notified : implies (is_terminal job.status) job.terminal_notified ≡ true
  pub notified_terminal : implies job.terminal_notified (is_terminal job.status) ≡ true
  pub terminal_scheduled :
      implies (is_terminal job.status && at.listed) job.cleanup_scheduled ≡ true
  pub scheduled_sweeping :
      implies (job.cleanup_scheduled && at.listed) (at.sweeping || at.halted) ≡ true
  pub sweeping_terminal : implies at.sweeping (is_terminal job.status) ≡ true
  pub sweeping_scheduled : implies at.sweeping job.cleanup_scheduled ≡ true
  pub sweeping_listed : implies at.sweeping at.listed ≡ true
  pub terminal_silent : implies (is_terminal job.status) (no_audio job.audio_path) ≡ true
  pub cancel_terminal : implies job.cancel_requested (is_terminal job.status) ≡ true
  pub unended : implies (not job.terminal_notified) (all_chunks job.chunk_queue) ≡ true
  pub ended : implies job.terminal_notified (ends_once job.chunk_queue) ≡ true

pub all_chunks-append_some :
    (cs : List (Option Text)) (c : Text)
    → all_chunks cs ≡ true
    → all_chunks (cs ++ some c ∷ []) ≡ true
unfolding all_chunks
all_chunks-append_some [] c h = refl
all_chunks-append_some (none ∷ cs) c h = h
all_chunks-append_some (some d ∷ cs) c h = all_chunks-append_some cs c h

pub ends_once-append_none :
    (cs : List (Option Text)) → all_chunks cs ≡ true → ends_once (cs ++ none ∷ []) ≡ true
unfolding all_chunks ends_once
ends_once-append_none [] h = refl
ends_once-append_none (none ∷ cs) h = ground arith
ends_once-append_none (some d ∷ []) h = refl
ends_once-append_none (some d ∷ some c ∷ cs) h = ends_once-append_none (some c ∷ cs) h
ends_once-append_none (some d ∷ none ∷ cs) h = ground arith

pub all_chunks-pop_front :
    (cs : List (Option Text)) → all_chunks cs ≡ true → all_chunks (pop_front cs) ≡ true
unfolding all_chunks
all_chunks-pop_front [] h = h
all_chunks-pop_front (none ∷ cs) h = ground arith
all_chunks-pop_front (some c ∷ cs) h = h

pub ends_once-pop_front :
    (cs : List (Option Text)) → ends_once cs ≡ true → ends_once (pop_front cs) ≡ true
unfolding ends_once
ends_once-pop_front [] h = h
ends_once-pop_front (none ∷ []) h = refl
ends_once-pop_front (none ∷ c ∷ cs) h = ground arith
ends_once-pop_front (some c ∷ []) h = refl
ends_once-pop_front (some c ∷ d ∷ cs) h = h

abbrev pub place : JobId → TranscriptionQueue → Place
place j q = record {
  listed = mem j q.jobs;
  pending = mem j q.pending;
  sweeping = mem j q.cleanup_tasks;
  current = is_current j q.worker;
  halted = is_stopped q.worker;
}

abbrev pub OkAt : JobId → TranscriptionQueue → Type 0
OkAt j q = JobOk (q.heap j) (place j q)
