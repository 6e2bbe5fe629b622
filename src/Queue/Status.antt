-- ===== src/Queue/Status.antt =====
-- server/queue.py: what the queue tells its clients (`get_queue_info`, `get_position_and_eta`), and
-- server/routes/queue_status.py, which passes the first on.
pub mod Positions
use vibe_voice_vendor.Base.{
  ℕ, suc, ◌+◌, ◌*◌, Option, none, some, List, [], ◌∷◌, length, Text, text_eq, ◌==◌, if◌then◌else◌,
  Fraction,
}
use vibe_voice_vendor.Models.{JobId, is_queued, JobInfo, QueueStatusResponse}
use vibe_voice_vendor.Keys.{mem}
use vibe_voice_vendor.Queue.{TranscriptionJob, TranscriptionQueue}

-- get_job
unfoldable pub get_job : JobId → TranscriptionQueue → Option TranscriptionJob
get_job id q = if mem id q.jobs then some (q.heap id) else none

-- The loop of `_get_position` over `_jobs`, with `position` so far.
unfoldable pub position_from : (JobId → TranscriptionJob) → JobId → ℕ → List JobId → Option ℕ
position_from heap id position [] = none
position_from heap id position (k ∷ ks) =
    let found = position + 1 in
    let later = position_from heap id (if is_queued (heap k).status then found else position) ks in
    if is_queued (heap k).status then (if k == id then some found else later) else later

unfoldable pub get_position : JobId → TranscriptionQueue → Option ℕ
unfolding position_from
get_position id q = position_from q.heap id 0 q.jobs

unfoldable pub sum : List ℕ → ℕ
sum [] = 0
sum (t ∷ ts) = t + sum ts

-- _estimate_wait: `position * 30.0`, or `position` times the average.
abbrev wait_by : ℕ → List ℕ → Fraction
wait_by position [] = record { num = position * 30; den = 1 }
wait_by position (t ∷ ts) = record { num = position * sum (t ∷ ts); den = length (t ∷ ts) }

unfoldable pub estimate_wait : ℕ → TranscriptionQueue → Fraction
unfolding sum
estimate_wait position q = wait_by position q.processing_times

abbrev pub eta_of : TranscriptionQueue → Option ℕ → Option Fraction
eta_of q none = none
eta_of q (some position) = some (estimate_wait position q)

unfoldable pub get_position_and_eta : JobId → TranscriptionQueue → Option ℕ × Option Fraction
get_position_and_eta id q = let position = get_position id q in (position, eta_of q position)

unfoldable pub job_info : TranscriptionQueue → JobId → JobInfo
job_info q id = record {
  job_id = (q.heap id).job_id;
  status = (q.heap id).status;
  position = get_position id q;
  estimated_wait_seconds = eta_of q (get_position id q);
}

-- The two results of the loop of `get_queue_info`, each by a recursion over `_jobs`.
unfoldable pub count_queued : (JobId → TranscriptionJob) → List JobId → ℕ
count_queued heap [] = 0
count_queued heap (k ∷ ks) = (if is_queued (heap k).status then 1 else 0) + count_queued heap ks

unfoldable pub jobs_of : TranscriptionQueue → Text → List JobId → List JobInfo
jobs_of q client [] = []
jobs_of q client (k ∷ ks) =
    let rest = jobs_of q client ks in
    if text_eq (q.heap k).client_identity client then job_info q k ∷ rest else rest

unfoldable pub get_queue_info : Text → TranscriptionQueue → QueueStatusResponse
get_queue_info client q = record {
  your_jobs = jobs_of q client q.jobs;
  total_queued = count_queued q.heap q.jobs;
}
