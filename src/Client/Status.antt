-- ===== src/Client/Status.antt =====
-- client/client.py and client/cli.py: `queue_status` and the command `status`, which prints it. What the
-- client reads of the response is what the server put into it. `rounded` is `f"{eta:.0f}"` and `hex` is
-- `UUID.hex`.
pub mod Shown
mod Tests
use vibe_voice_vendor.Base.{
  ℕ, not, Option, none, some, List, [], ◌∷◌, ◌++◌, map, take, Text, codes, decimal, Fraction, ◌==◌,
  Result, ok, err, raise_if, ◌>>=◌, ◌>>◌,
}
use vibe_voice_vendor.Models.{
  JobId, JobStatus, uploading, queued, processing, streaming, completed, failed, cancelled, JobInfo,
  QueueStatusResponse,
}

-- RuntimeError with the status and the detail.
pub data StatusError : Type 0 where
  status_failed : ℕ → Text → StatusError

unfoldable pub read_status : ℕ → Text → QueueStatusResponse → Result StatusError QueueStatusResponse
read_status status detail info = do
  raise_if (not (status == 200)) (status_failed status detail)
  ok info

-- The value of the enumeration's member.
abbrev pub status_name : JobStatus → Text
status_name uploading = codes "uploading"
status_name queued = codes "queued"
status_name processing = codes "processing"
status_name streaming = codes "streaming"
status_name completed = codes "completed"
status_name failed = codes "failed"
status_name cancelled = codes "cancelled"

-- The parts that are there only for a job with a position, each behind a space.
abbrev pub position_part : Option ℕ → Text
position_part none = []
position_part (some position) = codes " position=" ++ decimal position

abbrev pub eta_part : (Fraction → Text) → Option Fraction → Text
eta_part rounded none = []
eta_part rounded (some eta) = codes " eta=" ++ rounded eta ++ codes "s"

module _ (rounded : Fraction → Text) (hex : JobId → Text) where
  unfoldable pub job_line : JobInfo → Text
  job_line job =
      codes "  "
      ++ take 8 (hex job.job_id)
      ++ codes "... status="
      ++ status_name job.status
      ++ position_part job.position
      ++ eta_part rounded job.estimated_wait_seconds

  unfoldable pub job_lines : List JobInfo → List Text
  unfolding job_line
  job_lines [] = codes "No active jobs." ∷ []
  job_lines (job ∷ jobs) = codes "Your jobs:" ∷ map job_line (job ∷ jobs)

  -- The lines on stdout.
  unfoldable pub print_status : QueueStatusResponse → List Text
  unfolding job_lines
  print_status info =
      (codes "Total queued: " ++ decimal info.total_queued) ∷ job_lines info.your_jobs
