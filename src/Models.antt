-- ===== src/Models.antt =====
-- server/models.py: the states of a job and the payloads of the responses. A job's id, the
-- hexadecimal form of a random 128-bit number, is that number.
use vibe_voice_vendor.Base.{ℕ, Bool, true, false, Option, List, Fraction}

abbrev pub JobId : Type 0
JobId = ℕ

pub data JobStatus : Type 0 where
  uploading queued processing streaming completed failed cancelled : JobStatus

pub record QueuePositionEvent : Type 0 where
  pub job_id : JobId
  pub position : ℕ
  pub estimated_wait_seconds : Fraction

pub record JobInfo : Type 0 where
  pub job_id : JobId
  pub status : JobStatus
  pub position : Option ℕ
  pub estimated_wait_seconds : Option Fraction

pub record QueueStatusResponse : Type 0 where
  pub your_jobs : List JobInfo
  pub total_queued : ℕ

-- `status in (COMPLETED, FAILED, CANCELLED)`
abbrev pub is_terminal : JobStatus → Bool
is_terminal uploading = false
is_terminal queued = false
is_terminal processing = false
is_terminal streaming = false
is_terminal completed = true
is_terminal failed = true
is_terminal cancelled = true

-- `status in {UPLOADING, QUEUED, PROCESSING, STREAMING}`
abbrev pub is_active : JobStatus → Bool
is_active uploading = true
is_active queued = true
is_active processing = true
is_active streaming = true
is_active completed = false
is_active failed = false
is_active cancelled = false

abbrev pub is_uploading : JobStatus → Bool
is_uploading uploading = true
is_uploading _ = false

abbrev pub is_queued : JobStatus → Bool
is_queued queued = true
is_queued _ = false

abbrev pub is_cancelled : JobStatus → Bool
is_cancelled cancelled = true
is_cancelled _ = false

-- `status in {COMPLETED, FAILED}`
abbrev pub is_finished : JobStatus → Bool
is_finished completed = true
is_finished failed = true
is_finished _ = false
