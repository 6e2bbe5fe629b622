-- ===== src/Route/Outcome.antt =====
-- How a request leaves the queue.
use vibe_voice_vendor.Base.{
  ℕ, ◌≡◌, refl, sym, ◌∙◌, ap, subst, ◌⊎◌, inl, inr, true, false, Bool-cases, ==_self, Option, none,
  some, [], ◌∷◌, ◌++◌, Text, ◌==◌, leb, arith, Result, ok, err,
}
use vibe_voice_vendor.Models.{JobId, uploading, queued, cancelled}
use vibe_voice_vendor.Keys.{mem, mem-put_key, put_key}
use vibe_voice_vendor.Disk.{has_file}
use vibe_voice_vendor.Wav.{WavError, HeliboardWavInfo}
use vibe_voice_vendor.Wav.Metadata.{MetadataError, validate_heliboard_wav_metadata}
use vibe_voice_vendor.Form.{UploadFile}
use vibe_voice_vendor.Upload.{SpoolError, spool_upload}
use vibe_voice_vendor.Queue.{
  TranscriptionJob, TranscriptionQueue, new_job, reserve, submit, enter, cancel, discard_from,
  set_job, active_count,
}
use vibe_voice_vendor.Queue.Events.WindUp.{disk-wind_up}
use vibe_voice_vendor.Queue.Events.Cancel.{
  HasCancelled, can_cancel, cancel_accepted, cancel-outcome,
}
use vibe_voice_vendor.Route.{
  RouteError, queue_is_full, http, bad_metadata, bad_wav, storage_exhausted, request_cancelled,
  unexpected, submit_failed, UploadRequest, upload_path, Handled, finally_cancel, except_cancel,
  on_submitted, set_duration, on_info, set_path, on_spooled, describe, on_metadata, on_form,
  read_form, close_error, on_reserved, transcribe,
}

module _ (r : UploadRequest) (before : TranscriptionQueue) where
  -- The reserved job, with its file if it has been spooled.
  pub record Uploading (q : TranscriptionQueue) : Type 0 where
    pub listed : mem r.job_id q.jobs ≡ true
    pub is_uploading : (q.heap r.job_id).status ≡ uploading
    pub same_line : q.pending ≡ before.pending
    pub others : (j : JobId) → (j == r.job_id) ≡ false → q.heap j ≡ before.heap j
    pub file :
        ((q.heap r.job_id).audio_path ≡ some (upload_path r))
        ⊎ (((q.heap r.job_id).audio_path ≡ none) × (has_file (upload_path r) q.disk.files ≡ false))

  -- The job of a request that failed: cancelled, and no trace of its file.
  pub record Released (q : TranscriptionQueue) : Type 0 where
    pub is_cancelled : (q.heap r.job_id).status ≡ cancelled
    pub no_path : (q.heap r.job_id).audio_path ≡ none
    pub file_gone : has_file (upload_path r) q.disk.files ≡ false
    pub same_line : q.pending ≡ before.pending
    pub others : (j : JobId) → (j == r.job_id) ≡ false → q.heap j ≡ before.heap j

  -- The job of a request that is answered: queued, last in the line, with its file.
  pub record Accepted (q : TranscriptionQueue) : Type 0 where
    pub is_queued : (q.heap r.job_id).status ≡ queued
    pub path : (q.heap r.job_id).audio_path ≡ some (upload_path r)
    pub in_line : q.pending ≡ before.pending ++ r.job_id ∷ []
    pub others : (j : JobId) → (j == r.job_id) ≡ false → q.heap j ≡ before.heap j

  abbrev Ended : Result RouteError (Unit {0}) → TranscriptionQueue → Type 0
  Ended (ok u) q = Accepted q
  Ended (err e) q = Uploading q ⊎ Released q

  abbrev pub Answered : Result RouteError (Unit {0}) → TranscriptionQueue → Type 0
  Answered (ok u) q = Accepted q
  Answered (err e) q = Released q

  file_gone-cancel :
      (q : TranscriptionQueue)
      → Uploading q
      → HasCancelled r.job_id q
      → can_cancel r.job_id q ≡ true
      → has_file (upload_path r) (cancel r.job_id q).0.disk.files ≡ false
  unfolding cancel discard_from
  file_gone-cancel q w c b = elim w.file [
    | inl e ↦ c.ended.file_gone (upload_path r) e
    | inr (no_path, absent) ↦ rw (b, disk-wind_up, ==_self r.job_id) (rw no_path absent)
  ]

  cancel-Released : (q : TranscriptionQueue) → Uploading q → Released (cancel r.job_id q).0
  cancel-Released q w =
      let b : can_cancel r.job_id q ≡ true = ground (arith, w.listed, w.is_uploading) in
      let c = cancel_accepted r.job_id q b in
      record {
        is_cancelled = c.is_marked;
        no_path = c.ended.silent;
        file_gone = file_gone-cancel q w c b;
        same_line = c.ended.same_line ∙ w.same_line;
        others = λ j n. c.ended.others j n ∙ w.others j n;
      }

  -- The second `cancel` of a request finds the job terminal.
  cancel-Released_again : (q : TranscriptionQueue) → Released q → Released (cancel r.job_id q).0
  cancel-Released_again q w = elim (cancel-outcome r.job_id q) [
    | inl (b, e) ↦ subst (λ h. Released h.0) (sym e) w
    | inr (b, c) ↦ ground (arith, w.is_cancelled)
  ]

  cancel-Ended :
      (q : TranscriptionQueue) → Uploading q ⊎ Released q → Released (cancel r.job_id q).0
  cancel-Ended q (inl w) = cancel-Released q w
  cancel-Ended q (inr w) = cancel-Released_again q w

  -- The job is as some way through the handler left it: not cancelled, or cancelled, or queued.
  abbrev pub LeftOver : TranscriptionQueue → Type 0
  LeftOver q = Uploading q ⊎ Released q ⊎ Accepted q

  -- The end of a request by what `form.close()` raises.
  abbrev pub Finished :
      Option RouteError → Result RouteError (Unit {0}) → TranscriptionQueue → Type 0
  Finished none result q = Answered result q
  Finished (some e) result q = (result ≡ err e) × LeftOver q

  left_over :
      (result : Result RouteError (Unit {0})) (q : TranscriptionQueue) → Ended result q → LeftOver q
  left_over (ok u) q w = inr (inr w)
  left_over (err e) q (inl w) = inl w
  left_over (err e) q (inr w) = inr (inl w)

  finally_cancel-Finished :
      (close : Option RouteError) (h : Handled)
      → Ended h.0 h.1
      → Finished close (finally_cancel r.job_id close h).0 (finally_cancel r.job_id close h).1
  unfolding finally_cancel
  finally_cancel-Finished none (ok u, q) w = w
  finally_cancel-Finished none (err e, q) w = cancel-Ended q w
  finally_cancel-Finished (some e) (result, q) w = (refl, left_over result q w)

  except_cancel-Ended :
      (h : Handled)
      → Ended h.0 h.1
      → Ended (except_cancel r.job_id h).0 (except_cancel r.job_id h).1
  unfolding except_cancel
  except_cancel-Ended (ok u, q) w = w
  except_cancel-Ended (err request_cancelled, q) w = w
  except_cancel-Ended (err (http e), q) w = inr (cancel-Ended q w)
  except_cancel-Ended (err (bad_metadata e), q) w = inr (cancel-Ended q w)
  except_cancel-Ended (err (bad_wav e), q) w = inr (cancel-Ended q w)
  except_cancel-Ended (err storage_exhausted, q) w = inr (cancel-Ended q w)
  except_cancel-Ended (err queue_is_full, q) w = inr (cancel-Ended q w)
  except_cancel-Ended (err (unexpected n), q) w = inr (cancel-Ended q w)
  except_cancel-Ended (err (submit_failed e), q) w = inr (cancel-Ended q w)

  -- A change of the job's other fields keeps it.
  on_job-Uploading :
      (q : TranscriptionQueue) (job : TranscriptionJob)
      → Uploading q
      → job.status ≡ (q.heap r.job_id).status
      → job.audio_path ≡ (q.heap r.job_id).audio_path
      → Uploading (set_job r.job_id job q)
  on_job-Uploading q job w s p = record {
    listed = w.listed;
    is_uploading = rw (==_self r.job_id) (s ∙ w.is_uploading);
    same_line = w.same_line;
    others = λ j n. rw n (w.others j n);
    file = rw (==_self r.job_id) (rw p w.file);
  }

  set_path-Uploading :
      (q : TranscriptionQueue)
      → Uploading q
      → Uploading (set_path r.job_id (upload_path r) q)
        × (((set_path r.job_id (upload_path r) q).heap r.job_id).audio_path ≡ some (upload_path r))
  unfolding set_path
  set_path-Uploading q w = (
    record {
      listed = w.listed;
      is_uploading = rw (==_self r.job_id) w.is_uploading;
      same_line = w.same_line;
      others = λ j n. rw n (w.others j n);
      file = inl (rw (==_self r.job_id) refl);
    },
    rw (==_self r.job_id) refl,
  )

  submit-Ended :
      (q : TranscriptionQueue)
      → Uploading q
      → (q.heap r.job_id).audio_path ≡ some (upload_path r)
      → Ended (on_submitted (submit r.job_id q) q).0 (on_submitted (submit r.job_id q) q).1
  unfolding submit enter on_submitted
  submit-Ended q w p =
      let accepted : Accepted (enter r.job_id q) = record {
        is_queued = rw (==_self r.job_id) refl;
        path = rw (==_self r.job_id) p;
        in_line = ap (λ l. l ++ r.job_id ∷ []) w.same_line;
        others = λ j n. rw n (w.others j n);
      } in
      rw (w.listed, w.is_uploading) accepted

  on_info-Ended :
      (info : Result WavError HeliboardWavInfo) (q : TranscriptionQueue)
      → Uploading q
      → (q.heap r.job_id).audio_path ≡ some (upload_path r)
      → Ended (on_info r.job_id info q).0 (on_info r.job_id info q).1
  unfolding on_info set_duration
  on_info-Ended (err e) q w p = inl w
  on_info-Ended (ok info) q w p =
      submit-Ended (set_duration r.job_id info.duration_seconds q)
        (on_job-Uploading q _ w refl refl) (rw (==_self r.job_id) p)

  on_spooled-Ended :
      (left : Option Text) (result : Result SpoolError ℕ) (q : TranscriptionQueue)
      → Uploading q
      → Ended (on_spooled r left result q).0 (on_spooled r left result q).1
  unfolding on_spooled
  on_spooled-Ended left (err e) q w = inl w
  on_spooled-Ended left (ok total) q w =
      let (kept, p) = set_path-Uploading q w in
      on_info-Ended _ (set_path r.job_id (upload_path r) q) kept p

  on_metadata-Ended :
      (hotwords : Option Text) (mime : Result MetadataError Text) (q : TranscriptionQueue)
      → Uploading q
      → Ended (on_metadata r hotwords mime q).0 (on_metadata r hotwords mime q).1
  unfolding on_metadata describe
  on_metadata-Ended hotwords (err e) q w = inl w
  on_metadata-Ended hotwords (ok mime) q w = except_cancel-Ended _ (
      on_spooled-Ended (spool_upload r.max_audio_bytes r.opened r.reads).left
        (spool_upload r.max_audio_bytes r.opened r.reads).result (describe r.job_id mime hotwords q)
        (on_job-Uploading q _ w refl refl))

  on_form-Ended :
      (form : Result RouteError (UploadFile × Option Text)) (q : TranscriptionQueue)
      → Uploading q
      → Ended (on_form r form q).0 (on_form r form q).1
  unfolding on_form
  on_form-Ended (err e) q w = inl w
  on_form-Ended (ok (audio, hotwords)) q w =
      on_metadata-Ended hotwords (validate_heliboard_wav_metadata audio.filename audio.content_type)
        q w

-- A request whose job id and upload directory are new.
pub record IsNewRequest (r : UploadRequest) (q : TranscriptionQueue) : Type 0 where
  pub new_id : mem r.job_id q.jobs ≡ false
  pub new_path : has_file (upload_path r) q.disk.files ≡ false

abbrev reserved_job : UploadRequest → TranscriptionJob
reserved_job r = new_job r.job_id r.client_identity r.now

abbrev reserved_queue : UploadRequest → TranscriptionQueue → TranscriptionQueue
reserved_queue r q = record (set_job r.job_id (record (reserved_job r) { status = uploading }) q) {
  jobs = put_key r.job_id q.jobs;
}

reserved_queue-Uploading :
    (r : UploadRequest) (q : TranscriptionQueue)
    → IsNewRequest r q
    → Uploading r q (reserved_queue r q)
unfolding new_job
reserved_queue-Uploading r q new = record {
  listed = ground (arith, mem-put_key r.job_id r.job_id q.jobs);
  is_uploading = rw (==_self r.job_id) refl;
  same_line = refl;
  others = λ j n. rw n refl;
  file = inr (rw (==_self r.job_id) refl, new.new_path);
}

-- A request that comes while the queue is full is refused and changes nothing. Any other, with a new
-- id and a new upload directory, ends in one of these ways, whatever the parser, the form, the
-- metadata, the file system, the recording and the queue make of it. If no form was parsed, or its
-- `close` raises nothing: with the response, and then its job is queued with its file, as the last of the
-- line; or with an exception, and then its job is cancelled, has no path, and its file is gone. If
-- `form.close()` raises: with that exception, and then the job is queued, or cancelled, or still uploading.
-- In each case every other job is as it was, and the line too unless the job is queued.
pub transcribe-Answered :
    (r : UploadRequest) (q : TranscriptionQueue)
    → IsNewRequest r q
    → ((leb q.max_size (active_count q) ≡ true) × (transcribe r q ≡ (err queue_is_full, q)))
      ⊎ ((leb q.max_size (active_count q) ≡ false)
          × Finished r q (close_error r) (transcribe r q).0 (transcribe r q).1)
unfolding transcribe on_reserved reserve new_job
transcribe-Answered r q new = elim (Bool-cases (leb q.max_size (active_count q))) [
  | inl b ↦ inl (b, rw b refl)
  | inr b ↦ inr (
    b,
    rw b (
        finally_cancel-Finished r q (close_error r) (on_form r (read_form r) (reserved_queue r q)) (
          on_form-Ended r q (read_form r) (reserved_queue r q) (reserved_queue-Uploading r q new))),
  )
]
