-- ===== src/Route/Handling.antt =====
-- The parts of the handler of an upload, as pieces of the event loop.
use vibe_voice_vendor.Base.{
  length, none, some, ℕ, ◌≡◌, refl, sym, ◌∙◌, ap, subst, Bool, if◌then◌else◌, true, false,
  Bool-cases, ==_self, Option, List, [], ◌∷◌, ◌++◌, Text, ◌==◌, leb, inl, inr, arith, Result, ok,
  err, Fraction,
}
use std.Path.{fun_ext}
use vibe_voice_vendor.Models.{JobId}
use vibe_voice_vendor.Keys.{mem-put_key}
use vibe_voice_vendor.Disk.{FilePath, has_file}
use vibe_voice_vendor.Wav.{WavError, HeliboardWavInfo, read_heliboard_wav_info}
use vibe_voice_vendor.Wav.Metadata.{MetadataError, validate_heliboard_wav_metadata}
use vibe_voice_vendor.Form.{UploadFile}
use vibe_voice_vendor.Upload.{SpoolError, spool_upload}
use vibe_voice_vendor.Queue.{
  TranscriptionJob, TranscriptionQueue, QueueError, update, queue_full, active_count, new_job,
  reserve, submit,
}
use vibe_voice_vendor.Queue.Events.{
  Event, describes, spools, submits, cancels, after, uploads, react, run,
}
use vibe_voice_vendor.Route.{
  RouteError, bad_metadata, bad_wav, request_cancelled, submit_failed, UploadRequest, upload_path,
  Handled, finally_cancel, except_cancel, on_submitted, set_duration, on_info, set_path, on_spooled,
  describe, on_metadata, on_form, read_form, spool_failure, bytes_left,
}
use vibe_voice_vendor.Route.Pieces.{
  Plays, Submits, MayCancel, after_steps, last_step, cancel_step, no_step, recorded, Ends,
}

update_twice :
    (id : JobId) (a b : TranscriptionJob) (heap : JobId → TranscriptionJob)
    → update id a (update id b heap) ≡ update id a heap
update_twice id a b heap =
    fun_ext (λ k. elim (Bool-cases (k == id)) [ inl e ↦ rw e refl | inr e ↦ rw e refl ])

module _ (id : JobId) (p : FilePath) (q : TranscriptionQueue) (uploading : uploads id q ≡ true)
    (new_path : has_file p q.disk.files ≡ false) where
  spools-set_path : set_path id p q ≡ react (spools id p (q.heap id).audio_duration_seconds) q
  unfolding set_path react
  spools-set_path = rw (uploading, new_path) refl

  spools-set_duration :
      (d : Fraction) → set_duration id d (set_path id p q) ≡ react (spools id p d) q
  unfolding set_duration set_path react
  spools-set_duration d =
      rw (uploading, new_path, ==_self id)
        (ap
          (λ heap. record q {
            heap = heap;
            disk = record { files = p ∷ q.disk.files; dirs = p.directory ∷ q.disk.dirs };
          })
          (update_twice id _ _ q.heap))

not_refused :
    (b : Bool) (q q' : TranscriptionQueue) → (if b then err queue_full else ok q) ≡ ok q' → q ≡ q'
not_refused true q q' h = ground arith
not_refused false q q' h = ground arith

pub refused-full :
    (b : Bool) (q : TranscriptionQueue) (e : QueueError)
    → (if b then err queue_full else ok q) ≡ err e
    → b ≡ true
refused-full true q e h = refl
refused-full false q e h = ground arith

pub not_refused-full :
    (b : Bool) (q q' : TranscriptionQueue)
    → (if b then err queue_full else ok q) ≡ ok q'
    → b ≡ false
not_refused-full true q q' h = ground arith
not_refused-full false q q' h = refl

err-ok : (e : WavError) (info : HeliboardWavInfo) → err e ≡ ok info → ⊥
err-ok e info h = cc

same_duration :
    (info info' : HeliboardWavInfo)
    → Path (Result WavError HeliboardWavInfo) (ok info) (ok info')
    → info.duration_seconds ≡ info'.duration_seconds
same_duration info info' h = cc

module _ (r : UploadRequest) where
  recorded_from :
      {left : Option Text}
      → left ≡ (spool_upload r.max_audio_bytes r.opened r.reads).left
      → recorded r ≡ read_heliboard_wav_info (length (bytes_left left)) (bytes_left left)
  recorded_from h =
      sym (ap (λ left. read_heliboard_wav_info (length (bytes_left left)) (bytes_left left)) h)

  on_submitted-Plays :
      (q : TranscriptionQueue) (submitted : Result QueueError TranscriptionQueue)
      → submit r.job_id q ≡ submitted
      → Plays r (Submits r.job_id) q (on_submitted submitted q)
  unfolding on_submitted run react
  on_submitted-Plays q (ok q') h =
      last_step r (Submits r.job_id) (submits r.job_id ∷ []) q (ok tt, q')
        (ap (λ o. after o q) (sym h)) refl
  on_submitted-Plays q (err e) h =
      last_step r (Submits r.job_id) [] q (err (submit_failed e), q) refl refl

  on_info-Plays :
      (info : Result WavError HeliboardWavInfo) (q : TranscriptionQueue)
      → uploads r.job_id q ≡ true
      → has_file (upload_path r) q.disk.files ≡ false
      → recorded r ≡ info
      → Plays r (Submits r.job_id) q (on_info r.job_id info (set_path r.job_id (upload_path r) q))
  unfolding on_info run
  on_info-Plays (err e) q u n known =
      let stored = set_path r.job_id (upload_path r) q in
      after_steps r (Submits r.job_id)
        (spools r.job_id (upload_path r) (q.heap r.job_id).audio_duration_seconds) q stored
        (err (bad_wav e), stored) (refl, refl, λ info h. absurd (err-ok e info (sym known ∙ h)))
        (spools-set_path r.job_id (upload_path r) q u n)
        (last_step r (Submits r.job_id) [] stored (err (bad_wav e), stored) refl refl)
  on_info-Plays (ok info) q u n known =
      let timed =
        set_duration r.job_id info.duration_seconds (set_path r.job_id (upload_path r) q) in
      after_steps r (Submits r.job_id) (spools r.job_id (upload_path r) info.duration_seconds) q
        timed (on_submitted (submit r.job_id timed) timed)
        (refl, refl, λ info' h. same_duration info info' (sym known ∙ h))
        (spools-set_duration r.job_id (upload_path r) q u n info.duration_seconds)
        (on_submitted-Plays timed (submit r.job_id timed) refl)

  on_spooled-Plays :
      (left : Option Text) (result : Result SpoolError ℕ) (q : TranscriptionQueue)
      → uploads r.job_id q ≡ true
      → has_file (upload_path r) q.disk.files ≡ false
      → left ≡ (spool_upload r.max_audio_bytes r.opened r.reads).left
      → Plays r (Submits r.job_id) q (on_spooled r left result q)
  unfolding on_spooled run
  on_spooled-Plays left (err e) q u n known =
      last_step r (Submits r.job_id) [] q (err (spool_failure e), q) refl refl
  on_spooled-Plays left (ok total) q u n known = on_info-Plays _ q u n (recorded_from known)

  describes-describe :
      (mime : Text) (hotwords : Option Text) (q : TranscriptionQueue)
      → uploads r.job_id q ≡ true
      → describe r.job_id mime hotwords q ≡ react (describes r.job_id mime hotwords) q
  unfolding describe react
  describes-describe mime hotwords q u = rw u refl

  uploads-describe :
      (mime : Text) (hotwords : Option Text) (q : TranscriptionQueue)
      → uploads r.job_id q ≡ true
      → uploads r.job_id (describe r.job_id mime hotwords q) ≡ true
  unfolding describe
  uploads-describe mime hotwords q u = rw (==_self r.job_id) u

  except_cancel-Plays :
      (q : TranscriptionQueue) (h : Handled)
      → Plays r (Submits r.job_id) q h
      → Plays r (MayCancel r.job_id) q (except_cancel r.job_id h)
  unfolding except_cancel
  except_cancel-Plays q (ok u, q') w =
      no_step r (Submits r.job_id) (MayCancel r.job_id) q (ok u, q') (ok u) (λ es e. e) w
  except_cancel-Plays q (err request_cancelled, q') w =
      no_step r (Submits r.job_id) (MayCancel r.job_id) q (err request_cancelled, q')
        (err request_cancelled) (λ es e. inl e) w
  except_cancel-Plays q (err e, q') w =
      cancel_step r (Submits r.job_id) (MayCancel r.job_id) q (err e, q') (err e)
        (λ es e. inr (ap (λ l. l ++ cancels r.job_id ∷ []) e)) w

  on_metadata-Plays :
      (audio : UploadFile) (hotwords : Option Text) (mime : Result MetadataError Text)
      (q : TranscriptionQueue)
      → read_form r ≡ ok (audio, hotwords)
      → validate_heliboard_wav_metadata audio.filename audio.content_type ≡ mime
      → uploads r.job_id q ≡ true
      → has_file (upload_path r) q.disk.files ≡ false
      → Plays r (MayCancel r.job_id) q (on_metadata r hotwords mime q)
  unfolding on_metadata run
  on_metadata-Plays audio hotwords (err e) q form known u n =
      last_step r (MayCancel r.job_id) [] q (err (bad_metadata e), q) refl (inl refl)
  on_metadata-Plays audio hotwords (ok mime) q form known u n =
      let described = describe r.job_id mime hotwords q in
      let spooled = spool_upload r.max_audio_bytes r.opened r.reads in
      let kept : has_file (upload_path r) described.disk.files ≡ false = unfold describe in n in
      after_steps r (MayCancel r.job_id) (describes r.job_id mime hotwords) q described _
        (refl, audio, form, known) (describes-describe mime hotwords q u)
        (except_cancel-Plays described (on_spooled r spooled.left spooled.result described) (
          on_spooled-Plays spooled.left spooled.result described
            (uploads-describe mime hotwords q u) kept refl))

  pub on_form-Plays :
      (form : Result RouteError (UploadFile × Option Text)) (q : TranscriptionQueue)
      → uploads r.job_id q ≡ true
      → has_file (upload_path r) q.disk.files ≡ false
      → read_form r ≡ form
      → Plays r (MayCancel r.job_id) q (on_form r form q)
  unfolding on_form run
  on_form-Plays (err e) q u n known =
      last_step r (MayCancel r.job_id) [] q (err e, q) refl (inl refl)
  on_form-Plays (ok (audio, hotwords)) q u n known =
      on_metadata-Plays audio hotwords _ q known refl u n

  cancelled_at_end :
      (e e' : RouteError) (es : List Event)
      → MayCancel r.job_id (err e) es
      → Ends r.job_id none (err e') (es ++ cancels r.job_id ∷ [])
  cancelled_at_end e e' es (inl h) = inl (ap (λ l. l ++ cancels r.job_id ∷ []) h)
  cancelled_at_end e e' es (inr h) = inr (ap (λ l. l ++ cancels r.job_id ∷ []) h)

  left_at_end :
      (e : RouteError) (result result' : Result RouteError (Unit {0})) (es : List Event)
      → MayCancel r.job_id result es
      → Ends r.job_id (some e) result' es
  left_at_end e (ok u) result' es h = inr (inl h)
  left_at_end e (err e') result' es (inl h) = inl h
  left_at_end e (err e') result' es (inr h) = inr (inr h)

  pub finally_cancel-Plays :
      (q : TranscriptionQueue) (close : Option RouteError) (h : Handled)
      → Plays r (MayCancel r.job_id) q h
      → Plays r (Ends r.job_id close) q (finally_cancel r.job_id close h)
  unfolding finally_cancel
  finally_cancel-Plays q none (ok u, q') w =
      no_step r (MayCancel r.job_id) (Ends r.job_id none) q (ok u, q') (ok u) (λ es e. e) w
  finally_cancel-Plays q none (err e, q') w =
      cancel_step r (MayCancel r.job_id) (Ends r.job_id none) q (err e, q') (err e)
        (cancelled_at_end e e) w
  finally_cancel-Plays q (some e) (result, q') w =
      no_step r (MayCancel r.job_id) (Ends r.job_id (some e)) q (result, q') (err e)
        (left_at_end e result (err e)) w

  pub reserved_lem :
      (q q' : TranscriptionQueue)
      → reserve (new_job r.job_id r.client_identity r.now) q ≡ ok q'
      → (uploads r.job_id q' ≡ true) × (q'.disk ≡ q.disk)
  unfolding reserve new_job
  reserved_lem q q' h =
      subst (λ (q'' : TranscriptionQueue). (uploads r.job_id q'' ≡ true) × (q''.disk ≡ q.disk))
        (not_refused (leb q.max_size (active_count q)) _ q' h)
        (ground (arith, ==_self r.job_id, mem-put_key r.job_id r.job_id q.jobs), refl)
