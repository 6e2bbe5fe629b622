-- ===== src/Route/History.antt =====
-- The handler as a history of events: what it does to the queue is what its pieces do, one after the
-- other.
use vibe_voice_vendor.Base.{
  All, ◌⊎◌, ◌≡◌, refl, sym, ◌∙◌, ap, true, false, List, [], ◌∷◌, ◌++◌, leb, inl, inr, Result, ok,
  err,
}
use vibe_voice_vendor.Disk.{Disk, has_file}
use vibe_voice_vendor.Queue.{TranscriptionQueue, QueueError, active_count, new_job, reserve}
use vibe_voice_vendor.Queue.Events.{Event, arrives, is_fresh, after, react, run}
use vibe_voice_vendor.Route.{
  queue_is_full, UploadRequest, upload_path, Handled, on_form, read_form, on_reserved, transcribe,
  close_error,
}
use vibe_voice_vendor.Route.Pieces.{run-append, Prepares, Ends}
use vibe_voice_vendor.Route.Handling.{
  not_refused-full, refused-full, on_form-Plays, finally_cancel-Plays, reserved_lem,
}

-- The pieces of a request that was not refused.
pub record IsPlayed (r : UploadRequest) (q : TranscriptionQueue) (h : Handled) : Type 0 where
  pub prepared : List Event
  pub last : List Event
  pub is_run : h.1 ≡ run (arrives r.job_id r.client_identity r.now ∷ (prepared ++ last)) q
  pub prepares : All (Prepares r) prepared
  pub is_last : Ends r.job_id (close_error r) h.0 last

-- Refused if the queue is full, and played if it is not.
abbrev pub Decides : UploadRequest → TranscriptionQueue → Handled → Type 0
Decides r q h =
    ((leb q.max_size (active_count q) ≡ true) × (h ≡ (err queue_is_full, q)))
    ⊎ ((leb q.max_size (active_count q) ≡ false) × IsPlayed r q h)

on_reserved-IsPlayed :
    (r : UploadRequest) (q : TranscriptionQueue) (reserved : Result QueueError TranscriptionQueue)
    → is_fresh r.job_id q ≡ true
    → has_file (upload_path r) q.disk.files ≡ false
    → reserve (new_job r.job_id r.client_identity r.now) q ≡ reserved
    → Decides r q (on_reserved r reserved q)
unfolding on_reserved run react reserve
on_reserved-IsPlayed r q (err e) fresh n h =
    inl (refused-full (leb q.max_size (active_count q)) _ e h, refl)
on_reserved-IsPlayed r q (ok q') fresh n h =
    let (u, same_disk) = reserved_lem r q q' h in
    let w = finally_cancel-Plays r q' (close_error r) (on_form r (read_form r) q') (
      on_form-Plays r (read_form r) q' u
        (ap (λ (d : Disk). has_file (upload_path r) d.files) same_disk ∙ n) refl) in
    let first : q' ≡ react (arrives r.job_id r.client_identity r.now) q =
      rw fresh (ap (λ o. after o q) (sym h)) in
    inr (
      not_refused-full (leb q.max_size (active_count q)) _ q' h,
      record {
        prepared = w.prepared;
        last = w.last;
        is_run = w.is_run ∙ ap (run (w.prepared ++ w.last)) first;
        prepares = w.prepares;
        is_last = w.is_last;
      },
    )

pub transcribe-IsPlayed :
    (r : UploadRequest) (q : TranscriptionQueue)
    → is_fresh r.job_id q ≡ true
    → has_file (upload_path r) q.disk.files ≡ false
    → Decides r q (transcribe r q)
unfolding transcribe
transcribe-IsPlayed r q fresh n =
    on_reserved-IsPlayed r q (reserve (new_job r.job_id r.client_identity r.now) q) fresh n refl

-- The second queue follows the first by events.
abbrev pub Follows : TranscriptionQueue → TranscriptionQueue → Type 0
Follows q after_it = (es : List Event) × (after_it ≡ run es q)

pub Follows-self : (q : TranscriptionQueue) → Follows q q
unfolding run
Follows-self q = ([], refl)

pub Follows-event : (e : Event) (q q' : TranscriptionQueue) → q' ≡ react e q → Follows q q'
unfolding run
Follows-event e q q' h = (e ∷ [], h)

pub Follows-trans : (q q' q'' : TranscriptionQueue) → Follows q q' → Follows q' q'' → Follows q q''
Follows-trans q q' q'' (es, h) (fs, h') = (es ++ fs, h' ∙ ap (run fs) h ∙ sym (run-append es fs q))

pub transcribe-Follows :
    (r : UploadRequest) (q : TranscriptionQueue)
    → is_fresh r.job_id q ≡ true
    → has_file (upload_path r) q.disk.files ≡ false
    → Follows q (transcribe r q).1
transcribe-Follows r q fresh n = elim (transcribe-IsPlayed r q fresh n) [
  | inl (b, same) ↦ ([], unfold run in ap (λ (h : Handled). h.1) same)
  | inr (b, w) ↦ (_, w.is_run)
]
