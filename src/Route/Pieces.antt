-- ===== src/Route/Pieces.antt =====
-- The pieces of the event loop that the handler of an upload is made of.
use vibe_voice_vendor.Base.{
  All, length, ◌⊎◌, none, some, ◌≡◌, refl, sym, ◌∙◌, ap, Option, List, [], ◌∷◌, ◌++◌, Result, ok,
  err,
}
use mathlib.Core.List.{append_assoc}
use vibe_voice_vendor.Models.{JobId}
use vibe_voice_vendor.Wav.{WavError, HeliboardWavInfo, read_heliboard_wav_info}
use vibe_voice_vendor.Wav.Metadata.{validate_heliboard_wav_metadata}
use vibe_voice_vendor.Form.{UploadFile}
use vibe_voice_vendor.Upload.{spool_upload}
use vibe_voice_vendor.Queue.{TranscriptionQueue, cancel}
use vibe_voice_vendor.Queue.Events.{Event, describes, spools, submits, cancels, react, run}
use vibe_voice_vendor.Route.{RouteError, UploadRequest, upload_path, Handled, read_form, bytes_left}

pub run-append :
    (es fs : List Event) (q : TranscriptionQueue) → run (es ++ fs) q ≡ run fs (run es q)
unfolding run
run-append [] fs q = refl
run-append (e ∷ es) fs q = run-append es fs (react e q)

-- The header of the recording that a request brings.
abbrev pub recorded : UploadRequest → Result WavError HeliboardWavInfo
recorded r =
    let left = bytes_left (spool_upload r.max_audio_bytes r.opened r.reads).left in
    read_heliboard_wav_info (length left) left

-- The pieces before the end of a request: the content type and the hotwords of its form, and its own
-- file with the duration of its recording.
abbrev pub Prepares : UploadRequest → Event → Type 0
Prepares r (describes id mime hotwords) =
    (id ≡ r.job_id)
    × (audio : UploadFile) × (read_form r ≡ ok (audio, hotwords))
    × (validate_heliboard_wav_metadata audio.filename audio.content_type ≡ ok mime)
Prepares r (spools id p duration) =
    (id ≡ r.job_id)
    × (p ≡ upload_path r)
    × ((info : HeliboardWavInfo) → recorded r ≡ ok info → duration ≡ info.duration_seconds)
Prepares r e = ⊥

-- The queue of `h` comes from `q` by pieces that prepare, and then the last ones.
pub record Plays (r : UploadRequest) (Last : Result RouteError (Unit {0}) → List Event → Type 0)
    (q : TranscriptionQueue) (h : Handled) : Type 0 where
  pub prepared : List Event
  pub last : List Event
  pub is_run : h.1 ≡ run (prepared ++ last) q
  pub prepares : All (Prepares r) prepared
  pub is_last : Last h.0 last

abbrev pub Submits : JobId → Result RouteError (Unit {0}) → List Event → Type 0
Submits id (ok u) es = es ≡ submits id ∷ []
Submits id (err e) es = es ≡ []

abbrev pub MayCancel : JobId → Result RouteError (Unit {0}) → List Event → Type 0
MayCancel id (ok u) es = es ≡ submits id ∷ []
MayCancel id (err e) es = (es ≡ []) ⊎ (es ≡ cancels id ∷ [])

-- The last pieces of a request, by what `form.close()` raises and by how it ends.
abbrev pub Ends : JobId → Option RouteError → Result RouteError (Unit {0}) → List Event → Type 0
Ends id none (ok u) es = es ≡ submits id ∷ []
Ends id none (err e) es = (es ≡ cancels id ∷ []) ⊎ (es ≡ cancels id ∷ cancels id ∷ [])
Ends id (some e) result es = (es ≡ []) ⊎ (es ≡ submits id ∷ []) ⊎ (es ≡ cancels id ∷ [])

-- One piece more in front.
pub after_steps :
    (r : UploadRequest) (Last : Result RouteError (Unit {0}) → List Event → Type 0) (e : Event)
    (q q' : TranscriptionQueue) (h : Handled)
    → Prepares r e
    → q' ≡ react e q
    → Plays r Last q' h
    → Plays r Last q h
unfolding run
after_steps r Last e q q' h p same w = record {
  prepared = e ∷ w.prepared;
  last = w.last;
  is_run = w.is_run ∙ ap (run (w.prepared ++ w.last)) same;
  prepares = (p, w.prepares);
  is_last = w.is_last;
}

-- Nothing was prepared any more.
pub last_step :
    (r : UploadRequest) (Last : Result RouteError (Unit {0}) → List Event → Type 0)
    (es : List Event) (q : TranscriptionQueue) (h : Handled)
    → h.1 ≡ run es q
    → Last h.0 es
    → Plays r Last q h
last_step r Last es q h same l = record {
  prepared = [];
  last = es;
  is_run = same;
  prepares = tt;
  is_last = l;
}

-- A cancellation at the end.
pub cancel_step :
    (r : UploadRequest) (Last Last' : Result RouteError (Unit {0}) → List Event → Type 0)
    (q : TranscriptionQueue) (h : Handled) (result : Result RouteError (Unit {0}))
    → ((es : List Event) → Last h.0 es → Last' result (es ++ cancels r.job_id ∷ []))
    → Plays r Last q h
    → Plays r Last' q (result, (cancel r.job_id h.1).0)
cancel_step r Last Last' q h result more w = record {
  prepared = w.prepared;
  last = w.last ++ cancels r.job_id ∷ [];
  is_run =
      ap (λ q'. (cancel r.job_id q').0) w.is_run
      ∙ unfold run react in
        sym (run-append (w.prepared ++ w.last) (cancels r.job_id ∷ []) q)
        ∙ ap (λ es. run es q) (append_assoc w.prepared w.last (cancels r.job_id ∷ []));
  prepares = w.prepares;
  is_last = more w.last w.is_last;
}

pub no_step :
    (r : UploadRequest) (Last Last' : Result RouteError (Unit {0}) → List Event → Type 0)
    (q : TranscriptionQueue) (h : Handled) (result : Result RouteError (Unit {0}))
    → ((es : List Event) → Last h.0 es → Last' result es)
    → Plays r Last q h
    → Plays r Last' q (result, h.1)
no_step r Last Last' q h result more w = record {
  prepared = w.prepared;
  last = w.last;
  is_run = w.is_run;
  prepares = w.prepares;
  is_last = more w.last w.is_last;
}
