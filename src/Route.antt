-- ===== src/Route.antt =====
-- server/routes/transcribe.py: the handler `transcribe` with `_parse_transcribe_form` and
-- `_transcribe_authenticated`, from the client's identity to the response. It is one function of the
-- queue: what the other tasks do to the queue at its `await`s is in Queue/Events, whose events
-- `arrives`, `describes`, `spools`, `submits` and `cancels` are the pieces of this handler. What
-- Starlette's parser and the file system answer is part of the request; the spooled file is read back
-- as it was written.
pub mod Outcome
pub mod Pieces
pub mod Handling
pub mod History
pub mod Tests
use vibe_voice_vendor.Base.{
  ℕ, ◌+◌, ◌-◌, Bool, true, false, not, ◌&&◌, ◌||◌, Option, none, some, List, [], ◌∷◌, length, Text,
  codes, text_eq, strip, ◌==◌, leb, if◌then◌else◌, Result, ok, err, raise_if, ◌>>=◌, ◌>>◌, Fraction,
}
use vibe_voice_vendor.Models.{JobId}
use vibe_voice_vendor.Http.{HttpException}
use vibe_voice_vendor.Disk.{FilePath, upload_file_name}
use vibe_voice_vendor.Wav.{WavError, HeliboardWavInfo, read_heliboard_wav_info}
use vibe_voice_vendor.Wav.Metadata.{MetadataError, validate_heliboard_wav_metadata}
use vibe_voice_vendor.Form.{UploadFile, FormData, bad_request, extract_transcribe_form}
use vibe_voice_vendor.Upload.{
  Read, SpoolError, http_error, os_error, task_cancelled, other_error, Spooled, spool_upload,
}
use vibe_voice_vendor.Queue.{
  TranscriptionJob, TranscriptionQueue, QueueError, set_job, new_job, reserve, submit, cancel,
}

-- How `parser.parse()` ended; the body that it is given is limited_request_stream of Upload.
pub data ParseOutcome : Type 0 where
  parsed : FormData → ParseOutcome
  multipart_exception parse_raised : Text → ParseOutcome
  parse_os_error parse_value_error parse_cancelled : ParseOutcome

-- How `form.close()` ended.
pub data CloseOutcome : Type 0 where
  closed close_cancelled : CloseOutcome
  close_raised : Text → CloseOutcome

-- What the handler raises. The first has its status and detail; those of the others are in
-- `status_of`.
pub data RouteError : Type 0 where
  http : HttpException → RouteError
  bad_metadata : MetadataError → RouteError
  bad_wav : WavError → RouteError
  storage_exhausted queue_is_full request_cancelled : RouteError
  unexpected : Text → RouteError
  submit_failed : QueueError → RouteError

-- The status of the response; `none` where the request's task was cancelled.
abbrev pub status_of : RouteError → Option ℕ
status_of (http e) = some e.status_code
status_of (bad_metadata e) = some 400
status_of (bad_wav e) = some 422
status_of storage_exhausted = some 507
status_of queue_is_full = some 503
status_of request_cancelled = none
status_of (unexpected name) = some 500
status_of (submit_failed e) = some 500

pub record UploadRequest : Type 0 where
  pub client_identity : Text
  pub job_id : JobId
  pub now : ℕ
  pub content_type : Text
  pub max_audio_bytes : ℕ
  pub parse_outcome : ParseOutcome
  pub close_outcome : CloseOutcome
  pub upload_dir : Text
  pub opened : Bool
  pub reads : List Read

-- `str.lower` on the characters that a header can have, Latin-1.
abbrev pub lower_latin : ℕ → ℕ
lower_latin c =
    if (leb b'A' c && leb c b'Z') || (leb 192 c && leb c 222 && not (c == 215)) then c + 32 else c

abbrev pub lower : Text → Text
lower [] = []
lower (c ∷ s) = lower_latin c ∷ lower s

-- `content_type.split(";", 1)[0]`
unfoldable pub before_semicolon : Text → Text
before_semicolon [] = []
before_semicolon (c ∷ s) = let rest = before_semicolon s in if c == b';' then [] else c ∷ rest

unfoldable pub media_type : Text → Text
unfolding before_semicolon
media_type content_type = lower (strip (before_semicolon content_type))

-- The status for a MultiPartException, by its message.
unfoldable pub multipart_status : Text → ℕ
multipart_status message =
    if text_eq message (codes "Request body too large")
    then 413
    else if text_eq message (codes "Request body stalled")
    then 408
    else 400

unfoldable pub parse_result : ParseOutcome → Result RouteError FormData
unfolding multipart_status
parse_result (parsed form) = ok form
parse_result (multipart_exception message) =
    err (http (record { status_code = multipart_status message; detail = message }))
parse_result parse_os_error = err storage_exhausted
parse_result parse_value_error = err (http (bad_request (codes "Invalid multipart body")))
parse_result parse_cancelled = err request_cancelled
parse_result (parse_raised name) = err (unexpected name)

unfoldable pub parse_transcribe_form : Text → ParseOutcome → Result RouteError FormData
unfolding media_type parse_result
parse_transcribe_form content_type outcome = do
  raise_if (not (text_eq (media_type content_type) (codes "multipart/form-data")))
      (http (bad_request (codes "multipart/form-data required")))
  parse_result outcome

abbrev pub http_result {ℓ} : {A : Type ℓ} → Result HttpException A → Result RouteError A
http_result (ok a) = ok a
http_result (err e) = err (http e)

abbrev pub spool_failure : SpoolError → RouteError
spool_failure (http_error e) = http e
spool_failure os_error = storage_exhausted
spool_failure task_cancelled = request_cancelled
spool_failure (other_error name) = unexpected name

-- The response, or an exception; and the queue.
abbrev pub Handled : Type 0
Handled = Result RouteError (Unit {0}) × TranscriptionQueue

abbrev pub upload_path : UploadRequest → FilePath
upload_path r = record { directory = r.upload_dir; name = upload_file_name }

-- What `if form is not None: await form.close()` raises.
unfoldable pub raised_by_close : Result RouteError FormData → CloseOutcome → Option RouteError
raised_by_close (err e) outcome = none
raised_by_close (ok form) closed = none
raised_by_close (ok form) close_cancelled = some request_cancelled
raised_by_close (ok form) (close_raised name) = some (unexpected name)

-- The `finally` of the handler: an exception of `form.close()` replaces what it ends with and leaves out
-- `if not response_ready: queue.cancel(job.job_id)`.
unfoldable pub finally_cancel : JobId → Option RouteError → Handled → Handled
finally_cancel id (some e) (result, q) = (err e, q)
finally_cancel id none (ok u, q) = (ok u, q)
finally_cancel id none (err e, q) = (err e, (cancel id q).0)

-- `except Exception: queue.cancel(job.job_id); raise`: CancelledError is no Exception.
unfoldable pub except_cancel : JobId → Handled → Handled
except_cancel id (ok u, q) = (ok u, q)
except_cancel id (err request_cancelled, q) = (err request_cancelled, q)
except_cancel id (err e, q) = (err e, (cancel id q).0)

unfoldable pub on_submitted : Result QueueError TranscriptionQueue → TranscriptionQueue → Handled
on_submitted (ok submitted) q = (ok tt, submitted)
on_submitted (err e) q = (err (submit_failed e), q)

unfoldable pub set_duration : JobId → Fraction → TranscriptionQueue → TranscriptionQueue
set_duration id duration q = set_job id (record (q.heap id) { audio_duration_seconds = duration }) q

unfoldable pub on_info : JobId → Result WavError HeliboardWavInfo → TranscriptionQueue → Handled
unfolding on_submitted
on_info id (err e) q = (err (bad_wav e), q)
on_info id (ok info) q =
    let timed = set_duration id info.duration_seconds q in on_submitted (submit id timed) timed

-- `job.audio_path = audio_path`, with the file and its directory that the spooling made.
unfoldable pub set_path : JobId → FilePath → TranscriptionQueue → TranscriptionQueue
set_path id p q = record (set_job id (record (q.heap id) { audio_path = some p }) q) {
  disk = record q.disk { files = p ∷ q.disk.files; dirs = p.directory ∷ q.disk.dirs };
}

abbrev pub bytes_left : Option Text → Text
bytes_left none = []
bytes_left (some contents) = contents

unfoldable pub on_spooled :
    UploadRequest → Option Text → Result SpoolError ℕ → TranscriptionQueue → Handled
unfolding on_info
on_spooled r left (err e) q = (err (spool_failure e), q)
on_spooled r left (ok total) q =
    on_info r.job_id (read_heliboard_wav_info (length (bytes_left left)) (bytes_left left))
      (set_path r.job_id (upload_path r) q)

unfoldable pub describe : JobId → Text → Option Text → TranscriptionQueue → TranscriptionQueue
describe id mime hotwords q =
    set_job id (record (q.heap id) { audio_mime = mime; hotwords = hotwords }) q

-- _transcribe_authenticated after the check of the metadata
unfoldable pub on_metadata :
    UploadRequest → Option Text → Result MetadataError Text → TranscriptionQueue → Handled
unfolding on_spooled except_cancel
on_metadata r hotwords (err e) q = (err (bad_metadata e), q)
on_metadata r hotwords (ok mime) q =
    let spooled = spool_upload r.max_audio_bytes r.opened r.reads in
    except_cancel r.job_id
      (on_spooled r spooled.left spooled.result (describe r.job_id mime hotwords q))

unfoldable pub on_form :
    UploadRequest → Result RouteError (UploadFile × Option Text) → TranscriptionQueue → Handled
unfolding on_metadata
on_form r (err e) q = (err e, q)
on_form r (ok (audio, hotwords)) q =
    on_metadata r hotwords (validate_heliboard_wav_metadata audio.filename audio.content_type) q

abbrev pub read_form : UploadRequest → Result RouteError (UploadFile × Option Text)
read_form r = do
  form ← parse_transcribe_form r.content_type r.parse_outcome
  http_result (extract_transcribe_form form)

abbrev pub close_error : UploadRequest → Option RouteError
close_error r =
    raised_by_close (parse_transcribe_form r.content_type r.parse_outcome) r.close_outcome

unfoldable pub on_reserved :
    UploadRequest → Result QueueError TranscriptionQueue → TranscriptionQueue → Handled
unfolding on_form finally_cancel raised_by_close
on_reserved r (err e) q = (err queue_is_full, q)
on_reserved r (ok reserved) q =
    finally_cancel r.job_id (close_error r) (on_form r (read_form r) reserved)

unfoldable pub transcribe : UploadRequest → TranscriptionQueue → Handled
unfolding on_reserved
transcribe r q = on_reserved r (reserve (new_job r.job_id r.client_identity r.now) q) q
