-- ===== src/Upload.antt =====
-- server/routes/transcribe.py: the two loops that take the upload in. `_limited_request_stream`
-- passes the chunks of the request's body on to the multipart parser, and `_spool_upload` copies the
-- file field to a file in a directory of its own. What the event loop and the file system answer is
-- a list of what each round met; after the list, the source is at its end.
pub mod Limit
pub mod Spool
pub mod Tests
use vibe_voice_vendor.Base.{
  ℕ, ◌+◌, Bool, true, false, Option, none, some, List, [], ◌∷◌, ◌++◌, length, Text, codes, text_eq,
  ◌==◌, ltb, if◌then◌else◌, Result, ok, err,
}
use vibe_voice_vendor.Http.{HttpException}

-- One `await asyncio.wait_for(anext(stream_iter), ...)`: a chunk, a timeout, or an exception of the
-- stream itself, which has a name and passes through.
pub data Arrival : Type 0 where
  arrived : Text → Arrival
  timed_out : Arrival
  stream_raised : Text → Arrival

-- How the generator ended: MultiPartException with its message, or the stream's exception.
pub data StreamError : Type 0 where
  multipart_error : Text → StreamError
  stream_error : Text → StreamError

pub record Body : Type 0 where
  pub yielded : List Text
  pub ended : Result StreamError (Unit {0})

abbrev pub body_stalled : StreamError
body_stalled = multipart_error (codes "Request body stalled")

abbrev pub body_too_large : StreamError
body_too_large = multipart_error (codes "Request body too large")

-- The loop of _limited_request_stream, with the bytes counted before.
unfoldable pub limited_from : ℕ → ℕ → List Arrival → Body
limited_from max_body_bytes total [] = record { yielded = []; ended = ok tt }
limited_from max_body_bytes total (timed_out ∷ more) = record {
  yielded = [];
  ended = err body_stalled;
}
limited_from max_body_bytes total (stream_raised name ∷ more) = record {
  yielded = [];
  ended = err (stream_error name);
}
limited_from max_body_bytes total (arrived chunk ∷ more) =
    let rest = limited_from max_body_bytes (total + length chunk) more in
    if ltb max_body_bytes (total + length chunk)
    then record { yielded = []; ended = err body_too_large }
    else record { yielded = chunk ∷ rest.yielded; ended = rest.ended }

abbrev pub limited_request_stream : ℕ → List Arrival → Body
limited_request_stream max_body_bytes arrivals = limited_from max_body_bytes 0 arrivals

-- One round of `_spool_upload`: `upload.read` returned a chunk, which is written unless `out.write`
-- raises OSError; or it raised.
pub data Read : Type 0 where
  read_chunk write_failed : Text → Read
  read_os_error read_cancelled : Read
  read_raised : Text → Read

pub data SpoolError : Type 0 where
  http_error : HttpException → SpoolError
  os_error task_cancelled : SpoolError
  other_error : Text → SpoolError

abbrev pub audio_too_large : SpoolError
audio_too_large = http_error (record { status_code = 413; detail = codes "Audio file too large" })

abbrev pub empty_audio : SpoolError
empty_audio = http_error (record { status_code = 400; detail = codes "Empty audio file" })

-- The loop, with what was written so far and its length: what the file holds at its end.
unfoldable pub spool_from : ℕ → Text → ℕ → List Read → Result SpoolError (Text × ℕ)
spool_from max_audio_bytes written total [] = ok (written, total)
spool_from max_audio_bytes written total (read_os_error ∷ more) = err os_error
spool_from max_audio_bytes written total (read_cancelled ∷ more) = err task_cancelled
spool_from max_audio_bytes written total (read_raised name ∷ more) = err (other_error name)
spool_from max_audio_bytes written total (write_failed [] ∷ more) = ok (written, total)
spool_from max_audio_bytes written total (write_failed (c ∷ cs) ∷ more) =
    if ltb max_audio_bytes (total + length (c ∷ cs)) then err audio_too_large else err os_error
spool_from max_audio_bytes written total (read_chunk [] ∷ more) = ok (written, total)
spool_from max_audio_bytes written total (read_chunk (c ∷ cs) ∷ more) =
    let rest = spool_from max_audio_bytes (written ++ c ∷ cs) (total + length (c ∷ cs)) more in
    if ltb max_audio_bytes (total + length (c ∷ cs)) then err audio_too_large else rest

-- The upload's directory after `_spool_upload`: gone, or there with the bytes of its one file.
pub record Spooled : Type 0 where
  pub left : Option Text
  pub result : Result SpoolError ℕ

unfoldable pub finish_spool : Result SpoolError (Text × ℕ) → Spooled
finish_spool (err e) = record { left = none; result = err e }
finish_spool (ok (written, total)) =
    if total == 0
    then record { left = none; result = err empty_audio }
    else record { left = some written; result = ok total }

-- The whole function. `opened` tells whether `os.open` succeeded; `rmtree` removes the directory.
unfoldable pub spool_upload : ℕ → Bool → List Read → Spooled
unfolding finish_spool
spool_upload max_audio_bytes false reads = record { left = none; result = err os_error }
spool_upload max_audio_bytes true reads = finish_spool (spool_from max_audio_bytes [] 0 reads)
