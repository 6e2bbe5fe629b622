-- ===== src/Route/Tests.antt =====
-- Whole requests, and the theorems of Route at one.
use vibe_voice_vendor.Base.{
  ◌≡◌, refl, ◌⊎◌, true, false, some, [], ◌∷◌, ◌++◌, Text, codes, text_eq, leb, ok, strip, lstrip,
  rstrip, err, starts_with,
}
use vibe_voice_vendor.Models.{uploading, queued, cancelled}
use vibe_voice_vendor.Keys.{mem, put_key}
use vibe_voice_vendor.Disk.{
  has_file, discard_file, unlink, rmdir, is_upload_path, without_file, without_dir, is_empty_dir,
}
use vibe_voice_vendor.Struct.{pack, unpack, from_le, to_le}
use vibe_voice_vendor.Wav.{read_heliboard_wav_info, check_header}
use vibe_voice_vendor.Wav.Metadata.{validate_heliboard_wav_metadata, path_name, suffix}
use vibe_voice_vendor.Wav.Container.{canonical_header}
use vibe_voice_vendor.Form.{UploadFile, extract_transcribe_form, has_control_token}
use vibe_voice_vendor.Form.Fields.{audio_field}
use vibe_voice_vendor.Upload.{read_chunk, spool_upload, spool_from, finish_spool}
use vibe_voice_vendor.Queue.{
  TranscriptionQueue, waiting, new_job, active_count, count_active, reserve, submit, enter, cancel,
  wind_up, discard_audio, discard_from, notify_terminal, schedule_cleanup, cancel_task,
}
use vibe_voice_vendor.Route.{
  parsed, closed, close_cancelled, request_cancelled, close_error, raised_by_close, queue_is_full,
  UploadRequest, finally_cancel, except_cancel, on_submitted, set_duration, on_info, set_path,
  on_spooled, describe, on_metadata, on_form, on_reserved, transcribe, media_type, before_semicolon,
  multipart_status, parse_result, parse_transcribe_form,
}
use vibe_voice_vendor.Route.Outcome.{Finished, transcribe-Answered}

requests : Unit {0}
unfolding transcribe on_reserved on_form on_metadata describe on_spooled set_path on_info
    set_duration on_submitted except_cancel finally_cancel raised_by_close parse_transcribe_form
    parse_result multipart_status media_type before_semicolon strip rstrip lstrip text_eq
    starts_with mem put_key has_file extract_transcribe_form has_control_token spool_upload
    spool_from finish_spool reserve submit enter new_job count_active read_heliboard_wav_info
    check_header unpack pack from_le to_le canonical_header validate_heliboard_wav_metadata
    path_name suffix cancel wind_up discard_audio discard_from notify_terminal schedule_cleanup
    cancel_task discard_file unlink rmdir is_upload_path without_file without_dir is_empty_dir
requests = tt

abbrev pub empty_queue : TranscriptionQueue
empty_queue = record {
  max_size = 1;
  pending = [];
  jobs = [];
  processing_times = [];
  worker = waiting;
  process_fn_set = true;
  cleanup_tasks = [];
  heap = λ k. new_job k [] 0;
  disk = record { files = []; dirs = [] };
}

abbrev pub recording : Text
recording = canonical_header 2 ++ 1 ∷ 255 ∷ []

abbrev pub upload : UploadFile
upload = record {
  filename = some (codes "a.wav");
  content_type = some (codes "audio/wav");
  contents = recording;
}

abbrev pub request_of : Text → UploadRequest
request_of contents = record {
  client_identity = codes "me";
  job_id = 7;
  now = 3;
  content_type = codes "Multipart/Form-Data ; boundary=x";
  max_audio_bytes = 46;
  parse_outcome = parsed (audio_field upload ∷ []);
  close_outcome = closed;
  upload_dir = codes "/tmp/vvv-upload-1";
  opened = true;
  reads = read_chunk contents ∷ read_chunk [] ∷ [];
}

-- A recording is queued; a file that is none is refused, and its file and directory are gone.
answers :
    ((transcribe (request_of recording) empty_queue).0 ≡ ok tt)
    × ((transcribe (request_of recording) empty_queue).1.pending ≡ 7 ∷ [])
    × (((transcribe (request_of recording) empty_queue).1.heap 7).status ≡ queued)
    × ((transcribe (request_of (codes "RIFX" ++ recording)) empty_queue).1.disk.files ≡ [])
    × ((transcribe (request_of (0 ∷ [])) empty_queue).1.disk.dirs ≡ [])
    × (((transcribe (request_of (0 ∷ [])) empty_queue).1.heap 7).status ≡ cancelled)
unfolding requests
answers = (refl, refl, refl, refl, refl, refl)

transcribe-Answered_example :
    ((leb 1 (active_count empty_queue) ≡ true)
      × (transcribe (request_of recording) empty_queue ≡ (err queue_is_full, empty_queue)))
    ⊎ ((leb 1 (active_count empty_queue) ≡ false)
        × Finished
            (request_of recording)
            empty_queue
            (close_error (request_of recording))
            (transcribe (request_of recording) empty_queue).0
            (transcribe (request_of recording) empty_queue).1)
unfolding mem has_file
transcribe-Answered_example =
    transcribe-Answered (request_of recording) empty_queue
      (record { new_id = refl; new_path = refl })

-- A form without the suffix, whose `close` is cancelled: the job keeps its place in the queue.
abbrev closing_cancelled : UploadRequest
closing_cancelled = record (request_of recording) {
  parse_outcome = parsed (audio_field (record upload { filename = some (codes "a.mp3") }) ∷ []);
  close_outcome = close_cancelled;
}

place_kept :
    ((transcribe closing_cancelled empty_queue).0 ≡ err request_cancelled)
    × (((transcribe closing_cancelled empty_queue).1.heap 7).status ≡ uploading)
    × (active_count (transcribe closing_cancelled empty_queue).1 ≡ 1)
unfolding requests
place_kept = (refl, refl, refl)
