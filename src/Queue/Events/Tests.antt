-- ===== src/Queue/Events/Tests.antt =====
-- Histories of a queue of two places, and the queue's theorems at them.
use vibe_voice_vendor.Base.{
  ◌+◌, ◌≤◌, ◌≡◌, refl, ◌⊎◌, inl, true, false, ◌&&◌, none, some, List, [], ◌∷◌, ◌++◌, codes, text_eq,
  starts_with, if◌then◌else◌, ok,
}
use vibe_voice_vendor.Models.{JobId, queued, completed, failed, cancelled, is_queued, is_terminal}
use vibe_voice_vendor.Keys.{mem, put_key, remove_key, distinct}
use vibe_voice_vendor.Wav.Metadata.{path_name}
use vibe_voice_vendor.Disk.{
  FilePath, Disk, discard_file, has_file, without_file, without_dir, is_empty_dir, is_upload_path,
}
use vibe_voice_vendor.Queue.{
  returned, interrupted, TranscriptionQueue, waiting, init, new_job, count_active, active_count,
  reserve, submit, enter, cancel, cancel_task, mark_cancelled, wind_up, discard_audio, discard_from,
  notify_terminal, schedule_cleanup, cleanup_job, job_cancelled,
}
use vibe_voice_vendor.Queue.Status.{get_position, count_queued}
use vibe_voice_vendor.Queue.Status.Positions.{before, get_position-eq-rank}
use vibe_voice_vendor.Queue.Worker.{
  take, take_from, take_entry, start_job, resume, settle, times_after, record_time,
}
use vibe_voice_vendor.Queue.Events.{
  Event, arrives, spools, submits, cancels, takes, resumes, streams, emits, ends, stops, react, run,
  resume_worker, resume_task, stop_worker,
}
use vibe_voice_vendor.Queue.Events.JobOk.{all_chunks, ends_once}
use vibe_voice_vendor.Queue.Events.Reachable
use vibe_voice_vendor.Queue.Events.Cancel.{
  cancel-outcome, can_cancel, HasCancelled, resume-HasResumed, HasResumed,
}
use vibe_voice_vendor.Queue.Events.Order.{line-run, submitted, taken}
use vibe_voice_vendor.Queue.Events.Progress
use vibe_voice_vendor.Queue.Events.Races.{late_cancel_fails, stop_swallowed}

evaluation : Unit {0}
unfolding run react reserve new_job submit enter cancel cancel_task mark_cancelled wind_up
    discard_audio discard_from notify_terminal schedule_cleanup cleanup_job resume_worker
    resume_task stop_worker take take_from take_entry start_job resume settle times_after
    record_time mem put_key remove_key distinct count_active discard_file without_file without_dir
    is_empty_dir is_upload_path has_file get_position count_queued before init all_chunks ends_once
    path_name text_eq starts_with
evaluation = tt

abbrev no_disk : Disk
no_disk = record { files = []; dirs = [] }

abbrev empty_queue : TranscriptionQueue
empty_queue = record {
  max_size = 2;
  pending = [];
  jobs = [];
  processing_times = [];
  worker = waiting;
  process_fn_set = true;
  cleanup_tasks = [];
  heap = λ k. new_job k [] 0;
  disk = no_disk;
}

empty_queue-init : init 2 true no_disk ≡ ok empty_queue
unfolding init
empty_queue-init = refl

abbrev upload : FilePath
upload = record { directory = codes "/tmp/vvv-upload-a"; name = codes "audio.audio" }

-- Job 7 is reserved first and job 8 is submitted first; a third upload finds the queue full.
abbrev two_jobs : List Event
two_jobs =
    arrives 7 (codes "ann") 0
    ∷ arrives 8 (codes "bob") 1
    ∷ arrives 9 (codes "cy") 2
    ∷ spools 8 upload (record { num = 32000; den = 32000 })
    ∷ submits 8
    ∷ submits 7
    ∷ []

abbrev pub lined_up : TranscriptionQueue
lined_up = run two_jobs empty_queue

lined_up_places :
    (lined_up.jobs ≡ 7 ∷ 8 ∷ [])
    × (lined_up.pending ≡ 8 ∷ 7 ∷ [])
    × (get_position 7 lined_up ≡ some 1)
    × (get_position 8 lined_up ≡ some 2)
    × (active_count lined_up ≡ 2)
unfolding evaluation
lined_up_places = (refl, refl, refl, refl, refl)

-- Job 8 is served, streams a chunk and returns.
abbrev served : List Event
served = takes 10 ∷ streams 8 ∷ emits 8 (codes "hi") ∷ ends 8 returned ∷ []

abbrev returned_job : TranscriptionQueue
returned_job = run (two_jobs ++ served) empty_queue

abbrev finished : TranscriptionQueue
finished = run (two_jobs ++ served ++ resumes 15 ∷ []) empty_queue

finished_job :
    ((finished.heap 8).status ≡ completed)
    × (finished.processing_times ≡ 5 ∷ [])
    × ((finished.heap 8).chunk_queue ≡ some (codes "hi") ∷ none ∷ [])
    × (finished.disk.files ≡ [])
    × (finished.cleanup_tasks ≡ 8 ∷ [])
    × (active_count finished ≡ 1)
unfolding evaluation
finished_job = (refl, refl, refl, refl, refl, refl)

active_count-le-max_size_example : active_count lined_up ≤ 2
active_count-le-max_size_example =
    Reachable.active_count-le-max_size 2 true no_disk empty_queue empty_queue-init two_jobs

listed-Accounted_example : Reachable.Accounted lined_up 8
unfolding evaluation
listed-Accounted_example =
    Reachable.listed-Accounted 2 true no_disk empty_queue empty_queue-init two_jobs 8 refl

terminal-IsClosed_example : Reachable.IsClosed (finished.heap 8)
unfolding evaluation
terminal-IsClosed_example =
    Reachable.terminal-IsClosed 2 true no_disk empty_queue empty_queue-init
      (two_jobs ++ served ++ resumes 15 ∷ []) 8 (inl refl)

live-all_chunks_example : all_chunks (returned_job.heap 8).chunk_queue ≡ true
unfolding evaluation
live-all_chunks_example =
    Reachable.live-all_chunks 2 true no_disk empty_queue empty_queue-init (two_jobs ++ served) 8
      refl

cancel-outcome_example :
    ((can_cancel 8 lined_up ≡ false) × (cancel 8 lined_up ≡ (lined_up, false)))
    ⊎ ((can_cancel 8 lined_up ≡ true) × HasCancelled 8 lined_up)
cancel-outcome_example = cancel-outcome 8 lined_up

resume-HasResumed_example : HasResumed 8 10 15 returned returned_job
resume-HasResumed_example = resume-HasResumed 8 10 15 returned returned_job

line-run_example :
    empty_queue.pending ++ submitted (two_jobs ++ served) empty_queue
    ≡ taken (two_jobs ++ served) empty_queue ++ returned_job.pending
line-run_example = line-run (two_jobs ++ served) empty_queue

get_position-eq-rank_example : get_position 8 lined_up ≡ (
    if mem 8 lined_up.jobs && is_queued (lined_up.heap 8).status
    then some (count_queued lined_up.heap (before 8 lined_up.jobs) + 1)
    else none)
unfolding evaluation
get_position-eq-rank_example = get_position-eq-rank 8 lined_up refl

late_cancel_fails_example :
    let c = react (cancels 8) returned_job in
    let r = react (resumes 15) c in
    ((c.heap 8).status ≡ cancelled)
    × ((r.heap 8).status ≡ failed)
    × ((r.heap 8).error_message ≡ some job_cancelled)
unfolding evaluation
late_cancel_fails_example = late_cancel_fails 8 10 15 returned_job refl refl refl

abbrev unwinding : TranscriptionQueue
unwinding = run (two_jobs ++ takes 10 ∷ cancels 8 ∷ []) empty_queue

stop_swallowed_example :
    (run (stops ∷ ends 8 interrupted ∷ resumes 15 ∷ []) unwinding).worker ≡ waiting
unfolding evaluation
stop_swallowed_example = stop_swallowed 8 10 15 unwinding refl refl refl

-- The two jobs are worked off.
queued-is_terminal_example :
    let line = run two_jobs empty_queue in
    let after = run (Progress.drain (λ k. returned) 20 line.pending) line in
    (after.pending ≡ [])
    × (after.worker ≡ waiting)
    × ((j : JobId)
        → mem j line.jobs ≡ true
        → (line.heap j).status ≡ queued
        → is_terminal (after.heap j).status ≡ true)
queued-is_terminal_example =
    Progress.queued-is_terminal 2 no_disk empty_queue empty_queue-init two_jobs (λ k. returned) 20
      (λ k h. cc) (unfold evaluation in refl)
