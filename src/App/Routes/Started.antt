-- ===== src/App/Routes/Started.antt =====
-- From the command line to the application that takes uploads.
use vibe_voice_vendor.Base.{ℕ, ◌≡◌, refl, ap, ◌∙◌, true, false, [], Text, ◌≤◌, leb, arith, ok}
use vibe_voice_vendor.Models.{JobId}
use vibe_voice_vendor.Keys.{put_key}
use vibe_voice_vendor.Disk.{Disk}
use vibe_voice_vendor.Queue.{
  TranscriptionQueue, waiting, set_job, init, new_job, count_active, reserve,
}
use vibe_voice_vendor.Settings.{Options, Settings, configure}
use vibe_voice_vendor.Settings.Configured.{configure-ok_iff}
use vibe_voice_vendor.App.Routes.{App, process_fn_of, start_app}

-- An application without jobs, which has room for one.
pub record IsStarted (o : Options) (settings : Settings) (disk : Disk) : Type 0 where
  pub app : App
  pub started : start_app settings disk ≡ ok app
  pub same_settings : app.settings ≡ settings
  pub chosen : app.process_fn ≡ process_fn_of o.asr_backend
  pub is_set : app.queue.process_fn_set ≡ true
  pub no_jobs : app.queue.jobs ≡ []
  pub takes_first :
      (id : JobId) (client : Text) (now : ℕ)
      → (q : TranscriptionQueue) × (reserve (new_job id client now) app.queue ≡ ok q)

abbrev first_queue : Settings → Disk → TranscriptionQueue
first_queue settings disk = record {
  max_size = settings.max_queue_size;
  pending = [];
  jobs = [];
  processing_times = [];
  worker = waiting;
  process_fn_set = true;
  cleanup_tasks = [];
  heap = λ k. new_job k [] 0;
  disk = disk;
}

first_reserved :
    (settings : Settings) (disk : Disk) (id : JobId) (client : Text) (now : ℕ)
    → leb 1 settings.max_queue_size ≡ true
    → reserve (new_job id client now) (first_queue settings disk)
      ≡ ok (record (set_job id (new_job id client now) (first_queue settings disk)) {
        jobs = put_key id [];
      })
unfolding reserve count_active new_job
first_reserved settings disk id client now room =
    let free : leb settings.max_queue_size 0 ≡ false = ground arith in rw free refl

start_app-IsStarted :
    (o : Options) (settings : Settings) (disk : Disk)
    → settings.asr_backend ≡ o.asr_backend
    → leb 1 settings.max_queue_size ≡ true
    → IsStarted o settings disk
unfolding start_app init
start_app-IsStarted o settings disk same room = record {
  app = record {
    settings = settings;
    process_fn = process_fn_of settings.asr_backend;
    queue = first_queue settings disk;
  };
  started = rw room refl;
  same_settings = refl;
  chosen = ap process_fn_of same;
  is_set = refl;
  no_jobs = refl;
  takes_first = λ id client now. (_, first_reserved settings disk id client now room);
}

room_given : (n : ℕ) → 1 ≤ n → leb 1 n ≡ true
room_given n h = ground arith

-- With options that the server starts with, the application comes up: it has the settings as they were
-- given and the process function of the backend that was chosen, no jobs, and room for the first one.
pub configure-IsStarted :
    (o : Options) (settings : Settings) (disk : Disk)
    → configure o ≡ ok settings
    → IsStarted o settings disk
configure-IsStarted o settings disk h =
    let w = (configure-ok_iff o settings).0 h in
    start_app-IsStarted o settings disk w.same_backend
      (ap (leb 1) w.same_queue_size ∙ room_given w.queue_size w.some_room)
