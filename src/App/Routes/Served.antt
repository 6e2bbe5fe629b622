-- ===== src/App/Routes/Served.antt =====
-- The running server: requests, each from its arrival to its answer, and between them the other pieces of
-- code that the event loop runs.
use vibe_voice_vendor.Base.{
  ℕ, ◌≤◌, ◌≡◌, refl, sym, subst, true, false, List, [], ◌∷◌, Text, Result, ok, err, ◌>>=◌, arith,
}
use vibe_voice_vendor.Models.{JobId}
use vibe_voice_vendor.Http.{HttpException}
use vibe_voice_vendor.Keys.{mem}
use vibe_voice_vendor.Disk.{Disk, has_file}
use vibe_voice_vendor.Queue.{TranscriptionQueue, QueueError, active_count, init}
use vibe_voice_vendor.Queue.Events.{Event, is_fresh, react, run}
use vibe_voice_vendor.Queue.Events.Reachable
use vibe_voice_vendor.Queue.Events.Reachable.{Accounted, IsClosed, IsServed, IsTerminal}
use vibe_voice_vendor.Route.{upload_path}
use vibe_voice_vendor.Route.History.{
  Follows, Follows-self, Follows-event, Follows-trans, transcribe-Follows,
}
use vibe_voice_vendor.Settings.{Settings}
use vibe_voice_vendor.App.{Passage, https_required, passed_on, require_https}
use vibe_voice_vendor.App.Routes.{
  App, process_fn_of, start_app, Request, Route, health_route, status_route, transcribe_route,
  unknown_route, route_of, identity_of, upload_of, queue_status, on_transcribe, dispatch,
  on_passage, handle,
}

pub data Happening : Type 0 where
  requested : Request → Happening
  happened : Event → Happening

abbrev pub serve_one : Happening → App → App
serve_one (requested r) app = record app { queue = (handle app r).1 }
serve_one (happened e) app = record app { queue = react e app.queue }

abbrev pub serve : List Happening → App → App
serve [] app = app
serve (h ∷ hs) app = serve hs (serve_one h app)

-- `uuid4` gives an id, and `mkdtemp` a directory, that is in use nowhere.
abbrev pub IsNew : Happening → App → Type 0
IsNew (requested r) app =
    (is_fresh r.upload.job_id app.queue ≡ true)
    × (has_file (upload_path r.upload) app.queue.disk.files ≡ false)
IsNew (happened e) app = Unit {0}

abbrev pub AllNew : List Happening → App → Type 0
AllNew [] app = Unit {0}
AllNew (h ∷ hs) app = IsNew h app × AllNew hs (serve_one h app)

module _ (app : App) (r : Request) where
  queue_status-Follows :
      (known : Result HttpException Text) → Follows app.queue (queue_status known app.queue).1
  unfolding queue_status
  queue_status-Follows (err e) = Follows-self app.queue
  queue_status-Follows (ok identity) = Follows-self app.queue

  on_transcribe-Follows :
      (known : Result HttpException Text)
      → IsNew (requested r) app
      → Follows app.queue (on_transcribe known r.upload app).1
  unfolding on_transcribe
  on_transcribe-Follows (err e) new = Follows-self app.queue
  on_transcribe-Follows (ok identity) new =
      transcribe-Follows (upload_of app identity r.upload) app.queue new.0 new.1

  dispatch-Follows :
      (route : Route) → IsNew (requested r) app → Follows app.queue (dispatch route app r).1
  unfolding dispatch
  dispatch-Follows health_route new = Follows-self app.queue
  dispatch-Follows status_route new = queue_status-Follows (identity_of r)
  dispatch-Follows transcribe_route new = on_transcribe-Follows (identity_of r) new
  dispatch-Follows unknown_route new = Follows-self app.queue

  on_passage-Follows :
      (passage : Passage) → IsNew (requested r) app → Follows app.queue (on_passage passage app r).1
  unfolding on_passage
  on_passage-Follows https_required new = Follows-self app.queue
  on_passage-Follows passed_on new = dispatch-Follows (route_of r.method r.scope.path) new

serve_one-Follows :
    (h : Happening) (app : App) → IsNew h app → Follows app.queue (serve_one h app).queue
unfolding handle
serve_one-Follows (requested r) app new = on_passage-Follows app r (require_https r.scope) new
serve_one-Follows (happened e) app new = Follows-event e app.queue (react e app.queue) refl

serve-Follows :
    (hs : List Happening) (app : App) → AllNew hs app → Follows app.queue (serve hs app).queue
serve-Follows [] app new = Follows-self app.queue
serve-Follows (h ∷ hs) app new =
    Follows-trans app.queue (serve_one h app).queue (serve hs (serve_one h app)).queue
      (serve_one-Follows h app new.0) (serve-Follows hs (serve_one h app) new.1)

started_by_init :
    (settings : Settings) (first : Result QueueError TranscriptionQueue) (app : App)
    → (do
      queue ← first
      ok (record {
        settings = settings;
        process_fn = process_fn_of settings.asr_backend;
        queue = queue;
      }))
      ≡ ok app
    → first ≡ ok app.queue
started_by_init settings (ok q) app h = ground arith
started_by_init settings (err e) app h = ground arith

-- What the queue of a running server is like.
pub record IsSound (max_size : ℕ) (q : TranscriptionQueue) : Type 0 where
  pub bounded : active_count q ≤ max_size
  pub accounted : (j : JobId) → mem j q.jobs ≡ true → Accounted q j
  pub one_served : (i j : JobId) → IsServed (q.heap i).status → IsServed (q.heap j).status → i ≡ j
  pub closed : (j : JobId) → IsTerminal (q.heap j).status → IsClosed (q.heap j)

run-IsSound :
    (max_size : ℕ) (disk : Disk) (q : TranscriptionQueue)
    → init max_size true disk ≡ ok q
    → (es : List Event) → IsSound max_size (run es q)
run-IsSound max_size disk q start es = record {
  bounded = Reachable.active_count-le-max_size max_size true disk q start es;
  accounted = Reachable.listed-Accounted max_size true disk q start es;
  one_served = Reachable.served_unique max_size true disk q start es;
  closed = Reachable.terminal-IsClosed max_size true disk q start es;
}

-- From the start of the application on, whatever requests come, over whatever way and from whomever, and
-- whatever pieces of the worker, the jobs' tasks, the cleanup tasks and `stop` run before, between and after
-- them: at most as many jobs are active as the settings allow, at most one of them is processing or
-- streaming, a listed job is not forgotten, and a terminal job has had its sentinel, once and last, and has
-- no `audio_path`. It is assumed that each request has an id and an upload directory that are in use nowhere.
pub serve-IsSound :
    (settings : Settings) (disk : Disk) (app : App) (hs : List Happening)
    → start_app settings disk ≡ ok app
    → AllNew hs app
    → IsSound settings.max_queue_size (serve hs app).queue
unfolding start_app
serve-IsSound settings disk app hs start new =
    let (es, e) = serve-Follows hs app new in
    subst (IsSound settings.max_queue_size) (sym e) (
      run-IsSound settings.max_queue_size disk app.queue
        (started_by_init settings (init settings.max_queue_size true disk) app start) es)
