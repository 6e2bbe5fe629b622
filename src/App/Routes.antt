-- ===== src/App/Routes.antt =====
-- server/app.py with server/routes/*.py: the start of the application (`lifespan`), and a request from
-- the middleware over the routes and the client's identity to the handlers. A path and a method that no
-- route has are left to FastAPI, which calls no handler.
pub mod Authorized
pub mod Started
pub mod Served
mod Tests
use vibe_voice_vendor.Base.{
  ℕ, Bool, true, false, not, ◌&&◌, Option, none, some, List, [], ◌∷◌, Text, codes, text_eq, ◌==◌,
  if◌then◌else◌, Result, ok, err, ◌>>=◌,
}
use vibe_voice_vendor.Models.{QueueStatusResponse}
use vibe_voice_vendor.Http.{HttpException}
use vibe_voice_vendor.Disk.{Disk}
use vibe_voice_vendor.Identity.{require_client_identity}
use vibe_voice_vendor.Queue.{TranscriptionQueue, QueueError, init}
use vibe_voice_vendor.Queue.Status.{get_queue_info}
use vibe_voice_vendor.Route.{UploadRequest, RouteError, transcribe}
use vibe_voice_vendor.Settings.{AsrBackend, vibevoice, groq, Settings}
use vibe_voice_vendor.App.{Scope, http, Passage, https_required, passed_on, require_https}

pub data ProcessFn : Type 0 where
  process_groq process_vibevoice : ProcessFn

abbrev pub process_fn_of : AsrBackend → ProcessFn
process_fn_of groq = process_groq
process_fn_of vibevoice = process_vibevoice

-- `app.state`
pub record App : Type 0 where
  pub settings : Settings
  pub process_fn : ProcessFn
  pub queue : TranscriptionQueue

-- `lifespan` up to its `yield`
unfoldable pub start_app : Settings → Disk → Result QueueError App
start_app settings disk = do
  queue ← init settings.max_queue_size true disk
  ok (record {
    settings = settings;
    process_fn = process_fn_of settings.asr_backend;
    queue = queue;
  })

-- What `http_client.get` of the model server's health gave; `none` where it raises.
pub data HealthReply : Type 0 where
  healthy : AsrBackend → HealthReply
  degraded unreachable : HealthReply

unfoldable pub vllm_health : Option ℕ → HealthReply
vllm_health none = unreachable
vllm_health (some status) = if status == 200 then healthy vibevoice else degraded

unfoldable pub health : AsrBackend → Option ℕ → HealthReply
unfolding vllm_health
health groq answer = healthy groq
health vibevoice answer = vllm_health answer

unfoldable pub health_status : HealthReply → ℕ
health_status (healthy backend) = 200
health_status degraded = 503
health_status unreachable = 503

-- A request with what the upload's handler meets, of which the identity and the limit are the route's to set.
pub record Request : Type 0 where
  pub method : Text
  pub scope : Scope
  pub vllm_answer : Option ℕ
  pub upload : UploadRequest

pub data Response : Type 0 where
  https_refused no_route : Response
  refused : HttpException → Response
  health_reply : HealthReply → Response
  status_reply : QueueStatusResponse → Response
  transcribed : Result RouteError (Unit {0}) → Response

pub data Route : Type 0 where
  health_route status_route transcribe_route unknown_route : Route

-- The decorators of the handlers.
unfoldable pub route_of : Text → Text → Route
route_of method path =
    if text_eq path (codes "/health") && text_eq method (codes "GET")
    then health_route
    else if text_eq path (codes "/v1/queue/status") && text_eq method (codes "GET")
    then status_route
    else if text_eq path (codes "/v1/transcribe") && text_eq method (codes "POST")
    then transcribe_route
    else unknown_route

-- `request.headers.getlist(key)`
unfoldable pub header_values : Text → List (Text × Text) → List Text
header_values key [] = []
header_values key ((name, value) ∷ headers) =
    let rest = header_values key headers in if text_eq name key then value ∷ rest else rest

abbrev pub identity_header : Text
identity_header = codes "x-vvv-client-spki-sha256"

abbrev pub identity_of : Request → Result HttpException Text
identity_of r = require_client_identity (header_values identity_header r.scope.headers)

unfoldable pub queue_status :
    Result HttpException Text → TranscriptionQueue → Response × TranscriptionQueue
queue_status (err e) q = (refused e, q)
queue_status (ok identity) q = (status_reply (get_queue_info identity q), q)

abbrev pub as_response :
    Result RouteError (Unit {0}) × TranscriptionQueue → Response × TranscriptionQueue
as_response (result, q) = (transcribed result, q)

-- The request of a client to the application, as the handler has it.
abbrev pub upload_of : App → Text → UploadRequest → UploadRequest
upload_of app identity upload = record upload {
  client_identity = identity;
  max_audio_bytes = app.settings.max_audio_bytes;
}

unfoldable pub on_transcribe :
    Result HttpException Text → UploadRequest → App → Response × TranscriptionQueue
on_transcribe (err e) upload app = (refused e, app.queue)
on_transcribe (ok identity) upload app =
    as_response (transcribe (upload_of app identity upload) app.queue)

unfoldable pub dispatch : Route → App → Request → Response × TranscriptionQueue
unfolding queue_status on_transcribe
dispatch health_route app r =
    (health_reply (health app.settings.asr_backend r.vllm_answer), app.queue)
dispatch status_route app r = queue_status (identity_of r) app.queue
dispatch transcribe_route app r = on_transcribe (identity_of r) r.upload app
dispatch unknown_route app r = (no_route, app.queue)

unfoldable pub on_passage : Passage → App → Request → Response × TranscriptionQueue
unfolding dispatch
on_passage https_required app r = (https_refused, app.queue)
on_passage passed_on app r = dispatch (route_of r.method r.scope.path) app r

-- The application on an HTTP request: what it answers, and its queue.
unfoldable pub handle : App → Request → Response × TranscriptionQueue
unfolding on_passage
handle app r = on_passage (require_https r.scope) app r
