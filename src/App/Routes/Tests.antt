-- ===== src/App/Routes/Tests.antt =====
-- A request behind the proxy, and the theorems of App at it.
use vibe_voice_vendor.Base.{◌≡◌, refl, some, [], ◌∷◌, Text, codes, text_eq, List, false, finite}
use vibe_voice_vendor.Settings.{vibevoice}
use vibe_voice_vendor.Route.Tests.{empty_queue, recording, request_of}
use vibe_voice_vendor.Form.Tests.{identity}
use vibe_voice_vendor.Keys.{mem}
use vibe_voice_vendor.Disk.{has_file}
use vibe_voice_vendor.Queue.{init}
use vibe_voice_vendor.Queue.Events.{takes}
use vibe_voice_vendor.App.Routes.Served.{
  Happening, requested, happened, serve, IsSound, serve-IsSound,
}
use vibe_voice_vendor.App.{Scope, http, require_https}
use vibe_voice_vendor.App.Routes.{
  App, process_vibevoice, healthy, health, Request, https_refused, no_route, health_reply,
  identity_header, route_of, start_app, handle,
}
use vibe_voice_vendor.App.Routes.Authorized.{IsHandled, handle-IsHandled}

abbrev app : App
app = record {
  settings = record {
    asr_backend = vibevoice;
    max_audio_bytes = 46;
    max_queue_size = 1;
    vllm_base_url = codes "http://localhost:8000";
    vllm_model_name = codes "vibevoice";
    vllm_temperature = finite false (record { num = 0; den = 1 });
    vllm_top_p = finite false (record { num = 1; den = 1 });
    groq_api_key = [];
    groq_model_name = [];
  };
  process_fn = process_vibevoice;
  queue = empty_queue;
}

abbrev proxied : Scope
proxied = record {
  scope_type = http;
  path = codes "/v1/transcribe";
  headers = (identity_header, identity) ∷ (codes "x-forwarded-proto", codes "HTTPS") ∷ [];
}

abbrev request : Request
request = record {
  method = codes "POST";
  scope = proxied;
  vllm_answer = some 200;
  upload = request_of recording;
}

abbrev unproxied : Text → Scope
unproxied path = record { scope_type = http; path = path; headers = [] }

unproxied_requests :
    (handle app (record request { scope = unproxied (codes "/v1/transcribe") })
      ≡ (https_refused, empty_queue))
    × (handle app (record request { method = codes "GET"; scope = unproxied (codes "/health") })
        ≡ (health_reply (healthy vibevoice), empty_queue))
    × (handle app (record request { scope = unproxied (codes "/health") })
        ≡ (no_route, empty_queue))
unfolding handle text_eq require_https route_of health
unproxied_requests = (refl, refl, refl)

handle-IsHandled_example : IsHandled app request (handle app request)
handle-IsHandled_example = handle-IsHandled app request refl

-- An upload, and the worker that takes its job.
abbrev happenings : List Happening
happenings = requested request ∷ happened (takes 5) ∷ []

serve-IsSound_example : IsSound 1 (serve happenings app).queue
unfolding start_app init mem has_file
serve-IsSound_example =
    serve-IsSound app.settings (record { files = []; dirs = [] }) app happenings refl
      ((refl, refl), (tt, tt))
