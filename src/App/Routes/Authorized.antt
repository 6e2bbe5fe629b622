-- ===== src/App/Routes/Authorized.antt =====
-- Which requests reach the jobs.
use vibe_voice_vendor.Base.{
  ◌≡◌, ◌≢◌, ◌⊎◌, inl, inr, refl, sym, ap, ◌∙◌, none, some, [], ◌∷◌, length, Text, codes, text_eq,
  arith, Result, ok, err, All,
}
use vibe_voice_vendor.Http.{HttpException}
use vibe_voice_vendor.Identity.{IsLowerHex, require_client_identity-eq-ok_iff}
use vibe_voice_vendor.Queue.{TranscriptionQueue}
use vibe_voice_vendor.Queue.Status.{get_queue_info}
use vibe_voice_vendor.Route.{transcribe}
use vibe_voice_vendor.App.{
  http, Passage, https_required, passed_on, last_header, lower, require_https,
  require_https-passed_on_iff,
}
use vibe_voice_vendor.App.Routes.{
  App, Request, Response, status_reply, transcribed, Route, health_route, status_route,
  transcribe_route, unknown_route, route_of, header_values, identity_header, identity_of, upload_of,
  as_response, queue_status, on_transcribe, dispatch, on_passage, handle,
}

-- The request came over HTTPS, from the one client that the proxy names.
pub record IsAuthorized (r : Request) (identity : Text) : Type 0 where
  pub proto : Text
  pub has_proto : last_header (codes "x-forwarded-proto") none r.scope.headers ≡ some proto
  pub is_https : lower proto ≡ codes "https"
  pub one_identity : header_values identity_header r.scope.headers ≡ identity ∷ []
  pub sized : length identity ≡ 64
  pub is_hex : All IsLowerHex identity

-- The response says nothing of any job.
abbrev pub TellsNothing : Response → Type 0
TellsNothing (status_reply jobs) = ⊥
TellsNothing (transcribed result) = ⊥
TellsNothing response = Unit {0}

record IsServed (app : App) (r : Request) (route : Route) (out : Response × TranscriptionQueue)
    : Type 0 where
  identity : Text
  known : identity_of r ≡ ok identity
  reached : (route ≡ status_route) ⊎ (route ≡ transcribe_route)
  answer :
      (out ≡ (status_reply (get_queue_info identity app.queue), app.queue))
      ⊎ (out ≡ as_response (transcribe (upload_of app identity r.upload) app.queue))

-- The queue is as it was and nothing is told of it, or an identified client is served.
abbrev Guarded : App → Request → Route → Response × TranscriptionQueue → Type 0
Guarded app r route out = ((out.1 ≡ app.queue) × TellsNothing out.0) ⊎ IsServed app r route out

queue_status-Guarded :
    (app : App) (r : Request) (known : Result HttpException Text)
    → identity_of r ≡ known
    → Guarded app r status_route (queue_status known app.queue)
unfolding queue_status
queue_status-Guarded app r (err e) h = inl (refl, tt)
queue_status-Guarded app r (ok identity) h =
    inr (record { identity = identity; known = h; reached = inl refl; answer = inl refl })

on_transcribe-Guarded :
    (app : App) (r : Request) (known : Result HttpException Text)
    → identity_of r ≡ known
    → Guarded app r transcribe_route (on_transcribe known r.upload app)
unfolding on_transcribe
on_transcribe-Guarded app r (err e) h = inl (refl, tt)
on_transcribe-Guarded app r (ok identity) h =
    inr (record { identity = identity; known = h; reached = inr refl; answer = inr refl })

dispatch-Guarded :
    (app : App) (r : Request) (route : Route) → Guarded app r route (dispatch route app r)
unfolding dispatch
dispatch-Guarded app r health_route = inl (refl, tt)
dispatch-Guarded app r status_route = queue_status-Guarded app r (identity_of r) refl
dispatch-Guarded app r transcribe_route = on_transcribe-Guarded app r (identity_of r) refl
dispatch-Guarded app r unknown_route = inl (refl, tt)

route_of-health :
    (method : Text)
    → (route_of method (codes "/health") ≡ health_route)
      ⊎ (route_of method (codes "/health") ≡ unknown_route)
unfolding route_of text_eq
route_of-health method = ground arith

-- The routes of the jobs have another path than /health.
route_of-protected :
    (method path : Text)
    → (route_of method path ≡ status_route) ⊎ (route_of method path ≡ transcribe_route)
    → path ≢ codes "/health"
route_of-protected method path (inl reached) e =
    let here : route_of method (codes "/health") ≡ status_route =
      ap (route_of method) (sym e) ∙ reached in
    elim (route_of-health method) [ inl h ↦ ground arith | inr h ↦ ground arith ]
route_of-protected method path (inr reached) e =
    let here : route_of method (codes "/health") ≡ transcribe_route =
      ap (route_of method) (sym e) ∙ reached in
    elim (route_of-health method) [ inl h ↦ ground arith | inr h ↦ ground arith ]

served-IsAuthorized :
    (app : App) (r : Request) (out : Response × TranscriptionQueue)
    → r.scope.scope_type ≡ http
    → require_https r.scope ≡ passed_on
    → (w : IsServed app r (route_of r.method r.scope.path) out) → IsAuthorized r w.identity
served-IsAuthorized app r out h passed w =
    let (proto, has_proto, is_https) =
      (require_https-passed_on_iff r.scope h (route_of-protected r.method r.scope.path w.reached)).0
        passed in
    let (one, sized, is_hex) =
      (require_client_identity-eq-ok_iff (header_values identity_header r.scope.headers)
          w.identity).0
        w.known in
    record {
      proto = proto;
      has_proto = has_proto;
      is_https = is_https;
      one_identity = one;
      sized = sized;
      is_hex = is_hex;
    }

-- What a request can do to the application.
abbrev pub IsHandled : App → Request → Response × TranscriptionQueue → Type 0
IsHandled app r out =
    ((out.1 ≡ app.queue) × TellsNothing out.0)
    ⊎ ((identity : Text) × IsAuthorized r identity
        × ((out ≡ (status_reply (get_queue_info identity app.queue), app.queue))
            ⊎ (out ≡ as_response (transcribe (upload_of app identity r.upload) app.queue))))

on_passage-IsHandled :
    (app : App) (r : Request) (passage : Passage)
    → r.scope.scope_type ≡ http
    → require_https r.scope ≡ passage
    → IsHandled app r (on_passage passage app r)
unfolding on_passage
on_passage-IsHandled app r https_required h e = inl (refl, tt)
on_passage-IsHandled app r passed_on h e =
    elim (dispatch-Guarded app r (route_of r.method r.scope.path)) [
      | inl nothing ↦ inl nothing
      | inr w ↦ inr (w.identity, served-IsAuthorized app r _ h e w, w.answer)
    ]

-- An HTTP request leaves the queue as it is and is told nothing of any job, unless its last header
-- X-Forwarded-Proto is https and it names exactly one client, by 64 lower-case hexadecimal digits; then
-- it is that client who is told of the jobs or whose upload is handled.
pub handle-IsHandled :
    (app : App) (r : Request) → r.scope.scope_type ≡ http → IsHandled app r (handle app r)
unfolding handle
handle-IsHandled app r h = on_passage-IsHandled app r (require_https r.scope) h refl
