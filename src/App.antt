-- ===== src/App.antt =====
-- server/app.py: `RequireHTTPSMiddleware`, on the scope that the ASGI server gives it. Names and values
-- of headers are bytes, the names in lower case, as the ASGI specification has them.
pub mod Routes
use vibe_voice_vendor.Base.{
  ℕ, ◌+◌, ◌≡◌, refl, ap, ◌≢◌, ◌↔◌, ◌⊎◌, inl, inr, Bool, true, false, not, ◌&&◌, ◌||◌, Option, none,
  some, List, [], ◌∷◌, map, Text, codes, text_eq, text_eq_iff, leb, if◌then◌else◌, arith,
}

pub data ScopeType : Type 0 where
  http websocket lifespan : ScopeType

pub record Scope : Type 0 where
  pub scope_type : ScopeType
  pub path : Text
  pub headers : List (Text × Text)

-- The 403 response with "HTTPS required", or the wrapped application.
pub data Passage : Type 0 where
  https_required passed_on : Passage

-- `dict(headers).get(key)`: the last header of a name counts.
unfoldable pub last_header : Text → Option Text → List (Text × Text) → Option Text
last_header key found [] = found
last_header key found ((name, value) ∷ headers) =
    last_header key (if text_eq name key then some value else found) headers

-- `bytes.lower`
abbrev pub lower_byte : ℕ → ℕ
lower_byte c = if leb 65 c && leb c 90 then c + 32 else c

abbrev pub lower : Text → Text
lower value = map lower_byte value

unfoldable pub is_https : Option Text → Bool
is_https none = false
is_https (some value) = text_eq (lower value) (codes "https")

abbrev pub is_http : ScopeType → Bool
is_http http = true
is_http type = false

unfoldable pub require_https : Scope → Passage
unfolding last_header is_https
require_https scope =
    if is_http scope.scope_type && not (text_eq scope.path (codes "/health"))
    then if is_https (last_header (codes "x-forwarded-proto") none scope.headers)
      then passed_on
      else https_required
    else passed_on

is_https_iff :
    (o : Option Text)
    → (is_https o ≡ true) ↔ ((value : Text) × (o ≡ some value) × (lower value ≡ codes "https"))
unfolding is_https
is_https_iff none = (λ h. ground arith, λ (v, e, l). ground arith)
is_https_iff (some value) = (
  λ h. (value, refl, (text_eq_iff (lower value) (codes "https")).0 h),
  λ (v, e, l). ground (arith, text_eq_iff (lower value) (codes "https")),
)

-- A request for anything but /health reaches the application exactly if the last header
-- X-Forwarded-Proto is "https", in any case of its letters.
pub require_https-passed_on_iff :
    (scope : Scope)
    → scope.scope_type ≡ http
    → scope.path ≢ codes "/health"
    → (require_https scope ≡ passed_on) ↔ (
        (value : Text) × (last_header (codes "x-forwarded-proto") none scope.headers ≡ some value)
        × (lower value ≡ codes "https"))
unfolding require_https
require_https-passed_on_iff scope h p =
    let proto = is_https_iff (last_header (codes "x-forwarded-proto") none scope.headers) in
    let checked : is_http scope.scope_type ≡ true = ap is_http h in
    let closed : text_eq scope.path (codes "/health") ≡ false =
      ground (arith, text_eq_iff scope.path (codes "/health")) in
    (λ e. proto.0 (ground arith), λ w. ground (arith, proto.1 w))
