-- ===== src/Identity.antt =====
-- server/client_identity.py: the client's identity, which the TLS proxy puts into a header as the
-- SHA-256 of the client's public key. `request.headers.getlist` of that header is the argument.
use vibe_voice_vendor.Base.{
  ℕ, ◌≤◌, ◌≡◌, ◌↔◌, ◌⊎◌, Bool, true, not, ◌&&◌, ◌||◌, List, [], ◌∷◌, length, Text, codes, ◌==◌, leb,
  arith, Result, ok, err, raise_if, ◌>>◌, All,
}
use vibe_voice_vendor.Http.{HttpException}

abbrev pub identity_required : HttpException
identity_required = record { status_code = 403; detail = codes "mTLS client identity required" }

abbrev pub identity_invalid : HttpException
identity_invalid = record { status_code = 403; detail = codes "mTLS client identity invalid" }

-- `[a-f0-9]`
abbrev pub is_lower_hex : ℕ → Bool
is_lower_hex c = (leb b'a' c && leb c b'f') || (leb b'0' c && leb c b'9')

unfoldable pub all_lower_hex : Text → Bool
all_lower_hex [] = true
all_lower_hex (c ∷ s) = is_lower_hex c && all_lower_hex s

-- `_CLIENT_IDENTITY_RE.fullmatch`: 64 characters of the class
unfoldable pub matches_identity : Text → Bool
matches_identity s = length s == 64 && all_lower_hex s

unfoldable pub require_client_identity : List Text → Result HttpException Text
require_client_identity [] = err identity_required
require_client_identity (identity ∷ []) = do
  raise_if (not (matches_identity identity)) identity_invalid
  ok identity
require_client_identity (identity ∷ second ∷ more) = err identity_required

abbrev pub IsLowerHex : ℕ → Type 0
IsLowerHex c = ((97 ≤ c) × (c ≤ 102)) ⊎ ((48 ≤ c) × (c ≤ 57))

pub all_lower_hex_iff : (s : Text) → (all_lower_hex s ≡ true) ↔ All IsLowerHex s
unfolding all_lower_hex
all_lower_hex_iff [] = ground arith
all_lower_hex_iff (c ∷ s) = ground (arith, all_lower_hex_iff s)

-- A request has an identity exactly if the header occurs once and its value is 64 lower-case
-- hexadecimal digits, and then the identity is that value.
pub require_client_identity-eq-ok_iff :
    (values : List Text) (identity : Text)
    → (require_client_identity values ≡ ok identity)
      ↔ ((values ≡ identity ∷ []) × (length identity ≡ 64) × All IsLowerHex identity)
unfolding require_client_identity matches_identity
require_client_identity-eq-ok_iff [] identity = ground arith
require_client_identity-eq-ok_iff (v ∷ []) identity =
    ground (arith, all_lower_hex_iff v, all_lower_hex_iff identity)
require_client_identity-eq-ok_iff (v ∷ w ∷ vs) identity = ground arith
