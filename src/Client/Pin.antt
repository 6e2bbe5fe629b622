-- ===== src/Client/Pin.antt =====
-- client/client.py: the pin of the server's public key. Base64, SHA-256 and the reading of a certificate
-- are those of Python's libraries and of the package `cryptography`: a record of functions.
use mathlib.Core.Option.{some-injective}
use vibe_voice_vendor.Base.{
  true, text_eq_refl, ℕ, ◌≡◌, ◌≢◌, refl, ap, sym, ◌∙◌, ◌↔◌, not, Option, none, some, [], ◌∷◌, ◌++◌,
  length, drop, Text, codes, text_eq, text_eq_iff, starts_with, strip, ◌==◌, arith, Result, ok, err,
  raise_if, ◌>>=◌, ◌>>◌, bind_passed, guard_passed,
}

-- `b64decode(..., validate=True)` is `none` where it raises; `spki` is the DER form of the public key of
-- a certificate in DER form, `none` where the package raises.
pub record PinLibrary : Type 0 where
  pub b64encode : Text → Text
  pub b64decode : Text → Option Text
  pub sha256 : Text → Text
  pub spki : Text → Option Text

pub data PinError : Type 0 where
  no_prefix not_base64 not_a_hash no_certificate unreadable_certificate pin_mismatch : PinError

abbrev pub pin_prefix : Text
pin_prefix = codes "sha256/"

unfoldable pub decoded_or_raise : Option Text → Result PinError Text
decoded_or_raise none = err not_base64
decoded_or_raise (some bytes) = ok bytes

unfoldable pub normalize_server_pin : PinLibrary → Text → Result PinError Text
unfolding decoded_or_raise
normalize_server_pin lib raw = do
  raise_if (not (starts_with (strip raw) pin_prefix)) no_prefix
  decoded ← decoded_or_raise (lib.b64decode (drop 7 (strip raw)))
  raise_if (not (length decoded == 32)) not_a_hash
  ok (pin_prefix ++ lib.b64encode decoded)

-- `"sha256/" + b64encode(sha256(spki))`, also `_server_spki_pin` of scripts/generate_cert.py
unfoldable pub pin_of_spki : PinLibrary → Text → Text
pin_of_spki lib spki = pin_prefix ++ lib.b64encode (lib.sha256 spki)

unfoldable pub spki_pin_from_certificate_der : PinLibrary → Option Text → Result PinError Text
unfolding pin_of_spki
spki_pin_from_certificate_der lib none = err unreadable_certificate
spki_pin_from_certificate_der lib (some spki) = ok (pin_of_spki lib spki)

-- `_PinnedHTTPSConnection.connect` after the handshake: the certificate that the server presented.
unfoldable pub check_certificate : PinLibrary → Text → Option Text → Result PinError (Unit {0})
unfolding spki_pin_from_certificate_der
check_certificate lib expected none = err no_certificate
check_certificate lib expected (some []) = err no_certificate
check_certificate lib expected (some (c ∷ der)) = do
  actual ← spki_pin_from_certificate_der lib (lib.spki (c ∷ der))
  raise_if (not (text_eq actual expected)) pin_mismatch

drop-prefix : (s : Text) → drop 7 (pin_prefix ++ s) ≡ s
drop-prefix s = refl

decoded_inversion :
    (o : Option Text) (bytes : Text) → decoded_or_raise o ≡ ok bytes → o ≡ some bytes
unfolding decoded_or_raise
decoded_inversion none bytes h = ground arith
decoded_inversion (some b) bytes h = ground arith

-- The pin that is given, as it is accepted.
pub record IsPin (lib : PinLibrary) (raw pin hash : Text) : Type 0 where
  pub prefixed : starts_with (strip raw) pin_prefix ≡ true
  pub decodes : lib.b64decode (drop 7 (strip raw)) ≡ some hash
  pub sized : length hash ≡ 32
  pub canonical : pin ≡ pin_prefix ++ lib.b64encode hash

pub normalize_server_pin-IsPin :
    (lib : PinLibrary) (raw pin : Text)
    → normalize_server_pin lib raw ≡ ok pin
    → (hash : Text) × IsPin lib raw pin hash
unfolding normalize_server_pin
normalize_server_pin-IsPin lib raw pin h =
    let (prefixed, h1) =
      guard_passed (raise_if (not (starts_with (strip raw) pin_prefix)) no_prefix) h in
    let (hash, read, h2) = bind_passed (decoded_or_raise (lib.b64decode (drop 7 (strip raw)))) h1 in
    let (sized, h3) = guard_passed (raise_if (not (length hash == 32)) not_a_hash) h2 in
    (
      hash,
      record {
        prefixed = ground arith;
        decodes = decoded_inversion _ hash read;
        sized = ground arith;
        canonical = ground arith;
      },
    )

b64encode_injective :
    (lib : PinLibrary)
    → ((bytes : Text) → lib.b64decode (lib.b64encode bytes) ≡ some bytes)
    → (a b : Text) → pin_prefix ++ lib.b64encode a ≡ pin_prefix ++ lib.b64encode b
    → a ≡ b
b64encode_injective lib laws a b h =
    some-injective a b (sym (laws a) ∙ ap (λ t. lib.b64decode (drop 7 t)) h ∙ laws b)

-- The server presents a certificate whose public key has the hash.
abbrev pub Presents : PinLibrary → Text → Option Text → Type 0
Presents lib hash presented =
    (der : Text) × (spki : Text) × (presented ≡ some der)
    × (der ≢ [])
    × (lib.spki der ≡ some spki)
    × (lib.sha256 spki ≡ hash)

module _ (lib : PinLibrary)
    (laws : (bytes : Text) → lib.b64decode (lib.b64encode bytes) ≡ some bytes) (pin hash : Text)
    (canonical : pin ≡ pin_prefix ++ lib.b64encode hash) where
  pin_sound :
      (c : ℕ) (der : Text) (o : Option Text)
      → lib.spki (c ∷ der) ≡ o
      → (spki_pin_from_certificate_der lib o >>= λ actual.
          raise_if (not (text_eq actual pin)) pin_mismatch)
        ≡ ok tt
      → Presents lib hash (some (c ∷ der))
  unfolding spki_pin_from_certificate_der pin_of_spki
  pin_sound c der none e h = ground arith
  pin_sound c der (some spki) e h =
      let same : pin_prefix ++ lib.b64encode (lib.sha256 spki) ≡ pin =
        ground (arith, text_eq_iff (pin_of_spki lib spki) pin) in
      (
        c ∷ der,
        spki,
        refl,
        (λ n. cc),
        e,
        b64encode_injective lib laws (lib.sha256 spki) hash (same ∙ canonical),
      )

  pub accepted_sound :
      (presented : Option Text)
      → check_certificate lib pin presented ≡ ok tt
      → Presents lib hash presented
  unfolding check_certificate
  accepted_sound none h = ground arith
  accepted_sound (some []) h = ground arith
  accepted_sound (some (c ∷ der)) h = pin_sound c der (lib.spki (c ∷ der)) refl h

  accepted_here :
      (der spki : Text)
      → der ≢ []
      → lib.spki der ≡ some spki
      → lib.sha256 spki ≡ hash
      → check_certificate lib pin (some der) ≡ ok tt
  unfolding check_certificate pin_of_spki
  accepted_here [] spki n e s = absurd (n refl)
  accepted_here (c ∷ der) spki n e s = rw e (
      unfold spki_pin_from_certificate_der pin_of_spki in
      rw (s, canonical) (rw (text_eq_refl (pin_prefix ++ lib.b64encode hash)) refl))

  pub accepted_complete :
      (presented : Option Text)
      → Presents lib hash presented
      → check_certificate lib pin presented ≡ ok tt
  accepted_complete presented (der, spki, p, n, e, s) = rw p (accepted_here der spki n e s)

-- With a pin that was accepted, the client goes on with a connection exactly if the server presented a
-- certificate that can be read and the SHA-256 of its public key is the hash that the given pin
-- encodes: the base64 spelling of the pin does not matter. It is assumed that base64 decodes what it
-- encodes.
pub check_certificate-ok_iff :
    (lib : PinLibrary)
    → ((bytes : Text) → lib.b64decode (lib.b64encode bytes) ≡ some bytes)
    → (raw pin : Text) → normalize_server_pin lib raw ≡ ok pin
    → (presented : Option Text)
    → (hash : Text) × (lib.b64decode (drop 7 (strip raw)) ≡ some hash)
      × ((check_certificate lib pin presented ≡ ok tt) ↔ Presents lib hash presented)
check_certificate-ok_iff lib laws raw pin h presented =
    let (hash, w) = normalize_server_pin-IsPin lib raw pin h in
    (
      hash,
      w.decodes,
      (
        accepted_sound lib laws pin hash w.canonical presented,
        accepted_complete lib laws pin hash w.canonical presented,
      ),
    )
