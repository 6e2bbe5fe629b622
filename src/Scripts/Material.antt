-- ===== src/Scripts/Material.antt =====
-- The check of a client's key and certificates: `_load_ec_public_key_from_cert`,
-- `_load_ec_private_key`, `_verify_cert_signature` and the tests of `validate_client_auth_artifacts`
-- in scripts/generate_client_cert.py, which scripts/generate_client_bundle.py repeats with other
-- labels. The package `cryptography` is a record of functions; of its objects there is what the
-- scripts read. Times are in seconds, to which a certificate's dates are cut.
pub mod Accepted
use vibe_voice_vendor.Base.{
  ℕ, ◌+◌, ◌≡◌, Bool, true, false, not, ◌&&◌, ◌||◌, Option, none, some, List, [], ◌∷◌, Text, codes,
  text_eq, ◌==◌, ltb, leb, if◌then◌else◌, Result, ok, err, raise_if, ◌>>=◌, ◌>>◌, All,
}

-- A public or private key: the name of its curve, if it is an EC key, and its numbers.
pub record Key : Type 0 where
  pub curve : Option Text
  pub numbers : Text

pub record BasicConstraints : Type 0 where
  pub ca : Bool
  pub path_length : Option ℕ

pub record KeyUsage : Type 0 where
  pub digital_signature : Bool
  pub key_cert_sign : Bool
  pub crl_sign : Bool

-- What is signed of a certificate. An extension that it lacks is `none`.
pub record Contents : Type 0 where
  pub subject : Text
  pub issuer : Text
  pub public_key : Key
  pub not_valid_before : ℕ
  pub not_valid_after : ℕ
  pub basic_constraints : Option BasicConstraints
  pub key_usage : Option KeyUsage
  pub extended_key_usage : Option (List Text)

pub record Certificate : Type 0 where
  pub contents : Contents
  pub signature : Text
  pub signature_hash_algorithm : Option Text

-- `load_*` is `none` where the package raises; `name_attribute` where it refuses the text as a common
-- name. `pem` prints.
pub record Cryptography : Type 0 where
  pub public_key : Key → Key
  pub sign : Key → Contents → Text
  pub verify : Key → Text → Text → Contents → Bool
  pub cert_pem : Certificate → Text
  pub load_cert : Text → Option Certificate
  pub key_pem : Key → Text
  pub load_key : Text → Option Key
  pub name_attribute : Text → Option Text

abbrev pub secp256r1 : Text
secp256r1 = codes "secp256r1"

abbrev pub sha256 : Text
sha256 = codes "sha256"

abbrev pub client_auth : Text
client_auth = codes "clientAuth"

pub data Label : Type 0 where
  ca_label client_label key_label : Label

-- The messages, in the order of the tests. `extension_not_found` is the package's exception, which is
-- no ValueError.
pub data MaterialError : Type 0 where
  unreadable not_ec wrong_curve : Label → MaterialError
  key_mismatch : MaterialError
  not_valid_yet expired extension_not_found : Label → MaterialError
  not_path_0_ca no_ca_usage : MaterialError
  no_hash bad_signature : Label → MaterialError
  issuer_mismatch client_is_ca bad_client_usage no_client_auth : MaterialError

unfoldable pub check_curve : Label → Option Text → Result MaterialError (Unit {0})
check_curve label none = err (not_ec label)
check_curve label (some curve) = raise_if (not (text_eq curve secp256r1)) (wrong_curve label)

unfoldable pub load_ec_public_key_from_cert :
    Label → Option Certificate → Result MaterialError Certificate
unfolding check_curve
load_ec_public_key_from_cert label none = err (unreadable label)
load_ec_public_key_from_cert label (some cert) = do
  check_curve label cert.contents.public_key.curve
  ok cert

unfoldable pub load_ec_private_key : Option Key → Result MaterialError Key
unfolding check_curve
load_ec_private_key none = err (unreadable key_label)
load_ec_private_key (some key) = do check_curve key_label key.curve; ok key

-- The two tests of the loop over the certificates.
unfoldable pub check_dates : ℕ → Label → Contents → Result MaterialError (Unit {0})
check_dates now label c = do
  raise_if (ltb (now + 60) c.not_valid_before) (not_valid_yet label)
  raise_if (leb c.not_valid_after now) (expired label)

abbrev pub extension {ℓ} : {A : Type ℓ} → Label → Option A → Result MaterialError A
extension label none = err (extension_not_found label)
extension label (some value) = ok value

abbrev pub is_zero : Option ℕ → Bool
is_zero none = false
is_zero (some n) = n == 0

abbrev pub contains : Text → List Text → Bool
contains t [] = false
contains t (u ∷ us) = text_eq t u || contains t us

-- _verify_cert_signature
unfoldable pub verify_cert_signature :
    Cryptography → Label → Certificate → Key → Result MaterialError (Unit {0})
verify_cert_signature crypto label cert issuer_key = elim cert.signature_hash_algorithm [
  | none ↦ err (no_hash label)
  | some algorithm ↦
      raise_if (not (crypto.verify issuer_key cert.signature algorithm cert.contents))
        (bad_signature label)
]

-- The tests of the CA certificate.
unfoldable pub check_ca : Cryptography → Certificate → Result MaterialError (Unit {0})
unfolding verify_cert_signature
check_ca crypto ca = do
  basic ← extension ca_label ca.contents.basic_constraints
  raise_if (not basic.ca || not (is_zero basic.path_length)) not_path_0_ca
  usage ← extension ca_label ca.contents.key_usage
  raise_if (not usage.key_cert_sign || not usage.crl_sign) no_ca_usage
  verify_cert_signature crypto ca_label ca ca.contents.public_key

-- The tests of the client's certificate.
unfoldable pub check_client :
    Cryptography → Certificate → Certificate → Result MaterialError (Unit {0})
unfolding verify_cert_signature
check_client crypto ca client = do
  raise_if (not (text_eq client.contents.issuer ca.contents.subject)) issuer_mismatch
  verify_cert_signature crypto client_label client ca.contents.public_key
  basic ← extension client_label client.contents.basic_constraints
  raise_if basic.ca client_is_ca
  usage ← extension client_label client.contents.key_usage
  raise_if (not usage.digital_signature || usage.key_cert_sign || usage.crl_sign) bad_client_usage
  eku ← extension client_label client.contents.extended_key_usage
  raise_if (not (contains client_auth eku)) no_client_auth

-- From the comparison of the keys on.
unfoldable pub check_material :
    Cryptography → ℕ → Certificate → Certificate → Key → Result MaterialError (Unit {0})
unfolding check_dates check_ca check_client
check_material crypto now ca client key = do
  raise_if (not (text_eq (crypto.public_key key).numbers client.contents.public_key.numbers))
      key_mismatch
  check_dates now ca_label ca.contents
  check_dates now client_label client.contents
  check_ca crypto ca
  check_client crypto ca client

unfoldable pub validate_material :
    Cryptography → ℕ → Text → Text → Text → Result MaterialError (Unit {0})
unfolding load_ec_public_key_from_cert load_ec_private_key check_material
validate_material crypto now ca_pem client_pem key_pem = do
  ca ← load_ec_public_key_from_cert ca_label (crypto.load_cert ca_pem)
  client ← load_ec_public_key_from_cert client_label (crypto.load_cert client_pem)
  key ← load_ec_private_key (crypto.load_key key_pem)
  check_material crypto now ca client key
