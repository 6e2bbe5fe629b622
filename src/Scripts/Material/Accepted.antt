-- ===== src/Scripts/Material/Accepted.antt =====
-- Which keys and certificates pass the check.
use vibe_voice_vendor.Base.{
  ℕ, ◌+◌, ◌≤◌, ◌<◌, ◌≡◌, refl, ap, ◌∙◌, ◌↔◌, true, false, not, ◌||◌, Option, none, some, List, Text,
  text_eq, text_eq_iff, text_eq_refl, arith, ok, raise_if, bind_passed, guard_passed,
}
use vibe_voice_vendor.Scripts.Material.{
  Key, BasicConstraints, KeyUsage, Contents, Certificate, Cryptography, secp256r1, client_auth,
  Label, ca_label, client_label, key_label, check_curve, load_ec_public_key_from_cert,
  load_ec_private_key, check_dates, verify_cert_signature, check_ca, check_client, check_material,
  validate_material, contains, extension, is_zero, not_path_0_ca, no_ca_usage, issuer_mismatch,
  client_is_ca, bad_client_usage, key_mismatch,
}

-- One minute of difference between the clocks is allowed at the start.
pub record IsValidAt (now : ℕ) (c : Contents) : Type 0 where
  pub begun : c.not_valid_before ≤ now + 60
  pub not_over : now < c.not_valid_after

pub record IsSignedBy (crypto : Cryptography) (issuer_key : Key) (cert : Certificate) : Type 0 where
  pub algorithm : Text
  pub has_algorithm : cert.signature_hash_algorithm ≡ some algorithm
  pub verifies : crypto.verify issuer_key cert.signature algorithm cert.contents ≡ true

-- A self-signed authority that may sign certificates of clients and of no further authority.
pub record IsAuthority (crypto : Cryptography) (ca : Certificate) : Type 0 where
  pub is_root : ca.contents.basic_constraints ≡ some (record { ca = true; path_length = some 0 })
  pub usage : KeyUsage
  pub has_usage : ca.contents.key_usage ≡ some usage
  pub signs_certs : usage.key_cert_sign ≡ true
  pub signs_lists : usage.crl_sign ≡ true
  pub self_signed : IsSignedBy crypto ca.contents.public_key ca

pub record IsClientOf (crypto : Cryptography) (ca client : Certificate) : Type 0 where
  pub issued : client.contents.issuer ≡ ca.contents.subject
  pub signed : IsSignedBy crypto ca.contents.public_key client
  pub basic : BasicConstraints
  pub has_basic : client.contents.basic_constraints ≡ some basic
  pub no_authority : basic.ca ≡ false
  pub usage : KeyUsage
  pub has_usage : client.contents.key_usage ≡ some usage
  pub signs : usage.digital_signature ≡ true
  pub no_certs : usage.key_cert_sign ≡ false
  pub no_lists : usage.crl_sign ≡ false
  pub purposes : List Text
  pub has_purposes : client.contents.extended_key_usage ≡ some purposes
  pub for_clients : contains client_auth purposes ≡ true

pub record IsMaterial (crypto : Cryptography) (now : ℕ) (ca_pem client_pem key_pem : Text)
    : Type 0 where
  pub ca : Certificate
  pub client : Certificate
  pub key : Key
  pub ca_read : crypto.load_cert ca_pem ≡ some ca
  pub client_read : crypto.load_cert client_pem ≡ some client
  pub key_read : crypto.load_key key_pem ≡ some key
  pub ca_curve : ca.contents.public_key.curve ≡ some secp256r1
  pub client_curve : client.contents.public_key.curve ≡ some secp256r1
  pub key_curve : key.curve ≡ some secp256r1
  pub key_matches : (crypto.public_key key).numbers ≡ client.contents.public_key.numbers
  pub ca_valid : IsValidAt now ca.contents
  pub client_valid : IsValidAt now client.contents
  pub authority : IsAuthority crypto ca
  pub client_of : IsClientOf crypto ca client

check_dates-ok_iff :
    (now : ℕ) (label : Label) (c : Contents) → (check_dates now label c ≡ ok tt) ↔ IsValidAt now c
unfolding check_dates
check_dates-ok_iff now label c =
    ((λ h. record { begun = ground arith; not_over = ground arith }), λ w. ground arith)

signed_from :
    (crypto : Cryptography) (label : Label) (key : Key) (cert : Certificate) (a : Option Text)
    → cert.signature_hash_algorithm ≡ a
    → verify_cert_signature crypto label cert key ≡ ok tt
    → IsSignedBy crypto key cert
unfolding verify_cert_signature
signed_from crypto label key cert none e h = ground (arith, e)
signed_from crypto label key cert (some algorithm) e h = record {
  algorithm = algorithm;
  has_algorithm = e;
  verifies = ground (arith, e);
}

verify_complete :
    (crypto : Cryptography) (label : Label) (key : Key) (cert : Certificate)
    → IsSignedBy crypto key cert
    → verify_cert_signature crypto label cert key ≡ ok tt
unfolding verify_cert_signature
verify_complete crypto label key cert w = rw (w.has_algorithm) (rw w.verifies refl)

check_curve-ok_iff :
    (label : Label) (curve : Option Text)
    → (check_curve label curve ≡ ok tt) ↔ (curve ≡ some secp256r1)
unfolding check_curve
check_curve-ok_iff label none = ground arith
check_curve-ok_iff label (some curve) = ground (arith, text_eq_iff curve secp256r1)

extension-eq-ok {ℓ} :
    {A : Type ℓ} (label : Label) (o : Option A) (a : A) → extension label o ≡ ok a → o ≡ some a
extension-eq-ok label none a h = cc
extension-eq-ok label (some b) a h = cc

root_of :
    (basic : BasicConstraints)
    → raise_if (not basic.ca || not (is_zero basic.path_length)) not_path_0_ca ≡ ok tt
    → basic ≡ record { ca = true; path_length = some 0 }
root_of basic h = ground arith

check_ca_sound :
    (crypto : Cryptography) (ca : Certificate) → check_ca crypto ca ≡ ok tt → IsAuthority crypto ca
unfolding check_ca
check_ca_sound crypto ca h =
    let (basic, e, h1) = bind_passed (extension ca_label ca.contents.basic_constraints) h in
    let (root, h2) =
      guard_passed (raise_if (not basic.ca || not (is_zero basic.path_length)) not_path_0_ca) h1 in
    let (usage, f, h3) = bind_passed (extension ca_label ca.contents.key_usage) h2 in
    let (signs, h4) =
      guard_passed (raise_if (not usage.key_cert_sign || not usage.crl_sign) no_ca_usage) h3 in
    record {
      is_root = extension-eq-ok _ _ _ e ∙ ap some (root_of basic root);
      usage = usage;
      has_usage = extension-eq-ok _ _ _ f;
      signs_certs = ground arith;
      signs_lists = ground arith;
      self_signed = signed_from crypto ca_label ca.contents.public_key ca _ refl h4;
    }

check_ca_complete :
    (crypto : Cryptography) (ca : Certificate) → IsAuthority crypto ca → check_ca crypto ca ≡ ok tt
unfolding check_ca
check_ca_complete crypto ca w =
    let signed = verify_complete crypto ca_label ca.contents.public_key ca w.self_signed in
    ground (arith, signed)

check_client_sound :
    (crypto : Cryptography) (ca client : Certificate)
    → check_client crypto ca client ≡ ok tt
    → IsClientOf crypto ca client
unfolding check_client
check_client_sound crypto ca client h =
    let (issued, h1) =
      guard_passed
        (raise_if (not (text_eq client.contents.issuer ca.contents.subject)) issuer_mismatch) h in
    let (signed, h2) =
      guard_passed (verify_cert_signature crypto client_label client ca.contents.public_key) h1 in
    let (basic, e, h3) =
      bind_passed (extension client_label client.contents.basic_constraints) h2 in
    let (leaf, h4) = guard_passed (raise_if basic.ca client_is_ca) h3 in
    let (usage, f, h5) = bind_passed (extension client_label client.contents.key_usage) h4 in
    let (signs, h6) =
      guard_passed
        (raise_if (not usage.digital_signature || usage.key_cert_sign || usage.crl_sign)
          bad_client_usage)
        h5 in
    let (eku, g, h7) = bind_passed (extension client_label client.contents.extended_key_usage) h6 in
    record {
      issued = ground (arith, text_eq_iff client.contents.issuer ca.contents.subject);
      signed = signed_from crypto client_label ca.contents.public_key client _ refl signed;
      basic = basic;
      has_basic = extension-eq-ok _ _ _ e;
      no_authority = ground arith;
      usage = usage;
      has_usage = extension-eq-ok _ _ _ f;
      signs = ground arith;
      no_certs = ground arith;
      no_lists = ground arith;
      purposes = eku;
      has_purposes = extension-eq-ok _ _ _ g;
      for_clients = ground arith;
    }

check_client_complete :
    (crypto : Cryptography) (ca client : Certificate)
    → IsClientOf crypto ca client
    → check_client crypto ca client ≡ ok tt
unfolding check_client
check_client_complete crypto ca client w =
    let signed = verify_complete crypto client_label ca.contents.public_key client w.signed in
    ground (arith, signed, text_eq_iff client.contents.issuer ca.contents.subject)

load_cert-ok_iff :
    (label : Label) (read : Option Certificate) (cert : Certificate)
    → (load_ec_public_key_from_cert label read ≡ ok cert)
      ↔ ((read ≡ some cert) × (cert.contents.public_key.curve ≡ some secp256r1))
unfolding load_ec_public_key_from_cert
load_cert-ok_iff label none cert = ground arith
load_cert-ok_iff label (some c) cert =
    ground (arith, check_curve-ok_iff label c.contents.public_key.curve)

load_key-ok_iff :
    (read : Option Key) (key : Key)
    → (load_ec_private_key read ≡ ok key) ↔ ((read ≡ some key) × (key.curve ≡ some secp256r1))
unfolding load_ec_private_key
load_key-ok_iff none key = ground arith
load_key-ok_iff (some k) key = ground (arith, check_curve-ok_iff key_label k.curve)

module _ (crypto : Cryptography) (now : ℕ) (ca_pem client_pem key_pem : Text) where
  validate_material_sound :
      validate_material crypto now ca_pem client_pem key_pem ≡ ok tt
      → IsMaterial crypto now ca_pem client_pem key_pem
  unfolding validate_material check_material
  validate_material_sound h =
      let (ca, a, h1) =
        bind_passed (load_ec_public_key_from_cert ca_label (crypto.load_cert ca_pem)) h in
      let (client, b, h2) =
        bind_passed (load_ec_public_key_from_cert client_label (crypto.load_cert client_pem)) h1 in
      let (key, c, h3) = bind_passed (load_ec_private_key (crypto.load_key key_pem)) h2 in
      let (matches, h4) =
        guard_passed
          (raise_if
            (not (text_eq (crypto.public_key key).numbers client.contents.public_key.numbers))
            key_mismatch)
          h3 in
      let (d, h5) = guard_passed (check_dates now ca_label ca.contents) h4 in
      let (e, h6) = guard_passed (check_dates now client_label client.contents) h5 in
      let (f, g) = guard_passed (check_ca crypto ca) h6 in
      let read_ca = (load_cert-ok_iff ca_label _ ca).0 a in
      let read_client = (load_cert-ok_iff client_label _ client).0 b in
      let read_key = (load_key-ok_iff _ key).0 c in
      record {
        ca = ca;
        client = client;
        key = key;
        ca_read = read_ca.0;
        client_read = read_client.0;
        key_read = read_key.0;
        ca_curve = read_ca.1;
        client_curve = read_client.1;
        key_curve = read_key.1;
        key_matches =
            ground (
              arith,
              text_eq_iff (crypto.public_key key).numbers client.contents.public_key.numbers,
            );
        ca_valid = (check_dates-ok_iff now ca_label ca.contents).0 d;
        client_valid = (check_dates-ok_iff now client_label client.contents).0 e;
        authority = check_ca_sound crypto ca f;
        client_of = check_client_sound crypto ca client g;
      }

  validate_material_complete :
      IsMaterial crypto now ca_pem client_pem key_pem
      → validate_material crypto now ca_pem client_pem key_pem ≡ ok tt
  unfolding validate_material check_material
  validate_material_complete w =
      rw
        (
          (load_cert-ok_iff ca_label _ w.ca).1 (w.ca_read, w.ca_curve),
          (load_cert-ok_iff client_label _ w.client).1 (w.client_read, w.client_curve),
          (load_key-ok_iff _ w.key).1 (w.key_read, w.key_curve),
          w.key_matches,
          text_eq_refl w.client.contents.public_key.numbers,
          (check_dates-ok_iff now ca_label w.ca.contents).1 w.ca_valid,
          (check_dates-ok_iff now client_label w.client.contents).1 w.client_valid,
          check_ca_complete crypto w.ca w.authority,
        )
        (check_client_complete crypto w.ca w.client w.client_of)

  -- A key and two certificates pass exactly if they can be read, all three are on the curve
  -- secp256r1, the key is the client certificate's, both certificates are valid at the time but for a
  -- minute at their start, the first is a self-signed authority for certificates with path length 0,
  -- and the second is issued and signed by it, for a client and for no authority.
  pub validate_material-eq-ok_iff :
      (validate_material crypto now ca_pem client_pem key_pem ≡ ok tt)
      ↔ IsMaterial crypto now ca_pem client_pem key_pem
  validate_material-eq-ok_iff = (validate_material_sound, validate_material_complete)
