-- ===== src/Scripts/Tests.antt =====
-- A small package of keys and certificates, and the theorems of Scripts at them.
use vibe_voice_vendor.Base.{
  ◌≡◌, refl, inr, false, none, some, Text, codes, text_eq, if◌then◌else◌, arith,
}
use vibe_voice_vendor.Scripts.{file, FileSystem, key_mode}
use vibe_voice_vendor.Scripts.Material.{Key, Cryptography, secp256r1}
use vibe_voice_vendor.Scripts.ClientCert.{
  client_key_path, Generation, generate_client_auth_artifacts, utf8_length,
}
use vibe_voice_vendor.Scripts.ClientCert.Generated.{
  HasGenerated, ca_of, client_of, generate-HasGenerated,
}
use vibe_voice_vendor.Scripts.ClientCert.Kept.{generate_keeps}

abbrev pub key : Text → Key
key numbers = record { curve = some secp256r1; numbers = numbers }

abbrev pub generation : Generation
generation = record {
  ca_key = key (codes "1");
  client_key = key (codes "2");
  subject = codes "phone";
  days = 1;
  now = 100;
  later = 101;
}

-- A key is its own public key, and a signature is the numbers of the key.
abbrev pub signer : Cryptography
signer = record {
  public_key = λ k. k;
  sign = λ k c. k.numbers;
  verify = λ k signature algorithm c. text_eq k.numbers signature;
  cert_pem = λ c. c.contents.subject;
  load_cert = λ t. none;
  key_pem = λ k. k.numbers;
  load_key = λ t. some (key t);
  name_attribute = λ t. some t;
}

-- It reads the two certificates of the generation.
abbrev small_crypto : Cryptography
small_crypto = record signer {
  load_cert = λ t.
      if text_eq t (codes "phone")
      then some (client_of signer generation (codes "phone"))
      else some (ca_of signer generation);
}

abbrev pub empty_fs : FileSystem
empty_fs = record {
  dirs = λ d. none;
  entries = λ p. none;
  denied_dirs = λ d. false;
  denied = λ p. false;
}

generate-HasGenerated_example :
    HasGenerated small_crypto
      (codes "c")
      (codes "k")
      generation
      empty_fs
      (generate_client_auth_artifacts small_crypto (codes "c") (codes "k") generation empty_fs)
unfolding text_eq utf8_length
generate-HasGenerated_example =
    generate-HasGenerated small_crypto (codes "c") (codes "k") generation (codes "phone") empty_fs
      (record { reads_ca = refl; reads_client = refl; reads_key = refl; verify-sign = λ c. refl })
      (record {
        certs_usable = inr (refl, refl);
        keys_usable = inr (refl, refl);
        ca_free = (refl, refl);
        cert_free = (refl, refl);
        key_free = (refl, refl);
        subject_given = λ h. cc;
        encodable = refl;
        short = omega arith;
        printable = refl;
        one_day = omega arith;
        ten_years = omega arith;
        accepted_name = refl;
        ca_curve = refl;
        client_curve = refl;
        key_curve = refl;
        begun = omega arith;
        not_over = omega arith;
      })

-- A certificate that is left there is kept, and the script refuses.
abbrev used_fs : FileSystem
used_fs = record empty_fs { entries = λ p. some (file (codes "old") key_mode) }

generate_keeps_example :
    (generate_client_auth_artifacts small_crypto
        (codes "c")
        (codes "k")
        generation
        used_fs).1.entries
      (client_key_path (codes "k"))
    ≡ some (file (codes "old") key_mode)
generate_keeps_example =
    generate_keeps small_crypto (codes "c") (codes "k") generation used_fs
      (client_key_path (codes "k")) (file (codes "old") key_mode) refl
