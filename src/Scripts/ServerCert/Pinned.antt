-- ===== src/Scripts/ServerCert/Pinned.antt =====
-- The server's files as they are generated, and the client that is given the pin from them.
use vibe_voice_vendor.Base.{
  natural, ℕ, ◌≤◌, ◌≡◌, ◌↔◌, refl, ap, ◌∙◌, Bool, false, Option, some, [], ◌∷◌, ◌++◌, length, drop,
  Text, text_eq, text_eq_refl, is_space, any, lstrip, rstrip, strip, starts_with, arith, ok,
}
use vibe_voice_vendor.Disk.{FilePath}
use vibe_voice_vendor.Client.Pin.{
  PinLibrary, pin_of_spki, decoded_or_raise, normalize_server_pin, check_certificate,
  accepted_sound, accepted_complete, Presents,
}
use vibe_voice_vendor.Scripts.{
  Node, file, FileSystem, cert_mode, key_mode, put_entry, write_new, write_file,
}
use vibe_voice_vendor.Scripts.Material.{Cryptography}
use vibe_voice_vendor.Scripts.ClientCert.{create_or_validate_directory}
use vibe_voice_vendor.Scripts.ClientCert.Generated.{IsUsable, IsFree, IsPrepared, prepare}
use vibe_voice_vendor.Scripts.ServerCert.{
  fullchain_path, privkey_path, server_pin_path, ServerKey, pinned, CertEnded, validate_server_days,
  server_cert, on_server_file, write_server_files, in_directory, on_days, generate_cert,
}

-- What base64 and SHA-256 do: the encoding has no white space and is decoded again, and a hash has 32
-- bytes.
pub record IsPinLibrary (pins : PinLibrary) : Type 0 where
  pub b64decode-b64encode : (bytes : Text) → pins.b64decode (pins.b64encode bytes) ≡ some bytes
  pub b64encode_plain : (bytes : Text) → any is_space (pins.b64encode bytes) ≡ false
  pub length-sha256 : (bytes : Text) → length (pins.sha256 bytes) ≡ 32

rstrip-newline : (s : Text) → any is_space s ≡ false → rstrip (s ++ (10 ∷ [])) ≡ s
unfolding rstrip
rstrip-newline [] h = refl
rstrip-newline (c ∷ []) h = ground arith
rstrip-newline (c ∷ d ∷ s) h = rw (rstrip-newline (d ∷ s) (ground arith)) refl

module _ (pins : PinLibrary) (laws : IsPinLibrary pins) (spki : Text) where
  strip-pin_file : strip (pin_of_spki pins spki ++ (10 ∷ [])) ≡ pin_of_spki pins spki
  unfolding strip pin_of_spki lstrip
  strip-pin_file = rstrip-newline (pin_of_spki pins spki) (laws.b64encode_plain (pins.sha256 spki))

  drop-pin_of_spki : drop 7 (pin_of_spki pins spki) ≡ pins.b64encode (pins.sha256 spki)
  unfolding pin_of_spki
  drop-pin_of_spki = refl

  -- A pin is accepted as it stands in its file.
  normalize_server_pin-pin_file :
      normalize_server_pin pins (pin_of_spki pins spki ++ (10 ∷ [])) ≡ ok (pin_of_spki pins spki)
  unfolding normalize_server_pin
  normalize_server_pin-pin_file =
      rw (strip-pin_file, drop-pin_of_spki, laws.b64decode-b64encode (pins.sha256 spki))
        (unfold decoded_or_raise pin_of_spki starts_with in rw (laws.length-sha256 spki) refl)

pub record IsServerReady (dir : Text) (days : ℕ) (fs : FileSystem) : Type 0 where
  pub usable : IsUsable dir fs
  pub cert_free : IsFree (fullchain_path dir) fs
  pub key_free : IsFree (privkey_path dir) fs
  pub pin_free : IsFree (server_pin_path dir) fs
  pub one_day : 1 ≤ days
  pub ten_years : days ≤ 3650

module _ (crypto : Cryptography) (pins : PinLibrary) (server : ServerKey) (now days : ℕ)
    (dir : Text) where
  abbrev pub with_server_files : FileSystem → FileSystem
  with_server_files fs = put_entry (privkey_path dir) (file (crypto.key_pem server.key) key_mode) (
      put_entry (server_pin_path dir) (file (pin_of_spki pins server.spki ++ (10 ∷ [])) cert_mode) (
        put_entry (fullchain_path dir)
          (file (crypto.cert_pem (server_cert crypto server days now)) cert_mode) fs))

  write_server_files_lem :
      (fs : FileSystem)
      → IsFree (fullchain_path dir) fs
      → IsFree (privkey_path dir) fs
      → IsFree (server_pin_path dir) fs
      → write_server_files crypto pins server days now dir fs
        ≡ (pinned (pin_of_spki pins server.spki), with_server_files fs)
  unfolding write_server_files on_server_file write_file write_new text_eq
  write_server_files_lem fs cert key pin = ground arith

  entries-with_server_files :
      (fs : FileSystem)
      → let written = (with_server_files fs).entries in
        (written (fullchain_path dir)
          ≡ some (file (crypto.cert_pem (server_cert crypto server days now)) cert_mode))
        × (written (server_pin_path dir)
            ≡ some (file (pin_of_spki pins server.spki ++ (10 ∷ [])) cert_mode))
        × (written (privkey_path dir) ≡ some (file (crypto.key_pem server.key) key_mode))
  unfolding text_eq
  entries-with_server_files fs = (
    ground (arith, text_eq_refl dir),
    ground (arith, text_eq_refl dir),
    ground (arith, text_eq_refl dir),
  )

  generate_cert-on_days :
      (fs : FileSystem)
      → IsServerReady dir days fs
      → generate_cert crypto pins server now (natural days) dir fs
        ≡ in_directory crypto pins server days now dir (create_or_validate_directory dir fs) fs
  unfolding generate_cert validate_server_days on_days
  generate_cert-on_days fs ready =
      ground
        (arith, ready.cert_free, ready.key_free, ready.pin_free, ready.one_day, ready.ten_years)

  generate_cert-with_server_files :
      (fs after : FileSystem)
      → IsServerReady dir days fs
      → IsPrepared dir fs after
      → generate_cert crypto pins server now (natural days) dir fs
        ≡ (pinned (pin_of_spki pins server.spki), with_server_files after)
  unfolding in_directory
  generate_cert-with_server_files fs after ready p =
      let free : (path : FilePath) → IsFree path fs → IsFree path after = λ path f. (
        ap (λ (e : FilePath → Option Node). e path) p.same_entries ∙ f.0,
        ap (λ (e : FilePath → Bool). e path) p.same_denied ∙ f.1,
      ) in
      generate_cert-on_days fs ready
      ∙ ap (λ c. in_directory crypto pins server days now dir c fs) p.made
      ∙ write_server_files_lem after (free _ ready.cert_free) (free _ ready.key_free)
          (free _ ready.pin_free)

-- What a successful run leaves, and what the pin in its file is good for.
pub record HasServerCert (crypto : Cryptography) (pins : PinLibrary) (server : ServerKey)
    (now days : ℕ) (dir : Text) (r : CertEnded) : Type 0 where
  pub outcome : r.0 ≡ pinned (pin_of_spki pins server.spki)
  pub cert_file :
      r.1.entries (fullchain_path dir)
      ≡ some (file (crypto.cert_pem (server_cert crypto server days now)) cert_mode)
  pub key_file : r.1.entries (privkey_path dir) ≡ some (file (crypto.key_pem server.key) key_mode)
  pub pin_text : Text
  pub pin_file : r.1.entries (server_pin_path dir) ≡ some (file pin_text cert_mode)
  pub pin : Text
  pub accepted : normalize_server_pin pins pin_text ≡ ok pin
  pub trusted :
      (presented : Option Text)
      → (check_certificate pins pin presented ≡ ok tt)
        ↔ Presents pins (pins.sha256 server.spki) presented

-- In a usable directory without the three files, for 1 to 3650 days, the script generates them: the
-- certificate, the private key, which only its owner may read, and the pin. The client takes the pin
-- as it stands in the file, and with it goes on exactly with a server that presents a certificate whose
-- key has the hash of the generated key.
pub generate_cert-HasServerCert :
    (crypto : Cryptography) (pins : PinLibrary) (server : ServerKey) (now days : ℕ) (dir : Text)
    (fs : FileSystem)
    → IsPinLibrary pins
    → IsServerReady dir days fs
    → HasServerCert crypto pins server now days dir
        (generate_cert crypto pins server now (natural days) dir fs)
unfolding pin_of_spki
generate_cert-HasServerCert crypto pins server now days dir fs laws ready =
    let (after, p) = prepare dir fs ready.usable in
    let run = generate_cert-with_server_files crypto pins server now days dir fs after ready p in
    let (cert, pin, key) = entries-with_server_files crypto pins server now days dir after in
    let hash = pins.sha256 server.spki in
    rw run (record {
      outcome = refl;
      cert_file = cert;
      key_file = key;
      pin_text = pin_of_spki pins server.spki ++ (10 ∷ []);
      pin_file = pin;
      pin = pin_of_spki pins server.spki;
      accepted = normalize_server_pin-pin_file pins laws server.spki;
      trusted = λ presented. (
        accepted_sound pins laws.b64decode-b64encode (pin_of_spki pins server.spki) hash refl
            presented,
        accepted_complete pins laws.b64decode-b64encode (pin_of_spki pins server.spki) hash refl
            presented,
      );
    })
