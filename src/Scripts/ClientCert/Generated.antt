-- ===== src/Scripts/ClientCert/Generated.antt =====
-- What `_generate_client_auth_artifacts` makes passes `validate_client_auth_artifacts`.
use vibe_voice_vendor.Base.{
  any, is_surrogate, Bool-cases, ℕ, ◌+◌, ◌*◌, ◌≤◌, ◌<◌, ◌≡◌, ◌≢◌, refl, ◌∙◌, ap, ◌⊎◌, inl, inr,
  Bool, true, false, Option, none, some, [], ◌∷◌, Text, text_eq, text_eq_iff, text_eq_refl, arith,
  ok, ◌>>◌,
}
use vibe_voice_vendor.Disk.{FilePath, path_eq}
use vibe_voice_vendor.Scripts.{
  Node, file, directory, FileSystem, cert_mode, key_mode, dir_mode, validate_directory,
  validate_file, make_directory, write_file, put_dir, put_entry,
}
use vibe_voice_vendor.Scripts.Material.{
  Certificate, Cryptography, secp256r1, sha256, client_auth, Contents,
}
use vibe_voice_vendor.Scripts.Material.Accepted.{IsMaterial, validate_material-eq-ok_iff}
use vibe_voice_vendor.Scripts.ClientCert.{
  client_ca_path, client_cert_path, client_key_path, validate_client_auth_artifacts, is_control,
  utf8_length, validate_subject, validate_days, generated, created, validated, make_and_validate,
  create_or_validate_directory, Generation, seconds_per_day, ca_contents, client_contents, signed,
  Ended, finish, then_write, write_and_validate, on_name, on_directories, create_both, on_checked,
  generate_client_auth_artifacts,
}

-- The directory is there as it should be, or can be made.
abbrev pub IsUsable : Text → FileSystem → Type 0
IsUsable d fs =
    (fs.dirs d ≡ some (directory dir_mode)) ⊎ ((fs.dirs d ≡ none) × (fs.denied_dirs d ≡ false))

abbrev pub IsFree : FilePath → FileSystem → Type 0
IsFree p fs = (fs.entries p ≡ none) × (fs.denied p ≡ false)

-- What the generation relies on: of the arguments, the file system, the keys and the clock.
pub record IsReady (crypto : Cryptography) (certs keys : Text) (g : Generation) (name : Text)
    (fs : FileSystem) : Type 0 where
  pub certs_usable : IsUsable certs fs
  pub keys_usable : IsUsable keys fs
  pub ca_free : IsFree (client_ca_path certs) fs
  pub cert_free : IsFree (client_cert_path keys) fs
  pub key_free : IsFree (client_key_path keys) fs
  pub subject_given : g.subject ≢ []
  pub encodable : any is_surrogate g.subject ≡ false
  pub short : utf8_length g.subject ≤ 256
  pub printable : any is_control g.subject ≡ false
  pub one_day : 1 ≤ g.days
  pub ten_years : g.days ≤ 3650
  pub accepted_name : crypto.name_attribute g.subject ≡ some name
  pub ca_curve : (crypto.public_key g.ca_key).curve ≡ some secp256r1
  pub client_curve : (crypto.public_key g.client_key).curve ≡ some secp256r1
  pub key_curve : g.client_key.curve ≡ some secp256r1
  pub begun : g.now ≤ g.later + 60
  pub not_over : g.later < g.now + g.days * seconds_per_day

abbrev pub ca_of : Cryptography → Generation → Certificate
ca_of crypto g = signed crypto g.ca_key (ca_contents crypto g)

abbrev pub client_of : Cryptography → Generation → Text → Certificate
client_of crypto g name = signed crypto g.ca_key (client_contents crypto g name)

-- What the generation relies on of the package: what it prints it reads, and what a key signs its
-- public key verifies.
pub record IsCryptography (crypto : Cryptography) (g : Generation) (name : Text) : Type 0 where
  pub reads_ca : crypto.load_cert (crypto.cert_pem (ca_of crypto g)) ≡ some (ca_of crypto g)
  pub reads_client :
      crypto.load_cert (crypto.cert_pem (client_of crypto g name)) ≡ some (client_of crypto g name)
  pub reads_key : crypto.load_key (crypto.key_pem g.client_key) ≡ some g.client_key
  pub verify-sign :
      (c : Contents)
      → crypto.verify (crypto.public_key g.ca_key) (crypto.sign g.ca_key c) sha256 c ≡ true

-- The file system after the generation.
abbrev pub with_files : Cryptography → Text → Text → Generation → Text → FileSystem → FileSystem
with_files crypto certs keys g name fs =
    put_entry (client_key_path keys) (file (crypto.key_pem g.client_key) key_mode) (
      put_entry (client_cert_path keys) (file (crypto.cert_pem (client_of crypto g name)) cert_mode)
        (put_entry (client_ca_path certs) (file (crypto.cert_pem (ca_of crypto g)) cert_mode) fs))

pub record IsPrepared (d : Text) (fs after : FileSystem) : Type 0 where
  pub made : create_or_validate_directory d fs ≡ created after
  pub here : after.dirs d ≡ some (directory dir_mode)
  pub dirs_kept : (k : Text) (n : Node) → fs.dirs k ≡ some n → after.dirs k ≡ some n
  pub usable_kept : (k : Text) → IsUsable k fs → IsUsable k after
  pub same_entries : after.entries ≡ fs.entries
  pub same_denied : after.denied ≡ fs.denied

put_dir-IsUsable :
    (d : Text) (fs : FileSystem) (k : Text)
    → IsUsable k fs
    → IsUsable k (put_dir d (directory dir_mode) fs)
put_dir-IsUsable d fs k u = elim (Bool-cases (text_eq k d)) [
  | inl b ↦ inl (rw b refl)
  | inr b ↦ rw b u
]

pub prepare :
    (d : Text) (fs : FileSystem) → IsUsable d fs → (after : FileSystem) × IsPrepared d fs after
unfolding create_or_validate_directory make_directory validate_directory make_and_validate validated
prepare d fs (inl there) = (
  fs,
  record {
    made = rw there refl;
    here = there;
    dirs_kept = λ k n e. e;
    usable_kept = λ k u. u;
    same_entries = refl;
    same_denied = refl;
  },
)
prepare d fs (inr (absent, allowed)) = (
  put_dir d (directory dir_mode) fs,
  record {
    made = ground (arith, absent, allowed, text_eq_refl d);
    here = rw (text_eq_refl d) refl;
    dirs_kept = λ k n e. ground (arith, e, absent, text_eq_iff k d, ap fs.dirs);
    usable_kept = put_dir-IsUsable d fs;
    same_entries = refl;
    same_denied = refl;
  },
)

module _ (crypto : Cryptography) (certs keys : Text) (g : Generation) (name : Text) where
  generated-IsMaterial :
      (fs : FileSystem)
      → IsCryptography crypto g name
      → IsReady crypto certs keys g name fs
      → (t : ℕ) → g.now ≤ t + 60
      → t < g.now + g.days * seconds_per_day
      → IsMaterial crypto t
          (crypto.cert_pem (ca_of crypto g))
          (crypto.cert_pem (client_of crypto g name))
          (crypto.key_pem g.client_key)
  unfolding text_eq
  generated-IsMaterial fs laws ready t begun not_over = record {
    ca = ca_of crypto g;
    client = client_of crypto g name;
    key = g.client_key;
    ca_read = laws.reads_ca;
    client_read = laws.reads_client;
    key_read = laws.reads_key;
    ca_curve = ready.ca_curve;
    client_curve = ready.client_curve;
    key_curve = ready.key_curve;
    key_matches = refl;
    ca_valid = record { begun = begun; not_over = not_over };
    client_valid = record { begun = begun; not_over = not_over };
    authority = record {
      is_root = refl;
      usage = record { digital_signature = false; key_cert_sign = true; crl_sign = true };
      has_usage = refl;
      signs_certs = refl;
      signs_lists = refl;
      self_signed = record {
        algorithm = sha256;
        has_algorithm = refl;
        verifies = laws.verify-sign (ca_contents crypto g);
      };
    };
    client_of = record {
      issued = refl;
      signed = record {
        algorithm = sha256;
        has_algorithm = refl;
        verifies = laws.verify-sign (client_contents crypto g name);
      };
      basic = record { ca = false; path_length = none };
      has_basic = refl;
      no_authority = refl;
      usage = record { digital_signature = true; key_cert_sign = false; crl_sign = false };
      has_usage = refl;
      signs = refl;
      no_certs = refl;
      no_lists = refl;
      purposes = client_auth ∷ [];
      has_purposes = refl;
      for_clients = refl;
    };
  }

  -- The three files are read back from where they were written.
  entries-with_files :
      (fs : FileSystem)
      → let written = (with_files crypto certs keys g name fs).entries in
        (written (client_ca_path certs) ≡ some (file (crypto.cert_pem (ca_of crypto g)) cert_mode))
        × (written (client_cert_path keys)
            ≡ some (file (crypto.cert_pem (client_of crypto g name)) cert_mode))
        × (written (client_key_path keys) ≡ some (file (crypto.key_pem g.client_key) key_mode))
  unfolding text_eq
  entries-with_files fs = (
    ground (arith, text_eq_refl certs),
    ground (arith, text_eq_refl keys),
    ground (arith, text_eq_refl keys),
  )

  validate-with_files :
      (fs : FileSystem) (t : ℕ)
      → fs.dirs certs ≡ some (directory dir_mode)
      → fs.dirs keys ≡ some (directory dir_mode)
      → IsMaterial crypto t
          (crypto.cert_pem (ca_of crypto g))
          (crypto.cert_pem (client_of crypto g name))
          (crypto.key_pem g.client_key)
      → validate_client_auth_artifacts crypto t certs keys (with_files crypto certs keys g name fs)
        ≡ ok tt
  unfolding validate_client_auth_artifacts validate_directory validate_file
  validate-with_files fs t c k w =
      let (a, b, d) = entries-with_files fs in
      let passed = (validate_material-eq-ok_iff crypto t _ _ _).1 w in
      rw (c, k, a, b, d, passed) refl

  write_and_validate-with_files :
      (fs : FileSystem)
      → IsFree (client_ca_path certs) fs
      → IsFree (client_cert_path keys) fs
      → IsFree (client_key_path keys) fs
      → write_and_validate crypto certs keys g name fs
        ≡ finish
            (validate_client_auth_artifacts crypto g.later certs keys
              (with_files crypto certs keys g name fs))
            (with_files crypto certs keys g name fs)
  unfolding write_and_validate then_write write_file text_eq
  write_and_validate-with_files fs ca cert key = ground arith

  on_checked-eq :
      (fs : FileSystem)
      → IsReady crypto certs keys g name fs
      → validate_subject g.subject >> validate_days g.days ≡ ok tt
  unfolding validate_subject validate_days
  on_checked-eq fs ready = ground (arith, text_eq_iff g.subject [])

  -- The run, up to the directories.
  generate-create_both :
      (fs : FileSystem)
      → IsReady crypto certs keys g name fs
      → generate_client_auth_artifacts crypto certs keys g fs
        ≡ create_both crypto certs keys g (create_or_validate_directory certs fs) fs
  unfolding generate_client_auth_artifacts on_checked
  generate-create_both fs ready = ground (arith, on_checked-eq fs ready)

  -- The run, up to the file system with both directories.
  generate-with_files :
      (fs one two : FileSystem)
      → IsCryptography crypto g name
      → IsReady crypto certs keys g name fs
      → IsPrepared certs fs one
      → IsPrepared keys one two
      → generate_client_auth_artifacts crypto certs keys g fs
        ≡ (generated, with_files crypto certs keys g name two)
  generate-with_files fs one two laws ready p q =
      let entries : two.entries ≡ fs.entries = q.same_entries ∙ p.same_entries in
      let denied : two.denied ≡ fs.denied = q.same_denied ∙ p.same_denied in
      let free : (path : FilePath) → IsFree path fs → IsFree path two = λ path f. (
        ap (λ (e : FilePath → Option Node). e path) entries ∙ f.0,
        ap (λ (e : FilePath → Bool). e path) denied ∙ f.1,
      ) in
      let passed =
        validate-with_files two g.later (q.dirs_kept certs (directory dir_mode) p.here) q.here
          (generated-IsMaterial fs laws ready g.later ready.begun ready.not_over) in
      let made : create_both crypto certs keys g (created one) fs
          ≡ on_directories crypto certs keys g (created two) one =
        unfold create_both in ap (λ c. on_directories crypto certs keys g c one) q.made in
      let named : on_directories crypto certs keys g (created two) one
          ≡ write_and_validate crypto certs keys g name two =
        unfold on_directories in
        ap (λ n. on_name crypto certs keys g n two) ready.accepted_name ∙ unfold on_name in refl in
      let done = with_files crypto certs keys g name two in
      let finished : finish (validate_client_auth_artifacts crypto g.later certs keys done) done
          ≡ (generated, done) =
        unfold finish in rw passed refl in
      generate-create_both fs ready
      ∙ ap (λ c. create_both crypto certs keys g c fs) p.made
      ∙ made
      ∙ named
      ∙ write_and_validate-with_files two (free _ ready.ca_free) (free _ ready.cert_free)
          (free _ ready.key_free)
      ∙ finished

-- The files that a successful run leaves.
pub record HasGenerated (crypto : Cryptography) (certs keys : Text) (g : Generation)
    (fs : FileSystem) (r : Ended) : Type 0 where
  pub is_generated : r.0 ≡ generated
  pub valid :
      (t : ℕ)
      → g.now ≤ t + 60
      → t < g.now + g.days * seconds_per_day
      → validate_client_auth_artifacts crypto t certs keys r.1 ≡ ok tt
  pub private :
      r.1.entries (client_key_path keys) ≡ some (file (crypto.key_pem g.client_key) key_mode)
  pub others :
      (p : FilePath)
      → path_eq p (client_ca_path certs) ≡ false
      → path_eq p (client_cert_path keys) ≡ false
      → path_eq p (client_key_path keys) ≡ false
      → r.1.entries p ≡ fs.entries p

-- With arguments in their ranges, usable directories, none of the three files there, keys on the curve
-- and a package that reads what it prints and verifies what it signs, the script generates the files:
-- they pass the script's own check, then and at any time from a minute before their start until their
-- end; the key is private to its owner; and every other file is as it was.
pub generate-HasGenerated :
    (crypto : Cryptography) (certs keys : Text) (g : Generation) (name : Text) (fs : FileSystem)
    → IsCryptography crypto g name
    → IsReady crypto certs keys g name fs
    → HasGenerated crypto certs keys g fs (generate_client_auth_artifacts crypto certs keys g fs)
generate-HasGenerated crypto certs keys g name fs laws ready =
    let (one, p) = prepare certs fs ready.certs_usable in
    let (two, q) = prepare keys one (p.usable_kept keys ready.keys_usable) in
    let run = generate-with_files crypto certs keys g name fs one two laws ready p q in
    let all = entries-with_files crypto certs keys g name two in
    rw run (record {
      is_generated = refl;
      valid = λ t b e.
          validate-with_files crypto certs keys g name two t
            (q.dirs_kept certs (directory dir_mode) p.here) q.here
            (generated-IsMaterial crypto certs keys g name fs laws ready t b e);
      private = all.2;
      others = λ f a b c.
          rw (a, b, c) (ap (λ (e : FilePath → Option Node). e f) (q.same_entries ∙ p.same_entries));
    })
