-- ===== src/Scripts/Bundle/Written.antt =====
-- A bundle that the script writes: its texts are those of the files, with one kind of line end, they
-- are valid together, and they are kept private.
use vibe_voice_vendor.Base.{
  map_error, map_error_passed, ℕ, Bool, ◌≡◌, refl, sym, ap, ◌∙◌, ◌||◌, not, Option, none, some,
  true, false, subst, Text, arith, any, starts_with, ends_with, ok, raise_if, ◌==◌, bind_passed,
  guard_passed,
}
use vibe_voice_vendor.Disk.{FilePath}
use vibe_voice_vendor.Client.Address.{normalize_base_url}
use vibe_voice_vendor.Client.Pin.{normalize_server_pin, IsPin, normalize_server_pin-IsPin}
use vibe_voice_vendor.Scripts.{
  Node, file, directory, symlink, FileSystem, wrong_mode, cert_mode, key_mode, put_entry,
  validate_file, write_new, write_file,
}
use vibe_voice_vendor.Scripts.Material.{validate_material}
use vibe_voice_vendor.Scripts.Material.Accepted.{IsMaterial, validate_material-eq-ok_iff}
use vibe_voice_vendor.Scripts.Bundle.{
  bad_url, bad_pin, no_block, not_ascii, bad_material, bad_path, ClientBundle, Libraries,
  BundlePaths, is_not_ascii, newlines, certificate_label, private_key_label, begin_line, end_line,
  pem_text, normalize_pem_block, build_client_bundle, read_text, check_parent, written_or_raise,
  write_private_json, write_client_bundle_file,
}

validate_file-IsFile :
    (mode : ℕ) (node : Option Node) (contents : Text)
    → validate_file mode node ≡ ok contents
    → node ≡ some (file contents mode)
unfolding validate_file
validate_file-IsFile mode none contents h = ground arith
validate_file-IsFile mode (some (symlink leads)) contents h = ground arith
validate_file-IsFile mode (some (directory m)) contents h = ground arith
validate_file-IsFile mode (some (file t m)) contents h =
    let (same, h1) = guard_passed (raise_if (not (m == mode)) (wrong_mode m mode)) h in ground arith

-- A file of ASCII text that has the mode, and its text as it is read.
pub record IsRead (mode : ℕ) (node : Option Node) (text : Text) : Type 0 where
  pub raw : Text
  pub is_file : node ≡ some (file raw mode)
  pub ascii : any is_not_ascii raw ≡ false
  pub is_text : text ≡ newlines false raw

read_text-IsRead :
    (mode : ℕ) (node : Option Node) (text : Text)
    → read_text mode node ≡ ok text
    → IsRead mode node text
unfolding read_text
read_text-IsRead mode node text h =
    let (raw, read, h1) = bind_passed (map_error bad_path (validate_file mode node)) h in
    let (ascii, h2) = guard_passed (raise_if (any is_not_ascii raw) not_ascii) h1 in
    record {
      raw = raw;
      is_file =
          validate_file-IsFile mode node raw
            (map_error_passed bad_path (validate_file mode node) read);
      ascii = ground arith;
      is_text = ground arith;
    }

-- ASCII text that begins and ends as a block with the label does; there may be other blocks in it.
pub record IsBlock (label raw text : Text) : Type 0 where
  pub is_text : text ≡ pem_text raw
  pub begins : starts_with text (begin_line label) ≡ true
  pub ends : ends_with text (end_line label) ≡ true
  pub ascii : any is_not_ascii text ≡ false

normalize_pem_block-IsBlock :
    (raw label text : Text) → normalize_pem_block raw label ≡ ok text → IsBlock label raw text
unfolding normalize_pem_block
normalize_pem_block-IsBlock raw label text h =
    let (framed, h1) =
      guard_passed
        (raise_if
          (not (starts_with (pem_text raw) (begin_line label))
            || not (ends_with (pem_text raw) (end_line label)))
          (no_block label))
        h in
    let (ascii, h2) = guard_passed (raise_if (any is_not_ascii (pem_text raw)) not_ascii) h1 in
    let same : text ≡ pem_text raw = ground arith in
    record {
      is_text = same;
      begins = ap (λ t. starts_with t (begin_line label)) same ∙ ground arith;
      ends = ap (λ t. ends_with t (end_line label)) same ∙ ground arith;
      ascii = ap (any is_not_ascii) same ∙ ground arith;
    }

-- What a bundle holds, of the texts that were read.
pub record IsBuilt (lib : Libraries) (now : ℕ) (url pin ca_text client_text key_text : Text)
    (bundle : ClientBundle) : Type 0 where
  pub normal_url : normalize_base_url lib.urlparse url ≡ ok bundle.server_url
  pub hash : Text
  pub normal_pin : IsPin lib.pins pin bundle.server_spki_pin hash
  pub certificate : IsBlock certificate_label client_text bundle.client_certificate_pem
  pub private_key : IsBlock private_key_label key_text bundle.client_private_key_pem
  pub ca_certificate : IsBlock certificate_label ca_text (pem_text ca_text)
  pub material :
      IsMaterial lib.crypto now
        (pem_text ca_text)
        bundle.client_certificate_pem
        bundle.client_private_key_pem

build_client_bundle-IsBuilt :
    (lib : Libraries) (now : ℕ) (url pin ca_text client_text key_text : Text)
    (bundle : ClientBundle)
    → build_client_bundle lib now url pin ca_text client_text key_text ≡ ok bundle
    → IsBuilt lib now url pin ca_text client_text key_text bundle
unfolding build_client_bundle
build_client_bundle-IsBuilt lib now url pin ca_text client_text key_text bundle h =
    let (normal_url, a, h1) =
      bind_passed (map_error bad_url (normalize_base_url lib.urlparse url)) h in
    let (normal_pin, b, h2) =
      bind_passed (map_error bad_pin (normalize_server_pin lib.pins pin)) h1 in
    let (certificate, c, h3) = bind_passed (normalize_pem_block client_text certificate_label) h2 in
    let (private_key, d, h4) = bind_passed (normalize_pem_block key_text private_key_label) h3 in
    let (ca, e, h5) = bind_passed (normalize_pem_block ca_text certificate_label) h4 in
    let (f, h6) =
      guard_passed
        (map_error bad_material (validate_material lib.crypto now ca certificate private_key)) h5 in
    let (hash, is_pin) =
      normalize_server_pin-IsPin lib.pins pin normal_pin (map_error_passed bad_pin _ b) in
    let is_ca = normalize_pem_block-IsBlock ca_text certificate_label ca e in
    let url_is : normal_url ≡ bundle.server_url = ground arith in
    let pin_is : normal_pin ≡ bundle.server_spki_pin = ground arith in
    let certificate_is : certificate ≡ bundle.client_certificate_pem = ground arith in
    let key_is : private_key ≡ bundle.client_private_key_pem = ground arith in
    record {
      normal_url = map_error_passed bad_url _ a ∙ ap ok url_is;
      hash = hash;
      normal_pin = subst (λ t. IsPin lib.pins pin t hash) pin_is is_pin;
      certificate =
          subst (IsBlock certificate_label client_text) certificate_is
            (normalize_pem_block-IsBlock client_text certificate_label certificate c);
      private_key =
          subst (IsBlock private_key_label key_text) key_is
            (normalize_pem_block-IsBlock key_text private_key_label private_key d);
      ca_certificate = subst (IsBlock certificate_label ca_text) is_ca.is_text is_ca;
      material =
          subst
            (λ t.
              IsMaterial lib.crypto now t bundle.client_certificate_pem
                bundle.client_private_key_pem)
            is_ca.is_text
            (subst (λ t. IsMaterial lib.crypto now ca t bundle.client_private_key_pem)
              certificate_is
              (subst (IsMaterial lib.crypto now ca certificate) key_is (
                (validate_material-eq-ok_iff lib.crypto now ca certificate private_key).0
                  (map_error_passed bad_material _ f))));
    }

-- `write_private_json` has made one private file.
pub record IsWritten (lib : Libraries) (path : FilePath) (bundle : ClientBundle)
    (fs written : FileSystem) : Type 0 where
  pub parent_mode : ℕ
  pub has_parent : fs.dirs path.directory ≡ some (directory parent_mode)
  pub was_free : fs.entries path ≡ none
  pub is_private : written ≡ put_entry path (file (lib.dumps bundle) key_mode) fs

check_parent-is_directory :
    (node : Option Node) → check_parent node ≡ ok tt → (mode : ℕ) × (node ≡ some (directory mode))
unfolding check_parent
check_parent-is_directory none h = ground arith
check_parent-is_directory (some (symlink leads)) h = ground arith
check_parent-is_directory (some (file contents mode)) h = ground arith
check_parent-is_directory (some (directory mode)) h = (mode, refl)

write_new-inversion :
    (old : Option Node) (denied : Bool) (path : FilePath) (node : Node) (fs written : FileSystem)
    → written_or_raise (write_new old denied path node fs) ≡ ok written
    → (old ≡ none) × (written ≡ put_entry path node fs)
unfolding write_new written_or_raise
write_new-inversion (some old) denied path node fs written h = ground arith
write_new-inversion none true path node fs written h = ground arith
write_new-inversion none false path node fs written h = (refl, ground arith)

write_private_json-IsWritten :
    (lib : Libraries) (path : FilePath) (bundle : ClientBundle) (fs written : FileSystem)
    → write_private_json lib.dumps path bundle fs ≡ ok written
    → IsWritten lib path bundle fs written
unfolding write_private_json write_file
write_private_json-IsWritten lib path bundle fs written h =
    let (a, h1) = guard_passed (map_error bad_path (check_parent (fs.dirs path.directory))) h in
    let (mode, has_parent) = check_parent-is_directory _ (map_error_passed bad_path _ a) in
    let (was_free, is_private) =
      write_new-inversion (fs.entries path) (fs.denied path) path (file (lib.dumps bundle) key_mode)
        fs written h1 in
    record {
      parent_mode = mode;
      has_parent = has_parent;
      was_free = was_free;
      is_private = is_private;
    }

-- A bundle that was made of the files.
pub record IsBundle (lib : Libraries) (now : ℕ) (url : Text) (paths : BundlePaths) (fs : FileSystem)
    (bundle : ClientBundle) (written : FileSystem) : Type 0 where
  pub pin : Text
  pub ca_text : Text
  pub client_text : Text
  pub key_text : Text
  pub pin_read : IsRead cert_mode (fs.entries paths.server_spki_pin) pin
  pub ca_read : IsRead cert_mode (fs.entries paths.client_ca_certificate) ca_text
  pub client_read : IsRead cert_mode (fs.entries paths.client_certificate) client_text
  pub key_read : IsRead key_mode (fs.entries paths.client_private_key) key_text
  pub built : IsBuilt lib now url pin ca_text client_text key_text bundle
  pub is_written : IsWritten lib paths.output bundle fs written

-- If the script writes a bundle, then the URL and the pin in it are the normal forms of those given;
-- its certificate and its private key are the texts of their files, without the white space around them,
-- which begin and end as a PEM block of their kind does, with "\n" for line ends,
-- where the key's file has mode 0600 and the others 0644; they match each other, are valid at that
-- time and the certificate is of the authority whose file was given; and the one change to the file
-- system is a new file with the printed bundle and mode 0600, where nothing stood.
pub write_client_bundle_file-IsBundle :
    (lib : Libraries) (now : ℕ) (url : Text) (paths : BundlePaths) (fs : FileSystem)
    (bundle : ClientBundle) (written : FileSystem)
    → write_client_bundle_file lib now url paths fs ≡ ok (bundle, written)
    → IsBundle lib now url paths fs bundle written
unfolding write_client_bundle_file
write_client_bundle_file-IsBundle lib now url paths fs bundle written h =
    let (pin, a, h1) = bind_passed (read_text cert_mode (fs.entries paths.server_spki_pin)) h in
    let (ca, b, h2) =
      bind_passed (read_text cert_mode (fs.entries paths.client_ca_certificate)) h1 in
    let (client, c, h3) =
      bind_passed (read_text cert_mode (fs.entries paths.client_certificate)) h2 in
    let (key, d, h4) = bind_passed (read_text key_mode (fs.entries paths.client_private_key)) h3 in
    let (made, e, h5) = bind_passed (build_client_bundle lib now url pin ca client key) h4 in
    let (after, f, h6) = bind_passed (write_private_json lib.dumps paths.output made fs) h5 in
    let made_is : made ≡ bundle = ground arith in
    let after_is : after ≡ written = ground arith in
    record {
      pin = pin;
      ca_text = ca;
      client_text = client;
      key_text = key;
      pin_read = read_text-IsRead _ _ pin a;
      ca_read = read_text-IsRead _ _ ca b;
      client_read = read_text-IsRead _ _ client c;
      key_read = read_text-IsRead _ _ key d;
      built = build_client_bundle-IsBuilt lib now url pin ca client key bundle (e ∙ ap ok made_is);
      is_written = write_private_json-IsWritten lib paths.output bundle fs written (
          ap (λ b. write_private_json lib.dumps paths.output b fs) (sym made_is)
          ∙ f
          ∙ ap ok after_is);
    }
