-- ===== src/Scripts/Bundle.antt =====
-- scripts/generate_client_bundle.py: the one-file bundle for the Android client. The libraries and the
-- clock's reading are arguments; so is `json.dumps` of a bundle with the line end behind it.
pub mod Written
pub mod Tests
use vibe_voice_vendor.Base.{
  ℕ, ◌&&◌, Bool, true, false, not, ◌||◌, Option, none, some, List, [], ◌∷◌, ◌++◌, Text, codes, ◌==◌,
  leb, if◌then◌else◌, any, strip, starts_with, ends_with, Result, ok, err, raise_if, map_error,
  ◌>>=◌, ◌>>◌,
}
use vibe_voice_vendor.Disk.{FilePath}
use vibe_voice_vendor.Client.Address.{ParsedUrl, UrlError, normalize_base_url}
use vibe_voice_vendor.Client.Pin.{PinLibrary, PinError, normalize_server_pin}
use vibe_voice_vendor.Scripts.{
  Node, file, directory, symlink, FileSystem, PathError, is_symlink, not_directory, cert_mode,
  key_mode, validate_file, write_file,
}
use vibe_voice_vendor.Scripts.Material.{Cryptography, MaterialError, validate_material}

-- `UnicodeError`s are `not_ascii`; `not_written` is the refusal to overwrite, or another OSError.
pub data BundleError : Type 0 where
  bad_url : UrlError → BundleError
  bad_pin : PinError → BundleError
  no_block : Text → BundleError
  not_ascii : BundleError
  bad_material : MaterialError → BundleError
  bad_path : PathError → BundleError
  not_written : BundleError

pub record ClientBundle : Type 0 where
  pub bundle_type : Text
  pub version : ℕ
  pub server_url : Text
  pub server_spki_pin : Text
  pub client_certificate_pem : Text
  pub client_private_key_pem : Text

pub record Libraries : Type 0 where
  pub urlparse : Text → Option ParsedUrl
  pub pins : PinLibrary
  pub crypto : Cryptography
  pub dumps : ClientBundle → Text

-- Where the script reads and writes.
pub record BundlePaths : Type 0 where
  pub output : FilePath
  pub server_spki_pin : FilePath
  pub client_ca_certificate : FilePath
  pub client_certificate : FilePath
  pub client_private_key : FilePath

abbrev pub is_not_ascii : ℕ → Bool
is_not_ascii c = leb 128 c

-- "\r\n" and "\r" become "\n": the two calls of `replace`, and what `read_text` does. The flag says
-- that a "\r" stands before the text.
unfoldable pub newlines : Bool → Text → Text
newlines after_cr [] = []
newlines after_cr (c ∷ s) =
    let rest = newlines (c == 13) s in
    if c == 13 then 10 ∷ rest else if c == 10 && after_cr then rest else c ∷ rest

abbrev pub certificate_label : Text
certificate_label = codes "CERTIFICATE"

abbrev pub private_key_label : Text
private_key_label = codes "PRIVATE KEY"

abbrev pub begin_line : Text → Text
begin_line label = codes "-----BEGIN " ++ label ++ codes "-----" ++ (10 ∷ [])

abbrev pub end_line : Text → Text
end_line label = codes "-----END " ++ label ++ codes "-----" ++ (10 ∷ [])

abbrev pub pem_text : Text → Text
pem_text raw = newlines false (strip raw) ++ (10 ∷ [])

unfoldable pub normalize_pem_block : Text → Text → Result BundleError Text
unfolding newlines
normalize_pem_block raw label = do
  raise_if
      (not (starts_with (pem_text raw) (begin_line label))
        || not (ends_with (pem_text raw) (end_line label)))
      (no_block label)
  raise_if (any is_not_ascii (pem_text raw)) not_ascii
  ok (pem_text raw)

-- _validate_client_material, whose tests and their order are those of the artifacts' check.
abbrev pub validate_client_material :
    Cryptography → ℕ → Text → Text → Text → Result MaterialError (Unit {0})
validate_client_material crypto now client_pem key_pem ca_pem =
    validate_material crypto now ca_pem client_pem key_pem

unfoldable pub build_client_bundle :
    Libraries → ℕ → Text → Text → Text → Text → Text → Result BundleError ClientBundle
unfolding normalize_pem_block
build_client_bundle lib now url pin ca_pem client_pem key_pem = do
  normalized_url ← map_error bad_url (normalize_base_url lib.urlparse url)
  normalized_pin ← map_error bad_pin (normalize_server_pin lib.pins pin)
  certificate ← normalize_pem_block client_pem certificate_label
  private_key ← normalize_pem_block key_pem private_key_label
  ca_certificate ← normalize_pem_block ca_pem certificate_label
  map_error bad_material
      (validate_client_material lib.crypto now certificate private_key ca_certificate)
  ok (record {
    bundle_type = codes "vvv-client-config";
    version = 1;
    server_url = normalized_url;
    server_spki_pin = normalized_pin;
    client_certificate_pem = certificate;
    client_private_key_pem = private_key;
  })

-- _read_public_text and _read_private_text, by the mode that is expected
unfoldable pub read_text : ℕ → Option Node → Result BundleError Text
unfolding newlines
read_text mode node = do
  raw ← map_error bad_path (validate_file mode node)
  raise_if (any is_not_ascii raw) not_ascii
  ok (newlines false raw)

unfoldable pub check_parent : Option Node → Result PathError (Unit {0})
check_parent none = err not_directory
check_parent (some (symlink leads)) = err is_symlink
check_parent (some (file contents mode)) = err not_directory
check_parent (some (directory mode)) = ok tt

unfoldable pub written_or_raise : Option FileSystem → Result BundleError FileSystem
written_or_raise none = err not_written
written_or_raise (some fs) = ok fs

unfoldable pub write_private_json :
    (ClientBundle → Text) → FilePath → ClientBundle → FileSystem → Result BundleError FileSystem
unfolding check_parent written_or_raise
write_private_json dumps path bundle fs = do
  map_error bad_path (check_parent (fs.dirs path.directory))
  written_or_raise (write_file path (dumps bundle) key_mode fs)

unfoldable pub write_client_bundle_file :
    Libraries → ℕ → Text → BundlePaths → FileSystem → Result BundleError (ClientBundle × FileSystem)
unfolding read_text build_client_bundle write_private_json
write_client_bundle_file lib now url paths fs = do
  pin ← read_text cert_mode (fs.entries paths.server_spki_pin)
  ca_pem ← read_text cert_mode (fs.entries paths.client_ca_certificate)
  client_pem ← read_text cert_mode (fs.entries paths.client_certificate)
  key_pem ← read_text key_mode (fs.entries paths.client_private_key)
  bundle ← build_client_bundle lib now url pin ca_pem client_pem key_pem
  written ← write_private_json lib.dumps paths.output bundle fs
  ok (bundle, written)
