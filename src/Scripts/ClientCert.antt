-- ===== src/Scripts/ClientCert.antt =====
-- scripts/generate_client_cert.py: the client's certificate with its authority, made and checked.
-- The generated keys and the clock's readings are arguments. A result that is a dict with "error", an
-- exception and the dict of paths are three constructors.
pub mod Generated
pub mod Kept
use vibe_voice_vendor.Base.{
  ℕ, ◌+◌, ◌*◌, ◌≡◌, Bool, true, false, not, ◌&&◌, ◌||◌, Option, none, some, List, [], ◌∷◌, Text,
  codes, text_eq, ◌==◌, ltb, leb, if◌then◌else◌, Result, ok, err, raise_if, ◌>>=◌, ◌>>◌, any,
  is_surrogate,
}
use vibe_voice_vendor.Disk.{FilePath}
use vibe_voice_vendor.Scripts.{
  Node, FileSystem, PathError, cert_mode, key_mode, exists, validate_directory, validate_file,
  make_directory, write_file,
}
use vibe_voice_vendor.Scripts.Material.{
  Key, BasicConstraints, KeyUsage, Contents, Certificate, Cryptography, MaterialError,
  extension_not_found, client_auth, sha256, validate_material,
}

abbrev pub client_ca_path : Text → FilePath
client_ca_path certs = record { directory = certs; name = codes "client-ca.pem" }

abbrev pub client_cert_path : Text → FilePath
client_cert_path keys = record { directory = keys; name = codes "client-cert.pem" }

abbrev pub client_key_path : Text → FilePath
client_key_path keys = record { directory = keys; name = codes "client-key.pem" }

-- The messages of the `ValueError`s; `bad_material` may also be another exception of the package.
pub data ClientCertError : Type 0 where
  bad_path : PathError → ClientCertError
  bad_material : MaterialError → ClientCertError
  empty_subject long_subject control_character not_encodable bad_days : ClientCertError

abbrev pub path_result {ℓ} : {A : Type ℓ} → Result PathError A → Result ClientCertError A
path_result (ok a) = ok a
path_result (err e) = err (bad_path e)

abbrev pub material_result : Result MaterialError (Unit {0}) → Result ClientCertError (Unit {0})
material_result (ok u) = ok u
material_result (err e) = err (bad_material e)

unfoldable pub validate_client_auth_artifacts :
    Cryptography → ℕ → Text → Text → FileSystem → Result ClientCertError (Unit {0})
validate_client_auth_artifacts crypto now certs keys fs = do
  path_result (validate_directory (fs.dirs certs))
  path_result (validate_directory (fs.dirs keys))
  ca_pem ← path_result (validate_file cert_mode (fs.entries (client_ca_path certs)))
  client_pem ← path_result (validate_file cert_mode (fs.entries (client_cert_path keys)))
  key_pem ← path_result (validate_file key_mode (fs.entries (client_key_path keys)))
  material_result (validate_material crypto now ca_pem client_pem key_pem)

-- The bytes of a code point in UTF-8.
abbrev pub utf8_width : ℕ → ℕ
utf8_width c = if ltb c 128 then 1 else if ltb c 2048 then 2 else if ltb c 65536 then 3 else 4

unfoldable pub utf8_length : Text → ℕ
utf8_length [] = 0
utf8_length (c ∷ s) = utf8_width c + utf8_length s

abbrev pub is_control : ℕ → Bool
is_control c = ltb c 32 || c == 127

-- A surrogate makes `encode` raise UnicodeEncodeError, which is a ValueError.
unfoldable pub validate_subject : Text → Result ClientCertError (Unit {0})
unfolding utf8_length
validate_subject subject = do
  raise_if (text_eq subject []) empty_subject
  raise_if (any is_surrogate subject) not_encodable
  raise_if (ltb 256 (utf8_length subject)) long_subject
  raise_if (any is_control subject) control_character

unfoldable pub validate_days : ℕ → Result ClientCertError (Unit {0})
validate_days days = raise_if (not (leb 1 days && leb days 3650)) bad_days

-- How a script ends, and the file system that it leaves.
pub data Outcome : Type 0 where
  already_exist : Outcome
  refused : ClientCertError → Outcome
  failed_validation : ClientCertError → Outcome
  generated : Outcome
  os_error value_error extension_error : Outcome

-- What `_create_or_validate_directory` did: went on, a ValueError, or an OSError.
pub data Created : Type 0 where
  created : FileSystem → Created
  invalid : PathError → FileSystem → Created
  not_created : Created

unfoldable pub validated : Result PathError (Unit {0}) → FileSystem → Created
validated (ok u) fs = created fs
validated (err e) fs = invalid e fs

unfoldable pub make_and_validate : Text → Option FileSystem → Created
make_and_validate d none = not_created
make_and_validate d (some fs) = validated (validate_directory (fs.dirs d)) fs

unfoldable pub create_or_validate_directory : Text → FileSystem → Created
unfolding validated make_and_validate
create_or_validate_directory d fs =
    if exists (fs.dirs d)
    then validated (validate_directory (fs.dirs d)) fs
    else make_and_validate d (make_directory d fs)

-- The generated keys, the clock before and after the certificates are written, and the days.
pub record Generation : Type 0 where
  pub ca_key : Key
  pub client_key : Key
  pub subject : Text
  pub days : ℕ
  pub now : ℕ
  pub later : ℕ

abbrev pub seconds_per_day : ℕ
seconds_per_day = 86400

abbrev pub ca_name : Text
ca_name = codes "VVV Client Auth CA"

abbrev pub ca_contents : Cryptography → Generation → Contents
ca_contents crypto g = record {
  subject = ca_name;
  issuer = ca_name;
  public_key = crypto.public_key g.ca_key;
  not_valid_before = g.now;
  not_valid_after = g.now + g.days * seconds_per_day;
  basic_constraints = some (record { ca = true; path_length = some 0 });
  key_usage = some (record { digital_signature = false; key_cert_sign = true; crl_sign = true });
  extended_key_usage = none;
}

abbrev pub client_contents : Cryptography → Generation → Text → Contents
client_contents crypto g subject = record {
  subject = subject;
  issuer = ca_name;
  public_key = crypto.public_key g.client_key;
  not_valid_before = g.now;
  not_valid_after = g.now + g.days * seconds_per_day;
  basic_constraints = some (record { ca = false; path_length = none });
  key_usage = some (record { digital_signature = true; key_cert_sign = false; crl_sign = false });
  extended_key_usage = some (client_auth ∷ []);
}

-- `builder.sign(ca_key, hashes.SHA256())`
abbrev pub signed : Cryptography → Key → Contents → Certificate
signed crypto key c = record {
  contents = c;
  signature = crypto.sign key c;
  signature_hash_algorithm = some sha256;
}

abbrev pub Ended : Type 0
Ended = Outcome × FileSystem

-- The last `try`: ExtensionNotFound is neither an OSError nor a ValueError.
unfoldable pub finish : Result ClientCertError (Unit {0}) → FileSystem → Ended
finish (ok u) fs = (generated, fs)
finish (err (bad_material (extension_not_found label))) fs = (extension_error, fs)
finish (err e) fs = (failed_validation e, fs)

-- One `_write_file` and what follows it.
unfoldable pub on_written : Option FileSystem → (FileSystem → Ended) → FileSystem → Ended
on_written none rest fs = (os_error, fs)
on_written (some written) rest fs = rest written

unfoldable pub then_write : FilePath → Text → ℕ → (FileSystem → Ended) → FileSystem → Ended
unfolding on_written
then_write p contents mode rest fs = on_written (write_file p contents mode fs) rest fs

unfoldable pub write_and_validate :
    Cryptography → Text → Text → Generation → Text → FileSystem → Ended
unfolding then_write finish
write_and_validate crypto certs keys g subject =
    let ca = signed crypto g.ca_key (ca_contents crypto g) in
    let client = signed crypto g.ca_key (client_contents crypto g subject) in
    then_write (client_ca_path certs) (crypto.cert_pem ca) cert_mode (
      then_write (client_cert_path keys) (crypto.cert_pem client) cert_mode (
        then_write (client_key_path keys) (crypto.key_pem g.client_key) key_mode
          (λ fs. finish (validate_client_auth_artifacts crypto g.later certs keys fs) fs)))

-- From the client's name on, which the package may refuse, outside any `try`.
unfoldable pub on_name : Cryptography → Text → Text → Generation → Option Text → FileSystem → Ended
unfolding write_and_validate
on_name crypto certs keys g none fs = (value_error, fs)
on_name crypto certs keys g (some subject) fs = write_and_validate crypto certs keys g subject fs

unfoldable pub on_directories :
    Cryptography → Text → Text → Generation → Created → FileSystem → Ended
unfolding on_name
on_directories crypto certs keys g not_created fs = (os_error, fs)
on_directories crypto certs keys g (invalid e fs') fs = (refused (bad_path e), fs')
on_directories crypto certs keys g (created fs') fs =
    on_name crypto certs keys g (crypto.name_attribute g.subject) fs'

unfoldable pub create_both : Cryptography → Text → Text → Generation → Created → FileSystem → Ended
unfolding on_directories
create_both crypto certs keys g not_created fs = (os_error, fs)
create_both crypto certs keys g (invalid e fs') fs = (refused (bad_path e), fs')
create_both crypto certs keys g (created fs') fs =
    on_directories crypto certs keys g (create_or_validate_directory keys fs') fs'

unfoldable pub on_checked :
    Cryptography → Text → Text → Generation → Result ClientCertError (Unit {0}) → FileSystem → Ended
unfolding create_both
on_checked crypto certs keys g (err e) fs = (refused e, fs)
on_checked crypto certs keys g (ok u) fs =
    create_both crypto certs keys g (create_or_validate_directory certs fs) fs

unfoldable pub generate_client_auth_artifacts :
    Cryptography → Text → Text → Generation → FileSystem → Ended
unfolding on_checked
generate_client_auth_artifacts crypto certs keys g fs =
    if exists (fs.entries (client_ca_path certs))
      || exists (fs.entries (client_cert_path keys))
      || exists (fs.entries (client_key_path keys))
    then (already_exist, fs)
    else on_checked crypto certs keys g (validate_subject g.subject >> validate_days g.days) fs
