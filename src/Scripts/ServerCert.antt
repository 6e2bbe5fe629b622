-- ===== src/Scripts/ServerCert.antt =====
-- scripts/generate_cert.py: the server's self-signed certificate with the pin of its key, and the local
-- page that asks for them. The generated key with the DER form of its public half and the clock's
-- reading are arguments, as are `int` and `json.loads`. An OSError ends the request without a reply.
-- A body so deep that `json.loads` raises a RecursionError and a path with a NUL are not modelled.
pub mod Pinned
pub mod Requests
mod Tests
use vibe_voice_vendor.Base.{
  WholeNumber, natural, negative, ℕ, ◌+◌, ◌*◌, Bool, true, false, not, ◌&&◌, ◌||◌, Option, none,
  some, List, [], ◌∷◌, ◌++◌, take, Text, codes, text_eq, leb, ltb, if◌then◌else◌, Result, ok, err,
  raise_if, ◌>>=◌, ◌>>◌,
}
use vibe_voice_vendor.Disk.{FilePath}
use vibe_voice_vendor.Client.Pin.{PinLibrary, pin_of_spki}
use vibe_voice_vendor.Scripts.{FileSystem, PathError, cert_mode, key_mode, exists, write_file}
use vibe_voice_vendor.Scripts.Material.{Key, Contents, Certificate, Cryptography, sha256}
use vibe_voice_vendor.Scripts.ClientCert.{
  Created, created, invalid, not_created, create_or_validate_directory, seconds_per_day, signed,
}

abbrev pub fullchain_path : Text → FilePath
fullchain_path dir = record { directory = dir; name = codes "fullchain.pem" }

abbrev pub privkey_path : Text → FilePath
privkey_path dir = record { directory = dir; name = codes "privkey.pem" }

abbrev pub server_pin_path : Text → FilePath
server_pin_path dir = record { directory = dir; name = codes "server-spki-pin.txt" }

pub record ServerKey : Type 0 where
  pub key : Key
  pub spki : Text

-- A dict with "error", the dict of paths with the pin, or an OSError.
pub data CertOutcome : Type 0 where
  already_exist bad_days : CertOutcome
  bad_directory : PathError → CertOutcome
  pinned : Text → CertOutcome
  os_error : CertOutcome

abbrev pub CertEnded : Type 0
CertEnded = CertOutcome × FileSystem

-- _validate_days, with the days that it lets pass
unfoldable pub validate_server_days : WholeNumber → Option ℕ
validate_server_days negative = none
validate_server_days (natural days) = if leb 1 days && leb days 3650 then some days else none

abbrev pub server_name : Text
server_name = codes "VVV Sovereign Server"

abbrev pub server_contents : Cryptography → ServerKey → ℕ → ℕ → Contents
server_contents crypto server days now = record {
  subject = server_name;
  issuer = server_name;
  public_key = crypto.public_key server.key;
  not_valid_before = now;
  not_valid_after = now + days * seconds_per_day;
  basic_constraints = none;
  key_usage = none;
  extended_key_usage = none;
}

abbrev pub server_cert : Cryptography → ServerKey → ℕ → ℕ → Certificate
server_cert crypto server days now =
    signed crypto server.key (server_contents crypto server days now)

unfoldable pub on_server_file :
    Option FileSystem → (FileSystem → CertEnded) → FileSystem → CertEnded
on_server_file none rest fs = (os_error, fs)
on_server_file (some written) rest fs = rest written

-- From the first `_write_public` on.
unfoldable pub write_server_files :
    Cryptography → PinLibrary → ServerKey → ℕ → ℕ → Text → FileSystem → CertEnded
unfolding on_server_file
write_server_files crypto pins server days now dir fs =
    let pin = pin_of_spki pins server.spki in
    on_server_file
      (write_file (fullchain_path dir) (crypto.cert_pem (server_cert crypto server days now))
        cert_mode fs)
      (λ fs.
        on_server_file (write_file (server_pin_path dir) (pin ++ (10 ∷ [])) cert_mode fs)
          (λ fs.
            on_server_file (write_file (privkey_path dir) (crypto.key_pem server.key) key_mode fs)
              (λ fs. (pinned pin, fs)) fs)
          fs)
      fs

unfoldable pub in_directory :
    Cryptography → PinLibrary → ServerKey → ℕ → ℕ → Text → Created → FileSystem → CertEnded
unfolding write_server_files
in_directory crypto pins server days now dir not_created fs = (os_error, fs)
in_directory crypto pins server days now dir (invalid e made) fs = (bad_directory e, made)
in_directory crypto pins server days now dir (created made) fs =
    write_server_files crypto pins server days now dir made

unfoldable pub on_days :
    Cryptography → PinLibrary → ServerKey → ℕ → Text → Option ℕ → FileSystem → CertEnded
unfolding in_directory
on_days crypto pins server now dir none fs = (bad_days, fs)
on_days crypto pins server now dir (some days) fs =
    in_directory crypto pins server days now dir (create_or_validate_directory dir fs) fs

-- _generate_cert
unfoldable pub generate_cert :
    Cryptography → PinLibrary → ServerKey → ℕ → WholeNumber → Text → FileSystem → CertEnded
unfolding on_days validate_server_days
generate_cert crypto pins server now days dir fs =
    if exists (fs.entries (fullchain_path dir))
      || exists (fs.entries (privkey_path dir))
      || exists (fs.entries (server_pin_path dir))
    then (already_exist, fs)
    else on_days crypto pins server now dir (validate_server_days days) fs

-- What a member of the request's object is.
pub data BodyValue : Type 0 where
  string_value : Text → BodyValue
  integer_value : WholeNumber → BodyValue
  boolean_value : Bool → BodyValue
  other_value : BodyValue

-- What `json.loads` does with bytes: it raises JSONDecodeError, or UnicodeDecodeError.
pub data Loaded : Type 0 where
  object_body : List (Text × BodyValue) → Loaded
  other_body json_decode_error unicode_decode_error : Loaded

pub data RequestError : Type 0 where
  missing_length invalid_length too_large invalid_json not_object missing_fields
        certs_dir_not_string days_not_integer :
      RequestError

-- The replies; `no_reply` is an exception that the handler does not catch.
pub data Reply : Type 0 where
  page not_found : Reply
  refused_request : RequestError → Reply
  answered : CertOutcome → Reply
  no_reply : Reply

unfoldable pub status_code : Reply → Option ℕ
status_code page = some 200
status_code not_found = some 404
status_code (refused_request too_large) = some 413
status_code (refused_request e) = some 400
status_code (answered outcome) = some 200
status_code no_reply = none

unfoldable pub do_get : Text → Reply
do_get path = if text_eq path (codes "/") then page else not_found

unfoldable pub field : Text → List (Text × BodyValue) → Result RequestError BodyValue
field key [] = err missing_fields
field key ((k, v) ∷ members) = if text_eq k key then ok v else field key members

unfoldable pub as_string : BodyValue → Result RequestError Text
as_string (string_value t) = ok t
as_string value = err certs_dir_not_string

-- `isinstance(True, int)` holds.
unfoldable pub as_integer : BodyValue → Result RequestError WholeNumber
as_integer (integer_value n) = ok n
as_integer (boolean_value true) = ok (natural 1)
as_integer (boolean_value false) = ok (natural 0)
as_integer value = err days_not_integer

-- The two arguments of a request's object.
unfoldable pub arguments_of : List (Text × BodyValue) → Result RequestError (Text × WholeNumber)
unfolding field as_string as_integer
arguments_of members = do
  days_value ← field (codes "days") members
  dir_value ← field (codes "certs_dir") members
  dir ← as_string dir_value
  days ← as_integer days_value
  ok (dir, days)

unfoldable pub checked_length : Option WholeNumber → Result RequestError ℕ
checked_length none = err invalid_length
checked_length (some negative) = err too_large
checked_length (some (natural n)) = if ltb 4096 n then err too_large else ok n

unfoldable pub length_of : (Text → Option WholeNumber) → Option Text → Result RequestError ℕ
unfolding checked_length
length_of int_of none = err missing_length
length_of int_of (some t) = checked_length (int_of t)

abbrev pub answer : CertEnded → Reply × FileSystem
answer (os_error, fs) = (no_reply, fs)
answer (outcome, fs) = (answered outcome, fs)

-- `_RequestHandler` with what it is given: the certificates' directory and days of the request.
pub record PageServer : Type 0 where
  pub int_of : Text → Option WholeNumber
  pub loads : Text → Loaded
  pub generate : WholeNumber → Text → FileSystem → CertEnded

unfoldable pub on_arguments :
    PageServer → Result RequestError (Text × WholeNumber) → FileSystem → Reply × FileSystem
on_arguments server (err e) fs = (refused_request e, fs)
on_arguments server (ok (dir, days)) fs = answer (server.generate days dir fs)

unfoldable pub on_loaded : PageServer → Loaded → FileSystem → Reply × FileSystem
unfolding on_arguments arguments_of
on_loaded server json_decode_error fs = (refused_request invalid_json, fs)
on_loaded server unicode_decode_error fs = (no_reply, fs)
on_loaded server other_body fs = (refused_request not_object, fs)
on_loaded server (object_body members) fs = on_arguments server (arguments_of members) fs

unfoldable pub on_length :
    PageServer → Text → Result RequestError ℕ → FileSystem → Reply × FileSystem
unfolding on_loaded
on_length server sent (err e) fs = (refused_request e, fs)
on_length server sent (ok n) fs = on_loaded server (server.loads (take n sent)) fs

-- With the bytes that the client sent behind the headers.
unfoldable pub do_post : PageServer → Text → Option Text → Text → FileSystem → Reply × FileSystem
unfolding on_length length_of
do_post server path content_length sent fs =
    if text_eq path (codes "/generate")
    then on_length server sent (length_of server.int_of content_length) fs
    else (not_found, fs)
