-- ===== src/Scripts/Bundle/Tests.antt =====
-- The files of a bundle, with the small package of keys and certificates, and the theorem at them.
use vibe_voice_vendor.Base.{
  ◌≡◌, ok, refl, some, [], ◌∷◌, ◌++◌, Text, codes, text_eq, if◌then◌else◌, strip, starts_with,
  ends_with,
}
use vibe_voice_vendor.Disk.{FilePath}
use vibe_voice_vendor.Client.Address.{
  normalize_base_url, parsed_or_raise, check_url, check_host, authority,
}
use vibe_voice_vendor.Client.Pin.{pin_prefix, normalize_server_pin, decoded_or_raise}
use vibe_voice_vendor.Client.Tests.{one_url, plain_pins, zeros}
use vibe_voice_vendor.Scripts.{
  file, directory, FileSystem, cert_mode, key_mode, validate_file, write_file, write_new, put_entry,
}
use vibe_voice_vendor.Scripts.Material.{validate_material}
use vibe_voice_vendor.Scripts.ClientCert.Generated.{ca_of, client_of}
use vibe_voice_vendor.Scripts.Tests.{key, signer, generation, empty_fs}
use vibe_voice_vendor.Scripts.Bundle.{
  ClientBundle, Libraries, BundlePaths, certificate_label, private_key_label, begin_line, end_line,
  newlines, normalize_pem_block, build_client_bundle, read_text, check_parent, written_or_raise,
  write_private_json, write_client_bundle_file,
}
use vibe_voice_vendor.Scripts.Bundle.Written.{IsBundle, write_client_bundle_file-IsBundle}

abbrev block : Text → Text → Text
block label body = begin_line label ++ body ++ (10 ∷ []) ++ end_line label

abbrev client_pem : Text
client_pem = block certificate_label (codes "phone")

abbrev lib : Libraries
lib = record {
  urlparse = one_url;
  pins = plain_pins;
  crypto = record signer {
    load_cert = λ t.
        if text_eq t client_pem
        then some (client_of signer generation (codes "phone"))
        else some (ca_of signer generation);
    load_key = λ t. some (key (codes "2"));
  };
  dumps = λ b. b.server_url;
}

abbrev in_keys : Text → FilePath
in_keys name = record { directory = codes "keys"; name = name }

abbrev paths : BundlePaths
paths = record {
  output = in_keys (codes "bundle");
  server_spki_pin = in_keys (codes "pin");
  client_ca_certificate = in_keys (codes "ca");
  client_certificate = in_keys (codes "cert");
  client_private_key = in_keys (codes "key");
}

abbrev fs : FileSystem
fs = put_entry paths.server_spki_pin (file (pin_prefix ++ zeros ++ (10 ∷ [])) cert_mode) (
    put_entry paths.client_ca_certificate (file (block certificate_label (codes "ca")) cert_mode) (
      put_entry paths.client_certificate (file client_pem cert_mode) (
        put_entry paths.client_private_key (file (block private_key_label (codes "2")) key_mode)
          (record empty_fs { dirs = λ d. some (directory 448) }))))

abbrev bundle : ClientBundle
bundle = record {
  bundle_type = codes "vvv-client-config";
  version = 1;
  server_url = codes "https://h";
  server_spki_pin = pin_prefix ++ zeros;
  client_certificate_pem = client_pem;
  client_private_key_pem = block private_key_label (codes "2");
}

write_client_bundle_file-IsBundle_example :
    IsBundle lib 100
      (codes "https://h")
      paths
      fs
      bundle
      (put_entry paths.output (file (codes "https://h") key_mode) fs)
unfolding write_client_bundle_file read_text validate_file build_client_bundle normalize_pem_block
    write_private_json check_parent written_or_raise write_file write_new normalize_base_url
    parsed_or_raise check_url check_host authority normalize_server_pin decoded_or_raise strip
    starts_with ends_with newlines text_eq validate_material
write_client_bundle_file-IsBundle_example =
    write_client_bundle_file-IsBundle lib 100 (codes "https://h") paths fs bundle
      (put_entry paths.output (file (codes "https://h") key_mode) fs) refl

-- Two blocks are taken for a single one.
two_blocks :
    normalize_pem_block (client_pem ++ block certificate_label (codes "ca")) certificate_label
    ≡ ok (client_pem ++ block certificate_label (codes "ca"))
unfolding normalize_pem_block strip starts_with ends_with newlines text_eq
two_blocks = refl
