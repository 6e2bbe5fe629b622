-- ===== src/Scripts/ServerCert/Tests.antt =====
-- Small stand-ins for base64 and SHA-256 that have the laws, and the theorems of ServerCert at them.
use vibe_voice_vendor.Base.{
  natural, ◌+◌, ◌-◌, ◌≡◌, refl, ap, inr, false, some, [], ◌∷◌, Text, codes, is_space, any, arith,
}
use vibe_voice_vendor.Client.Pin.{PinLibrary}
use vibe_voice_vendor.Client.Tests.{zeros}
use vibe_voice_vendor.Scripts.Tests.{key, signer, empty_fs}
use vibe_voice_vendor.Scripts.ServerCert.{
  ServerKey, string_value, integer_value, object_body, PageServer, generate_cert, do_post,
}
use vibe_voice_vendor.Scripts.ServerCert.Pinned.{
  IsPinLibrary, HasServerCert, generate_cert-HasServerCert,
}
use vibe_voice_vendor.Scripts.ServerCert.Requests.{Decided, do_post-Decided}

-- Every code is moved above the white space.
abbrev move_up : Text → Text
move_up [] = []
move_up (c ∷ s) = (c + 12289) ∷ move_up s

abbrev move_down : Text → Text
move_down [] = []
move_down (c ∷ s) = (c - 12289) ∷ move_down s

move_down-move_up : (t : Text) → move_down (move_up t) ≡ t
move_down-move_up [] = refl
move_down-move_up (c ∷ t) = ground (arith, move_down-move_up t)

move_up_plain : (t : Text) → any is_space (move_up t) ≡ false
move_up_plain [] = refl
move_up_plain (c ∷ t) = ground (arith, move_up_plain t)

abbrev moved_pins : PinLibrary
moved_pins = record {
  b64encode = move_up;
  b64decode = λ t. some (move_down t);
  sha256 = λ t. zeros;
  spki = λ t. some t;
}

moved_pins-IsPinLibrary : IsPinLibrary moved_pins
moved_pins-IsPinLibrary = record {
  b64decode-b64encode = λ t. ap some (move_down-move_up t);
  b64encode_plain = move_up_plain;
  length-sha256 = λ t. refl;
}

abbrev server_key : ServerKey
server_key = record { key = key (codes "1"); spki = codes "spki" }

generate_cert-HasServerCert_example :
    HasServerCert signer moved_pins server_key 100 1
      (codes "d")
      (generate_cert signer moved_pins server_key 100 (natural 1) (codes "d") empty_fs)
generate_cert-HasServerCert_example =
    generate_cert-HasServerCert signer moved_pins server_key 100 1 (codes "d") empty_fs
      moved_pins-IsPinLibrary
      (record {
        usable = inr (refl, refl);
        cert_free = (refl, refl);
        key_free = (refl, refl);
        pin_free = (refl, refl);
        one_day = omega arith;
        ten_years = omega arith;
      })

abbrev page_server : PageServer
page_server = record {
  int_of = λ t. some (natural 2);
  loads = λ t. object_body (
      (codes "days", integer_value (natural 1))
      ∷ (codes "certs_dir", string_value (codes "d"))
      ∷ []);
  generate = λ days dir. generate_cert signer moved_pins server_key 100 days dir;
}

do_post-Decided_example :
    Decided page_server
      (codes "/generate")
      (some (codes "2"))
      (codes "{}")
      empty_fs
      (do_post page_server (codes "/generate") (some (codes "2")) (codes "{}") empty_fs)
do_post-Decided_example =
    do_post-Decided page_server (codes "/generate") (some (codes "2")) (codes "{}") empty_fs
