-- ===== src/Startup/Tests.antt =====
-- Starts in a directory that is not there and over a stale file, and the theorem of Startup at one.
use vibe_voice_vendor.Base.{◌≡◌, refl, true, false, none, some}
use vibe_voice_vendor.Startup.{bound, other_file, Host, System, bind_private_uds, run_server}
use vibe_voice_vendor.Startup.Private.{IsBound, IsGone, run_server-IsGone}

abbrev willing : System
willing = record {
  refuses_mkdir = false;
  refuses_chmod_parent = false;
  refuses_unlink = false;
  refuses_socket = false;
  refuses_bind = false;
  refuses_chmod = false;
  refuses_listen = false;
  new_dir_mode = 493;
  new_socket_mode = 493;
}

abbrev stale : Host
stale = record {
  parent_mode = some 493;
  entry = some other_file;
  is_open = false;
  is_listening = false;
}

abbrev fresh : Host
fresh = record stale { parent_mode = none; entry = none }

binds :
    ((bind_private_uds willing fresh).raised ≡ false)
    × ((bind_private_uds willing stale).last.entry ≡ some (bound 384))
    × ((bind_private_uds (record willing { refuses_listen = true }) stale).raised ≡ true)
    × ((bind_private_uds (record willing { refuses_listen = true }) stale).last.entry ≡ none)
    × ((run_server willing (λ h. h) stale).entry ≡ none)
unfolding run_server
binds = (refl, refl, refl, refl, refl)

run_server-IsGone_example :
    IsBound willing (bind_private_uds willing stale)
    × IsGone willing (run_server willing (λ h. h) stale)
run_server-IsGone_example = run_server-IsGone willing (λ h. h) stale refl (λ o. o)
