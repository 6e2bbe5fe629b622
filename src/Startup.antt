-- ===== src/Startup.antt =====
-- server/__main__.py: the private socket of the server, from `_bind_private_uds` to the end of `main`.
-- The state is what the system has at the socket's path and of its directory; what the system refuses
-- besides is an argument. Every call that changes the state is one step, and the states between two
-- calls are kept, since other processes see them.
pub mod Private
mod Tests
use vibe_voice_vendor.Base.{
  ℕ, Bool, true, false, not, ◌&&◌, ◌||◌, Option, none, some, List, [], ◌∷◌, ◌++◌, if◌then◌else◌,
}

-- What stands at the path: a socket that was bound here, with its mode, or something else.
pub data Entry : Type 0 where
  bound : ℕ → Entry
  other_file other_directory : Entry

pub record Host : Type 0 where
  pub parent_mode : Option ℕ
  pub entry : Option Entry
  pub is_open : Bool
  pub is_listening : Bool

-- What raises an OSError although the state allows it, and the modes that the umask gives to a new
-- directory and a new socket.
pub record System : Type 0 where
  pub refuses_mkdir : Bool
  pub refuses_chmod_parent : Bool
  pub refuses_unlink : Bool
  pub refuses_socket : Bool
  pub refuses_bind : Bool
  pub refuses_chmod : Bool
  pub refuses_listen : Bool
  pub new_dir_mode : ℕ
  pub new_socket_mode : ℕ

-- A call; `none` where it raises.
abbrev pub Call : Type 0
Call = Host → Option Host

abbrev pub unless : Bool → Host → Option Host
unless true h = none
unless false h = some h

abbrev pub made_parent : System → Option ℕ → Host → Option Host
made_parent sys (some mode) h = some h
made_parent sys none h = unless sys.refuses_mkdir (record h { parent_mode = some sys.new_dir_mode })

-- `path.parent.mkdir(parents=True, exist_ok=True)`
unfoldable pub mkdir_parent : System → Call
mkdir_parent sys h = made_parent sys h.parent_mode h

-- `path.parent.chmod(0o700)`
unfoldable pub chmod_parent : System → Call
chmod_parent sys h = unless sys.refuses_chmod_parent (record h { parent_mode = some 448 })

abbrev pub removed : System → Option Entry → Host → Option Host
removed sys none h = some h
removed sys (some other_directory) h = none
removed sys (some entry) h = unless sys.refuses_unlink (record h { entry = none })

-- `path.unlink()` with FileNotFoundError suppressed
unfoldable pub unlink_path : System → Call
unlink_path sys h = removed sys h.entry h

-- `socket.socket(...)`
unfoldable pub open_socket : System → Call
open_socket sys h = unless sys.refuses_socket (record h { is_open = true })

abbrev pub is_taken : Option Entry → Bool
is_taken none = false
is_taken (some entry) = true

-- `sock.bind(str(path))`
unfoldable pub bind_socket : System → Call
bind_socket sys h =
    unless (sys.refuses_bind || is_taken h.entry)
      (record h { entry = some (bound sys.new_socket_mode) })

-- `os.chmod(path, 0o600)`
unfoldable pub chmod_socket : System → Call
chmod_socket sys h =
    unless (sys.refuses_chmod || not (is_taken h.entry)) (record h { entry = some (bound 384) })

-- `sock.listen(_UVICORN_BACKLOG)`
unfoldable pub listen_socket : System → Call
listen_socket sys h = unless sys.refuses_listen (record h { is_listening = true })

-- The states after the calls, in order, the last of them, and whether a call raised.
pub record Attempt : Type 0 where
  pub visited : List Host
  pub last : Host
  pub raised : Bool

abbrev pub continue : Option Host → Host → (Host → Attempt) → Attempt
continue none h rest = record { visited = []; last = h; raised = true }
continue (some h') h rest = let r = rest h' in record r { visited = h' ∷ r.visited }

unfoldable pub in_turn : List Call → Host → Attempt
in_turn [] h = record { visited = []; last = h; raised = false }
in_turn (call ∷ calls) h = continue (call h) h (in_turn calls)

abbrev pub closed : Host → Host
closed h = record h { is_open = false; is_listening = false }

abbrev pub kept_or_removed : Option Host → Host → Host
kept_or_removed none h = h
kept_or_removed (some h') h = h'

-- `sock.close()` and the suppressed `path.unlink()`, whether that raises or not
unfoldable pub close_and_unlink : System → Host → Host
unfolding unlink_path
close_and_unlink sys h = kept_or_removed (unlink_path sys (closed h)) (closed h)

-- `except Exception: ...; raise`
unfoldable pub on_raised : System → Bool → Attempt → Attempt
unfolding close_and_unlink
on_raised sys false a = a
on_raised sys true a =
    let h = close_and_unlink sys a.last in
    record a { visited = a.visited ++ (closed a.last ∷ h ∷ []); last = h }

abbrev pub follow : Bool → Attempt → (Host → Attempt) → Attempt
follow true a rest = a
follow false a rest = let r = rest a.last in record r { visited = a.visited ++ r.visited }

unfoldable pub bind_in_turn : System → Host → Attempt
unfolding in_turn bind_socket chmod_socket listen_socket on_raised
bind_in_turn sys h =
    let a = in_turn (bind_socket sys ∷ chmod_socket sys ∷ listen_socket sys ∷ []) h in
    on_raised sys a.raised a

unfoldable pub bind_private_uds : System → Host → Attempt
unfolding in_turn mkdir_parent chmod_parent unlink_path open_socket bind_in_turn
bind_private_uds sys h =
    let a =
      in_turn (mkdir_parent sys ∷ chmod_parent sys ∷ unlink_path sys ∷ open_socket sys ∷ []) h in
    follow a.raised a (bind_in_turn sys)

-- `main` from the socket on: `serve` is what `uvicorn.run` leaves when it returns or raises.
unfoldable pub run_server : System → (Host → Host) → Host → Host
unfolding bind_private_uds close_and_unlink
run_server sys serve h =
    let a = bind_private_uds sys h in
    if a.raised then a.last else close_and_unlink sys (serve a.last)
