-- ===== src/Startup/Private.antt =====
-- Who can reach the socket, and what is left of it.
use vibe_voice_vendor.Base.{
  ℕ, ◌≡◌, inl, inr, refl, sym, subst, Bool, true, false, Option, none, some, List, [], ◌∷◌, All,
  Bool-cases,
}
use vibe_voice_vendor.Startup.{
  Entry, bound, other_file, other_directory, Host, System, Attempt, close_and_unlink, bind_in_turn,
  bind_private_uds, run_server,
}

abbrev pub IsOurs : Option Entry → Type 0
IsOurs none = ⊥
IsOurs (some (bound mode)) = Unit {0}
IsOurs (some entry) = ⊥

-- A socket stands at the path only in a directory of mode 0700.
abbrev pub IsGuarded : Host → Type 0
IsGuarded h = IsOurs h.entry → h.parent_mode ≡ some 448

-- What becomes of an attempt to bind the socket: whenever it stands at the path, only its owner can
-- reach it; at the end it is ready, or closed and taken away.
pub record IsBound (sys : System) (a : Attempt) : Type 0 where
  pub guarded : All IsGuarded a.visited
  pub ready :
      a.raised ≡ false
      → (a.last.parent_mode ≡ some 448)
        × (a.last.entry ≡ some (bound 384))
        × (a.last.is_open ≡ true)
        × (a.last.is_listening ≡ true)
  pub gone :
      a.raised ≡ true
      → (a.last.is_open ≡ false) × (sys.refuses_unlink ≡ false → ¬ (IsOurs a.last.entry))

abbrev system : Bool → Bool → Bool → Bool → Bool → Bool → Bool → ℕ → ℕ → System
system m c u s b c' l dir socket = record {
  refuses_mkdir = m;
  refuses_chmod_parent = c;
  refuses_unlink = u;
  refuses_socket = s;
  refuses_bind = b;
  refuses_chmod = c';
  refuses_listen = l;
  new_dir_mode = dir;
  new_socket_mode = socket;
}

-- The calls in the `try`, by what the system refuses.
bind_in_turn-IsBound :
    (m c s rb rc rl ru : Bool) (dir socket : ℕ) (l : Bool)
    → IsBound (system m c ru s rb rc rl dir socket) (
        bind_in_turn
          (system m c ru s rb rc rl dir socket)
          (record { parent_mode = some 448; entry = none; is_open = true; is_listening = l }))
unfolding bind_in_turn
bind_in_turn-IsBound m c s true rc rl ru dir socket l = record {
  guarded = (λ o. refl, (λ o. refl, tt));
  ready = λ h. cc;
  gone = λ h. (refl, λ e o. o);
}
bind_in_turn-IsBound m c s false true rl true dir socket l = record {
  guarded = (λ o. refl, (λ o. refl, (λ o. refl, tt)));
  ready = λ h. cc;
  gone = λ h. (refl, λ e. cc);
}
bind_in_turn-IsBound m c s false true rl false dir socket l = record {
  guarded = (λ o. refl, (λ o. refl, (λ o. refl, tt)));
  ready = λ h. cc;
  gone = λ h. (refl, λ e o. o);
}
bind_in_turn-IsBound m c s false false true true dir socket l = record {
  guarded = (λ o. refl, (λ o. refl, (λ o. refl, (λ o. refl, tt))));
  ready = λ h. cc;
  gone = λ h. (refl, λ e. cc);
}
bind_in_turn-IsBound m c s false false true false dir socket l = record {
  guarded = (λ o. refl, (λ o. refl, (λ o. refl, (λ o. refl, tt))));
  ready = λ h. cc;
  gone = λ h. (refl, λ e o. o);
}
bind_in_turn-IsBound m c s false false false ru dir socket l = record {
  guarded = (λ o. refl, (λ o. refl, (λ o. refl, tt)));
  ready = λ h. (refl, refl, refl, refl);
  gone = λ h. cc;
}

bind_in_turn_lem :
    (sys : System) (l : Bool)
    → IsBound sys (
        bind_in_turn sys
          (record { parent_mode = some 448; entry = none; is_open = true; is_listening = l }))
bind_in_turn_lem sys l =
    bind_in_turn-IsBound sys.refuses_mkdir sys.refuses_chmod_parent sys.refuses_socket
      sys.refuses_bind sys.refuses_chmod sys.refuses_listen sys.refuses_unlink sys.new_dir_mode
      sys.new_socket_mode l

-- An attempt that ends before there is a socket.
abbrev ended_early : List Host → Host → Attempt
ended_early visited h = record { visited = visited; last = h; raised = true }

ended_early-IsBound :
    (sys : System) (visited : List Host) (h : Host)
    → All IsGuarded visited
    → h.is_open ≡ false
    → ¬ (IsOurs h.entry)
    → IsBound sys (ended_early visited h)
ended_early-IsBound sys visited h g o n = record {
  guarded = g;
  ready = λ e. cc;
  gone = λ e. (o, λ u. n);
}

abbrev before : Option ℕ → Option Entry → Bool → Host
before pm e l = record { parent_mode = pm; entry = e; is_open = false; is_listening = l }

-- From `chmod` of the directory on, which is there.
parent_made-IsBound :
    (m b c' li c s u : Bool) (dir socket mode : ℕ) (e : Option Entry) (l : Bool)
    → ¬ (IsOurs e)
    → IsBound
        (system m c u s b c' li dir socket)
        (bind_private_uds (system m c u s b c' li dir socket) (before (some mode) e l))
unfolding bind_private_uds
parent_made-IsBound m b c' li true s u dir socket mode e l n =
    ended_early-IsBound _ (before (some mode) e l ∷ []) (before (some mode) e l)
      (λ o. absurd (n o), tt) refl n
parent_made-IsBound m b c' li false s u dir socket mode (some (bound k)) l n = absurd (n tt)
parent_made-IsBound m b c' li false s u dir socket mode (some other_directory) l n =
    ended_early-IsBound _
      (before (some mode) (some other_directory) l
        ∷ before (some 448) (some other_directory) l
        ∷ [])
      (before (some 448) (some other_directory) l) (λ o. absurd o, (λ o. refl, tt)) refl (λ o. o)
parent_made-IsBound m b c' li false s true dir socket mode (some other_file) l n =
    ended_early-IsBound _
      (before (some mode) (some other_file) l ∷ before (some 448) (some other_file) l ∷ [])
      (before (some 448) (some other_file) l) (λ o. absurd o, (λ o. refl, tt)) refl (λ o. o)
parent_made-IsBound m b c' li false true false dir socket mode (some other_file) l n =
    ended_early-IsBound _
      (before (some mode) (some other_file) l
        ∷ before (some 448) (some other_file) l
        ∷ before (some 448) none l
        ∷ [])
      (before (some 448) none l) (λ o. absurd o, (λ o. refl, (λ o. refl, tt))) refl (λ o. o)
parent_made-IsBound m b c' li false false false dir socket mode (some other_file) l n =
    let w = bind_in_turn-IsBound m false false b c' li false dir socket l in
    record {
      guarded = (λ o. absurd o, (λ o. refl, (λ o. refl, (λ o. refl, w.guarded))));
      ready = w.ready;
      gone = w.gone;
    }
parent_made-IsBound m b c' li false true u dir socket mode none l n =
    ended_early-IsBound _
      (before (some mode) none l ∷ before (some 448) none l ∷ before (some 448) none l ∷ [])
      (before (some 448) none l) (λ o. absurd o, (λ o. refl, (λ o. refl, tt))) refl (λ o. o)
parent_made-IsBound m b c' li false false u dir socket mode none l n =
    let w = bind_in_turn-IsBound m false false b c' li u dir socket l in
    record {
      guarded = (λ o. absurd o, (λ o. refl, (λ o. refl, (λ o. refl, w.guarded))));
      ready = w.ready;
      gone = w.gone;
    }

parent_or_not-IsBound :
    (m b c' li c s u : Bool) (dir socket : ℕ) (pm : Option ℕ) (e : Option Entry) (l : Bool)
    → ¬ (IsOurs e)
    → IsBound
        (system m c u s b c' li dir socket)
        (bind_private_uds (system m c u s b c' li dir socket) (before pm e l))
unfolding bind_private_uds
parent_or_not-IsBound m b c' li c s u dir socket (some mode) e l n =
    parent_made-IsBound m b c' li c s u dir socket mode e l n
parent_or_not-IsBound true b c' li c s u dir socket none e l n =
    ended_early-IsBound _ [] (before none e l) tt refl n
parent_or_not-IsBound false b c' li c s u dir socket none e l n =
    parent_made-IsBound false b c' li c s u dir socket dir e l n

bind_private_uds-IsBound :
    (sys : System) (h : Host)
    → h.is_open ≡ false
    → ¬ (IsOurs h.entry)
    → IsBound sys (bind_private_uds sys h)
bind_private_uds-IsBound sys h o n =
    subst
      (λ (b : Bool). IsBound sys (
        bind_private_uds sys (record {
          parent_mode = h.parent_mode;
          entry = h.entry;
          is_open = b;
          is_listening = h.is_listening;
        })))
      (sym o)
      (parent_or_not-IsBound sys.refuses_mkdir sys.refuses_bind sys.refuses_chmod sys.refuses_listen
        sys.refuses_chmod_parent sys.refuses_socket sys.refuses_unlink sys.new_dir_mode
        sys.new_socket_mode h.parent_mode h.entry h.is_listening n)

-- What is left when the socket is closed.
abbrev pub IsGone : System → Host → Type 0
IsGone sys h = (h.is_open ≡ false) × (sys.refuses_unlink ≡ false → ¬ (IsOurs h.entry))

close_and_unlink-IsGone :
    (u : Bool) (sys : System) (pm : Option ℕ) (e : Option Entry) (o l : Bool)
    → sys.refuses_unlink ≡ u
    → IsGone sys (
        close_and_unlink sys
          (record { parent_mode = pm; entry = e; is_open = o; is_listening = l }))
unfolding close_and_unlink
close_and_unlink-IsGone u sys pm none o l r = (refl, λ f x. x)
close_and_unlink-IsGone u sys pm (some other_directory) o l r = (refl, λ f x. x)
close_and_unlink-IsGone true sys pm (some other_file) o l r = rw r (refl, λ f. cc)
close_and_unlink-IsGone false sys pm (some other_file) o l r = rw r (refl, λ f x. x)
close_and_unlink-IsGone true sys pm (some (bound k)) o l r = rw r (refl, λ f. cc)
close_and_unlink-IsGone false sys pm (some (bound k)) o l r = rw r (refl, λ f x. x)

-- However the server's start and its run end, from a path that is free or has something else, which
-- may be another directory: in every state in which the socket stands at the path, its directory has
-- mode 0700; if the start does not raise, then the socket has mode 0600 and listens; if it raises, and in
-- any case when the server is over, the socket is closed and, unless the system refuses to unlink it, no
-- longer at the path.
pub run_server-IsGone :
    (sys : System) (serve : Host → Host) (h : Host)
    → h.is_open ≡ false
    → ¬ (IsOurs h.entry)
    → IsBound sys (bind_private_uds sys h) × IsGone sys (run_server sys serve h)
unfolding run_server
run_server-IsGone sys serve h o n =
    let w = bind_private_uds-IsBound sys h o n in
    (
      w,
      elim (Bool-cases (bind_private_uds sys h).raised) [
        | inl b ↦ rw b (w.gone b)
        | inr b ↦
            let left = serve (bind_private_uds sys h).last in
            rw b (
              close_and_unlink-IsGone sys.refuses_unlink sys left.parent_mode left.entry
                left.is_open left.is_listening refl)
      ],
    )
