-- ===== src/Scripts/ClientCert/Kept.antt =====
-- The generation overwrites no file, however it ends.
use mathlib.Core.Option.{some-injective}
use vibe_voice_vendor.Base.{
  inl, inr, ◌>>◌, ℕ, ◌≡◌, refl, Bool, true, false, Bool-cases, Option, none, some, Text,
  text_eq_iff, arith, Result, ok, err, ap, subst,
}
use vibe_voice_vendor.Disk.{FilePath}
use vibe_voice_vendor.Scripts.{
  Node, file, directory, dir_mode, FileSystem, PathError, exists, put_entry, put_dir, make_new,
  make_directory, write_new, write_file,
}
use vibe_voice_vendor.Scripts.Material.{Cryptography}
use vibe_voice_vendor.Scripts.ClientCert.{
  client_ca_path, client_cert_path, client_key_path, ClientCertError, Created, created, invalid,
  not_created, validated, make_and_validate, create_or_validate_directory, Generation, Ended,
  finish, on_written, then_write, write_and_validate, on_name, on_directories, create_both,
  on_checked, generate_client_auth_artifacts, validate_subject, validate_days,
  validate_client_auth_artifacts,
}

module _ (p : FilePath) (n : Node) where
  abbrev Keeps : FileSystem → FileSystem → Type 0
  Keeps before after = before.entries p ≡ some n → after.entries p ≡ some n

  put_entry-Keeps :
      (q : FilePath) (node : Node) (fs : FileSystem)
      → fs.entries q ≡ none
      → Keeps fs (put_entry q node fs)
  put_entry-Keeps q node fs free here =
      ground (arith, text_eq_iff p.directory q.directory, text_eq_iff p.name q.name, ap fs.entries)

  -- What follows keeps the file too.
  abbrev KeepsAll : (FileSystem → Ended) → Type 0
  KeepsAll rest = (fs : FileSystem) → Keeps fs (rest fs).1

  write_new-Keeps :
      (old : Option Node) (denied : Bool) (q : FilePath) (node : Node) (fs after : FileSystem)
      → fs.entries q ≡ old
      → write_new old denied q node fs ≡ some after
      → Keeps fs after
  unfolding write_new
  write_new-Keeps (some o) denied q node fs after e h = cc
  write_new-Keeps none true q node fs after e h = cc
  write_new-Keeps none false q node fs after e h =
      subst (Keeps fs) (some-injective _ _ h) (put_entry-Keeps q node fs e)

  on_written-Keeps :
      (o : Option FileSystem) (rest : FileSystem → Ended) (fs : FileSystem)
      → ((after : FileSystem) → o ≡ some after → Keeps fs after)
      → KeepsAll rest
      → Keeps fs (on_written o rest fs).1
  unfolding on_written
  on_written-Keeps none rest fs kept keep here = here
  on_written-Keeps (some after) rest fs kept keep here = keep after (kept after refl here)

  then_write-KeepsAll :
      (q : FilePath) (contents : Text) (mode : ℕ) (rest : FileSystem → Ended)
      → KeepsAll rest
      → KeepsAll (then_write q contents mode rest)
  unfolding then_write write_file
  then_write-KeepsAll q contents mode rest keep fs =
      on_written-Keeps (write_file q contents mode fs) rest fs
        (λ after. write_new-Keeps (fs.entries q) (fs.denied q) q (file contents mode) fs after refl)
        keep

  finish-KeepsAll :
      (check : FileSystem → Result ClientCertError (Unit {0}))
      → KeepsAll (λ fs. finish (check fs) fs)
  unfolding finish
  finish-KeepsAll check fs here = ground arith

  -- Making a directory changes no entry.
  abbrev KeepsCreated : Created → FileSystem → Type 0
  KeepsCreated (created after) fs = Keeps fs after
  KeepsCreated (invalid e after) fs = Keeps fs after
  KeepsCreated not_created fs = Unit

  validated-Keeps :
      (r : Result PathError (Unit {0})) (fs after : FileSystem)
      → Keeps fs after
      → KeepsCreated (validated r after) fs
  unfolding validated
  validated-Keeps (ok u) fs after k = k
  validated-Keeps (err e) fs after k = k

  make_new-Keeps :
      (d : Text) (old : Option Node) (denied : Bool) (fs : FileSystem)
      → KeepsCreated (make_and_validate d (make_new old denied d fs)) fs
  unfolding make_new make_and_validate
  make_new-Keeps d (some node) denied fs = tt
  make_new-Keeps d none true fs = tt
  make_new-Keeps d none false fs = validated-Keeps _ fs (put_dir d (directory dir_mode) fs) (λ h. h)

  create_or_validate-Keeps :
      (d : Text) (fs : FileSystem) → KeepsCreated (create_or_validate_directory d fs) fs
  unfolding create_or_validate_directory make_directory
  create_or_validate-Keeps d fs = elim (Bool-cases (exists (fs.dirs d))) [
    | inl b ↦ rw b (validated-Keeps _ fs fs (λ h. h))
    | inr b ↦ rw b (make_new-Keeps d (fs.dirs d) (fs.denied_dirs d) fs)
  ]

  module _ (crypto : Cryptography) (certs keys : Text) (g : Generation) where
    on_name-Keeps :
        (name : Option Text) (fs : FileSystem) → Keeps fs (on_name crypto certs keys g name fs).1
    unfolding on_name write_and_validate
    on_name-Keeps none fs here = here
    on_name-Keeps (some subject) fs here =
        then_write-KeepsAll (client_ca_path certs) _ _ _
          (then_write-KeepsAll (client_cert_path keys) _ _ _ (
            then_write-KeepsAll (client_key_path keys) _ _ _
              (finish-KeepsAll (validate_client_auth_artifacts crypto g.later certs keys))))
          fs here

    on_directories-Keeps :
        (c : Created) (fs : FileSystem)
        → KeepsCreated c fs
        → Keeps fs (on_directories crypto certs keys g c fs).1
    unfolding on_directories
    on_directories-Keeps not_created fs k here = here
    on_directories-Keeps (invalid e after) fs k here = k here
    on_directories-Keeps (created after) fs k here =
        on_name-Keeps (crypto.name_attribute g.subject) after (k here)

    create_both-Keeps :
        (c : Created) (fs : FileSystem)
        → KeepsCreated c fs
        → Keeps fs (create_both crypto certs keys g c fs).1
    unfolding create_both
    create_both-Keeps not_created fs k here = here
    create_both-Keeps (invalid e after) fs k here = k here
    create_both-Keeps (created after) fs k here =
        on_directories-Keeps (create_or_validate_directory keys after) after
          (create_or_validate-Keeps keys after) (k here)

    on_checked-Keeps :
        (r : Result ClientCertError (Unit {0})) (fs : FileSystem)
        → Keeps fs (on_checked crypto certs keys g r fs).1
    unfolding on_checked
    on_checked-Keeps (err e) fs here = here
    on_checked-Keeps (ok u) fs here =
        create_both-Keeps (create_or_validate_directory certs fs) fs
          (create_or_validate-Keeps certs fs) here

-- However the script ends, it has changed no file or symlink that was there; in particular, no key or
-- certificate is overwritten.
pub generate_keeps :
    (crypto : Cryptography) (certs keys : Text) (g : Generation) (fs : FileSystem) (p : FilePath)
    (n : Node)
    → fs.entries p ≡ some n
    → (generate_client_auth_artifacts crypto certs keys g fs).1.entries p ≡ some n
unfolding generate_client_auth_artifacts
generate_keeps crypto certs keys g fs p n here =
    let kept =
      on_checked-Keeps p n crypto certs keys g (validate_subject g.subject >> validate_days g.days)
        fs here in
    ground (arith, kept)
