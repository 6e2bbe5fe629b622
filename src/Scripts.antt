-- ===== src/Scripts.antt =====
-- The file system that the certificate scripts (scripts/*.py) see, and their file helpers, which each
-- of the scripts declares for itself. A path is a directory, or an entry of one: two texts
-- name the same only if they are equal, and a directory that a script is given is not an entry that
-- it writes. Ancestors that `mkdir(parents=True)` makes are not kept. File contents are texts.
pub mod Material
pub mod ClientCert
pub mod Bundle
pub mod ServerCert
pub mod Tests
use vibe_voice_vendor.Base.{
  ℕ, Bool, true, false, not, ◌&&◌, ◌||◌, Option, none, some, Text, text_eq, ◌==◌, if◌then◌else◌,
  Result, ok, err, raise_if, ◌>>◌,
}
use vibe_voice_vendor.Disk.{FilePath, path_eq}

-- What stands at a path: a file with its contents and mode, a directory with its mode, or a symlink,
-- which leads to something or does not.
pub data Node : Type 0 where
  file : Text → ℕ → Node
  directory : ℕ → Node
  symlink : Bool → Node

-- `denied` are the paths at which the system refuses to create anything.
pub record FileSystem : Type 0 where
  pub dirs : Text → Option Node
  pub entries : FilePath → Option Node
  pub denied_dirs : Text → Bool
  pub denied : FilePath → Bool

-- The reasons of the helpers' `ValueError`s: a symlink, no directory or no regular file, or a mode
-- with the one that is expected.
pub data PathError : Type 0 where
  is_symlink not_directory not_regular : PathError
  wrong_mode : ℕ → ℕ → PathError

-- 0o644, 0o700 and 0o600.
abbrev pub cert_mode : ℕ
cert_mode = 420

abbrev pub dir_mode : ℕ
dir_mode = 448

abbrev pub key_mode : ℕ
key_mode = 384

-- `path.exists()` follows symlinks.
abbrev pub exists : Option Node → Bool
exists none = false
exists (some (file contents mode)) = true
exists (some (directory mode)) = true
exists (some (symlink leads)) = leads

-- _validate_directory
unfoldable pub validate_directory : Option Node → Result PathError (Unit {0})
validate_directory none = err not_directory
validate_directory (some (symlink leads)) = err is_symlink
validate_directory (some (file contents mode)) = err not_directory
validate_directory (some (directory mode)) =
    raise_if (not (mode == dir_mode)) (wrong_mode mode dir_mode)

-- _validate_file, and the contents that are read from the file after it.
unfoldable pub validate_file : ℕ → Option Node → Result PathError Text
validate_file expected none = err not_regular
validate_file expected (some (symlink leads)) = err is_symlink
validate_file expected (some (directory mode)) = err not_regular
validate_file expected (some (file contents mode)) =
    raise_if (not (mode == expected)) (wrong_mode mode expected) >> ok contents

abbrev pub put_dir : Text → Node → FileSystem → FileSystem
put_dir d node fs = record fs { dirs = λ k. if text_eq k d then some node else fs.dirs k }

abbrev pub put_entry : FilePath → Node → FileSystem → FileSystem
put_entry p node fs = record fs { entries = λ k. if path_eq k p then some node else fs.entries k }

-- `mkdir` and `chmod`, where nothing stands and nothing is denied: FileExistsError, an OSError, at a
-- symlink that leads nowhere.
unfoldable pub make_new : Option Node → Bool → Text → FileSystem → Option FileSystem
make_new (some node) denied d fs = none
make_new none true d fs = none
make_new none false d fs = some (put_dir d (directory dir_mode) fs)

unfoldable pub make_directory : Text → FileSystem → Option FileSystem
unfolding make_new
make_directory d fs = make_new (fs.dirs d) (fs.denied_dirs d) d fs

-- `os.open` with O_CREAT | O_EXCL, the write and `chmod`; `none` is an OSError of the open, of which
-- nothing is left. The write and `chmod` behind an open that succeeds do so too: a new file that is left
-- behind unfinished is not modelled.
unfoldable pub write_new : Option Node → Bool → FilePath → Node → FileSystem → Option FileSystem
write_new (some old) denied p node fs = none
write_new none true p node fs = none
write_new none false p node fs = some (put_entry p node fs)

unfoldable pub write_file : FilePath → Text → ℕ → FileSystem → Option FileSystem
unfolding write_new
write_file p contents mode fs = write_new (fs.entries p) (fs.denied p) p (file contents mode) fs
