-- ===== src/Disk.antt =====
-- The part of the file system that holds uploads: the files that exist and the directories that
-- exist. A path is its directory and its last component.
use vibe_voice_vendor.Base.{
  ◌≡◌, ◌≢◌, inl, inr, Bool-cases, Bool, true, false, not, ◌&&◌, ◌||◌, List, [], ◌∷◌, Text, codes,
  text_eq, text_eq_iff, text_eq_refl, starts_with, if◌then◌else◌, arith,
}
use vibe_voice_vendor.Wav.Metadata.{path_name}

pub record FilePath : Type 0 where
  pub directory : Text
  pub name : Text

pub record Disk : Type 0 where
  pub files : List FilePath
  pub dirs : List Text

abbrev pub path_eq : FilePath → FilePath → Bool
path_eq p q = text_eq p.directory q.directory && text_eq p.name q.name

unfoldable pub has_file : FilePath → List FilePath → Bool
has_file p [] = false
has_file p (q ∷ qs) = path_eq p q || has_file p qs

unfoldable pub without_file : FilePath → List FilePath → List FilePath
without_file p [] = []
without_file p (q ∷ qs) = let rest = without_file p qs in if path_eq p q then rest else q ∷ rest

unfoldable pub is_empty_dir : Text → List FilePath → Bool
is_empty_dir d [] = true
is_empty_dir d (q ∷ qs) = not (text_eq d q.directory) && is_empty_dir d qs

unfoldable pub has_dir : Text → List Text → Bool
has_dir d [] = false
has_dir d (e ∷ es) = text_eq d e || has_dir d es

unfoldable pub without_dir : Text → List Text → List Text
without_dir d [] = []
without_dir d (e ∷ es) = let rest = without_dir d es in if text_eq d e then rest else e ∷ rest

-- `os.unlink` with FileNotFoundError suppressed.
unfoldable pub unlink : FilePath → Disk → Disk
unlink p disk = record disk { files = without_file p disk.files }

-- `rmdir` with OSError suppressed: a directory that holds a file stays.
unfoldable pub rmdir : Text → Disk → Disk
rmdir d disk =
    if is_empty_dir d disk.files then record disk { dirs = without_dir d disk.dirs } else disk

abbrev pub upload_dir_prefix : Text
upload_dir_prefix = codes "vvv-upload-"

abbrev pub upload_file_name : Text
upload_file_name = codes "audio.audio"

-- The test that a path is one of the route's own upload files.
unfoldable pub is_upload_path : FilePath → Bool
is_upload_path p =
    text_eq p.name upload_file_name && starts_with (path_name p.directory) upload_dir_prefix

-- The file system's side of `discard_audio`.
unfoldable pub discard_file : FilePath → Disk → Disk
unfolding unlink rmdir
discard_file p disk =
    let unlinked = unlink p disk in
    if is_upload_path p then rmdir p.directory unlinked else unlinked

path_eq_trans : (p q r : FilePath) → path_eq q p ≡ true → path_eq r p ≡ true → path_eq r q ≡ true
path_eq_trans p q r h k = ground (
  arith,
  text_eq_iff q.directory p.directory,
  text_eq_iff r.directory p.directory,
  text_eq_iff q.name p.name,
  text_eq_iff r.name p.name,
  text_eq_iff r.directory q.directory,
  text_eq_iff r.name q.name,
)

pub path_eq_refl : (p : FilePath) → path_eq p p ≡ true
path_eq_refl p = ground (arith, text_eq_refl p.directory, text_eq_refl p.name)

pub path_eq-ne : (p q : FilePath) → p ≢ q → path_eq p q ≡ false
path_eq-ne p q n = elim (Bool-cases (path_eq p q)) [
  | inl b ↦
      let d : p.directory ≡ q.directory = ground (arith, text_eq_iff p.directory q.directory) in
      let m : p.name ≡ q.name = ground (arith, text_eq_iff p.name q.name) in
      absurd (n (λ i. record { directory = d i; name = m i }))
  | inr b ↦ b
]

pub has_file-without_file :
    (p q : FilePath) (fs : List FilePath)
    → has_file q (without_file p fs) ≡ (not (path_eq p q) && has_file q fs)
unfolding has_file without_file
has_file-without_file p q [] = ground arith
has_file-without_file p q (f ∷ fs) = ground (
  arith,
  has_file-without_file p q fs,
  text_eq_iff p.directory q.directory,
  text_eq_iff p.name q.name,
  text_eq_iff p.directory f.directory,
  text_eq_iff p.name f.name,
  text_eq_iff q.directory f.directory,
  text_eq_iff q.name f.name,
)

-- After `discard_file` the file is gone, and every other file is as it was.
pub has_file-discard_file :
    (p r : FilePath) (disk : Disk)
    → has_file r (discard_file p disk).files ≡ (not (path_eq p r) && has_file r disk.files)
unfolding discard_file
has_file-discard_file p r disk = ground (arith, has_file-without_file p r disk.files)

pub has_dir-without_dir :
    (d e : Text) (ds : List Text)
    → has_dir e (without_dir d ds) ≡ (not (text_eq d e) && has_dir e ds)
unfolding has_dir without_dir
has_dir-without_dir d e [] = ground arith
has_dir-without_dir d e (c ∷ ds) =
    ground (arith, has_dir-without_dir d e ds, text_eq_iff d e, text_eq_iff d c, text_eq_iff e c)

-- After `discard_file`, a directory is gone exactly if it was the directory of a path that the route
-- made itself and holds no file any more.
pub has_dir-discard_file :
    (p : FilePath) (d : Text) (disk : Disk)
    → has_dir d (discard_file p disk).dirs ≡ (
        not (
          is_upload_path p
          && is_empty_dir p.directory (without_file p disk.files)
          && text_eq p.directory d)
        && has_dir d disk.dirs)
unfolding discard_file
has_dir-discard_file p d disk = ground (arith, has_dir-without_dir p.directory d disk.dirs)
