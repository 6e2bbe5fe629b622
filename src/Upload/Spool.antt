-- ===== src/Upload/Spool.antt =====
-- What `_spool_upload` leaves behind.
use mathlib.Core.List.{append_assoc, append-nil}
use vibe_voice_vendor.Base.{
  ℕ, ◌≤◌, ◌<◌, ◌≡◌, refl, sym, ◌∙◌, ap, subst, ◌↔◌, Bool, true, false, Option, none, some, List, [],
  ◌∷◌, ◌++◌, length, Text, arith, Result, ok, err, length-append,
}
use vibe_voice_vendor.Upload.{
  Read, read_chunk, write_failed, read_os_error, read_cancelled, read_raised, SpoolError,
  spool_from, finish_spool, spool_upload, Spooled,
}

abbrev prepend : Text → Option Text → Option Text
prepend first none = none
prepend first (some s) = some (first ++ s)

-- The bytes that the reads bring before the first empty one, where all of them are written.
abbrev pub gathered : List Read → Option Text
gathered [] = some []
gathered (read_chunk [] ∷ more) = some []
gathered (write_failed [] ∷ more) = some []
gathered (read_chunk (c ∷ cs) ∷ more) = prepend (c ∷ cs) (gathered more)
gathered (_ ∷ more) = none

-- The result of the loop, where it ends without an exception.
record IsCopied (limit : ℕ) (before : Text) (reads : List Read) (copied : Text × ℕ) : Type 0 where
  gathered_text : Text
  gathers : gathered reads ≡ some gathered_text
  written : copied.0 ≡ before ++ gathered_text
  counted : copied.1 ≡ length (before ++ gathered_text)
  within : copied.1 ≤ limit

IsCopied-nothing :
    (limit : ℕ) (before : Text) (reads : List Read) (copied : Text × ℕ)
    → gathered reads ≡ some []
    → length before ≤ limit
    → copied ≡ (before, length before)
    → IsCopied limit before reads copied
IsCopied-nothing limit before reads copied g h e =
    let whole = append-nil before in
    record {
      gathered_text = [];
      gathers = g;
      written = ground (arith, whole);
      counted = ground (arith, whole);
      within = ground arith;
    }

gathered-chunk :
    (c : ℕ) (cs s : Text) (more : List Read)
    → gathered more ≡ some s
    → gathered (read_chunk (c ∷ cs) ∷ more) ≡ some ((c ∷ cs) ++ s)
gathered-chunk c cs s more h = rw h refl

spool_from_sound :
    (limit : ℕ) (before : Text) (reads : List Read) (copied : Text × ℕ)
    → length before ≤ limit
    → spool_from limit before (length before) reads ≡ ok copied
    → IsCopied limit before reads copied
unfolding spool_from
spool_from_sound limit before [] copied h e =
    IsCopied-nothing limit before [] copied refl h (ground arith)
spool_from_sound limit before (read_os_error ∷ more) copied h e = ground arith
spool_from_sound limit before (read_cancelled ∷ more) copied h e = ground arith
spool_from_sound limit before (read_raised name ∷ more) copied h e = ground arith
spool_from_sound limit before (write_failed [] ∷ more) copied h e =
    IsCopied-nothing limit before (write_failed [] ∷ more) copied refl h (ground arith)
spool_from_sound limit before (write_failed (c ∷ cs) ∷ more) copied h e = ground arith
spool_from_sound limit before (read_chunk [] ∷ more) copied h e =
    IsCopied-nothing limit before (read_chunk [] ∷ more) copied refl h (ground arith)
spool_from_sound limit before (read_chunk (c ∷ cs) ∷ more) copied h e =
    let size = length-append before (c ∷ cs) in
    let fits : length (before ++ c ∷ cs) ≤ limit = ground (arith, size) in
    let w = spool_from_sound limit (before ++ c ∷ cs) more copied fits (
      subst (λ n. spool_from limit (before ++ c ∷ cs) n more ≡ ok copied) (sym size)
        (ground arith)) in
    let joined = append_assoc before (c ∷ cs) w.gathered_text in
    record {
      gathered_text = (c ∷ cs) ++ w.gathered_text;
      gathers = gathered-chunk c cs w.gathered_text more w.gathers;
      written = w.written ∙ joined;
      counted = w.counted ∙ ap length joined;
      within = w.within;
    }

prepend_inversion :
    (first s : Text) (r : Option Text)
    → prepend first r ≡ some s
    → (t : Text) × (r ≡ some t) × (s ≡ first ++ t)
prepend_inversion first s none h = ground arith
prepend_inversion first s (some t) h = (t, refl, ground arith)

spool_from_complete :
    (limit : ℕ) (before s : Text) (reads : List Read)
    → gathered reads ≡ some s
    → length (before ++ s) ≤ limit
    → spool_from limit before (length before) reads ≡ ok (before ++ s, length (before ++ s))
unfolding spool_from
spool_from_complete limit before s [] g h = ground (arith, append-nil before)
spool_from_complete limit before s (read_os_error ∷ more) g h = ground arith
spool_from_complete limit before s (read_cancelled ∷ more) g h = ground arith
spool_from_complete limit before s (read_raised name ∷ more) g h = ground arith
spool_from_complete limit before s (write_failed [] ∷ more) g h = ground (arith, append-nil before)
spool_from_complete limit before s (write_failed (c ∷ cs) ∷ more) g h = ground arith
spool_from_complete limit before s (read_chunk [] ∷ more) g h = ground (arith, append-nil before)
spool_from_complete limit before s (read_chunk (c ∷ cs) ∷ more) g h =
    let found = prepend_inversion (c ∷ cs) s (gathered more) g in
    let t = found.0 in
    let size = length-append before (c ∷ cs) in
    let joined : before ++ c ∷ cs ++ t ≡ before ++ s =
      append_assoc before (c ∷ cs) t ∙ ap (λ u. before ++ u) (sym found.2) in
    let rest =
      spool_from_complete limit (before ++ c ∷ cs) t more found.1 (ground (arith, joined)) in
    let moved =
      subst
        (λ n.
          spool_from limit (before ++ c ∷ cs) n more
          ≡ ok (before ++ c ∷ cs ++ t, length (before ++ c ∷ cs ++ t)))
        size rest in
    ground (arith, moved, joined, length-append (before ++ c ∷ cs) t)

-- An upload that is kept: its bytes are those of the reads, there is one at least, and they are
-- within the limit.
pub record IsSpooled (limit : ℕ) (opened : Bool) (reads : List Read) (spooled : Spooled) (total : ℕ)
    : Type 0 where
  pub contents : Text
  pub is_open : opened ≡ true
  pub gathers : gathered reads ≡ some contents
  pub total_is : total ≡ length contents
  pub non_empty : 0 < total
  pub within : total ≤ limit
  pub kept : spooled.left ≡ some contents

copied_sound :
    (limit : ℕ) (reads : List Read) (r : Result SpoolError (Text × ℕ)) (total : ℕ)
    → spool_from limit [] 0 reads ≡ r
    → (finish_spool r).result ≡ ok total
    → IsSpooled limit true reads (finish_spool r) total
unfolding finish_spool
copied_sound limit reads (err e) total h k = ground arith
copied_sound limit reads (ok copied) total h k =
    let w = spool_from_sound limit [] reads copied (omega arith) h in
    record {
      contents = w.gathered_text;
      is_open = refl;
      gathers = w.gathers;
      total_is = ground (arith, w.counted);
      non_empty = ground arith;
      within = ground (arith, w.within);
      kept = ground (arith, w.written);
    }

spool_upload_sound :
    (limit : ℕ) (opened : Bool) (reads : List Read) (total : ℕ)
    → (spool_upload limit opened reads).result ≡ ok total
    → IsSpooled limit opened reads (spool_upload limit opened reads) total
unfolding spool_upload
spool_upload_sound limit false reads total h = ground arith
spool_upload_sound limit true reads total h =
    copied_sound limit reads (spool_from limit [] 0 reads) total refl h

spool_upload_complete :
    (limit : ℕ) (s : Text) (reads : List Read)
    → gathered reads ≡ some s
    → 0 < length s
    → length s ≤ limit
    → (spool_upload limit true reads).result ≡ ok (length s)
unfolding spool_upload finish_spool
spool_upload_complete limit s reads g n h =
    rw (spool_from_complete limit [] s reads g h) (ground arith)

failed_leaves_nothing :
    (r : Result SpoolError (Text × ℕ)) (e : SpoolError)
    → (finish_spool r).result ≡ err e
    → (finish_spool r).left ≡ none
unfolding finish_spool
failed_leaves_nothing (err e') e h = refl
failed_leaves_nothing (ok copied) e h = ground arith

left_after_error :
    (limit : ℕ) (opened : Bool) (reads : List Read) (e : SpoolError)
    → (spool_upload limit opened reads).result ≡ err e
    → (spool_upload limit opened reads).left ≡ none
unfolding spool_upload
left_after_error limit false reads e h = refl
left_after_error limit true reads e h = failed_leaves_nothing (spool_from limit [] 0 reads) e h

-- However opening, reading and writing go, the upload is kept with the given total exactly if the
-- file could be opened, every chunk was read and written up to the first empty one, and their bytes,
-- which are then the file's, number that total, one at least and the limit at most; and whenever the
-- function raises instead, the upload's directory is gone.
pub spool_upload-outcome :
    (limit : ℕ) (opened : Bool) (reads : List Read)
    → ((total : ℕ)
        → ((spool_upload limit opened reads).result ≡ ok total)
          ↔ IsSpooled limit opened reads (spool_upload limit opened reads) total)
      × ((e : SpoolError)
          → (spool_upload limit opened reads).result ≡ err e
          → (spool_upload limit opened reads).left ≡ none)
spool_upload-outcome limit opened reads = (
  λ total. (
    spool_upload_sound limit opened reads total,
    λ w.
        rw (w.is_open, w.total_is)
          (spool_upload_complete limit w.contents reads w.gathers
            (omega (arith, w.total_is, w.non_empty)) (omega (arith, w.total_is, w.within))),
  ),
  left_after_error limit opened reads,
)
