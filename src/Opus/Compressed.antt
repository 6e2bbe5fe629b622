-- ===== src/Opus/Compressed.antt =====
-- How a compression ends and what it leaves.
use vibe_voice_vendor.Base.{
  ℕ, ◌≡◌, ◌≢◌, ◌↔◌, refl, ap, Bool, true, false, Option, none, some, Text, arith, Result, ok,
}
use vibe_voice_vendor.Opus.{
  Communicated, finished, timed_out, task_cancelled, communicate_raised, Drained, OpusError,
  running, Ffmpeg, Converted, check_exit, read_output, convert, compress_file_to_opus,
  compress_to_opus,
}

-- What is given back is the output of a run that ended with status 0.
abbrev pub GivesOutput : Ffmpeg → Result OpusError Text → Type 0
GivesOutput f result =
    (bytes : Text)
    → (result ≡ ok bytes) ↔ (
        (f.starts ≡ true)
        × ((stderr : Text) × (f.communicated ≡ finished 0 stderr))
        × (f.output ≡ some bytes))

-- The output file is gone, and the process is not left running, unless `communicate` raised.
pub record IsCleaned (f : Ffmpeg) (source : Bool) (r : Converted) : Type 0 where
  pub source_kept : r.1.source_exists ≡ source
  pub output_gone : r.1.output_exists ≡ false
  pub process_over : f.communicated ≢ communicate_raised → r.1.process ≢ running
  pub gives : GivesOutput f r.0

read_output-ok_iff :
    (output : Option Text) (bytes : Text) → (read_output output ≡ ok bytes) ↔ (output ≡ some bytes)
unfolding read_output
read_output-ok_iff none bytes = ground arith
read_output-ok_iff (some b) bytes = ground arith

check_exit-ok_iff :
    (status : ℕ) (stderr : Text) (output : Option Text) (bytes : Text)
    → (check_exit (ok (status, stderr)) output ≡ ok bytes) ↔ ((status ≡ 0) × (output ≡ some bytes))
unfolding check_exit
check_exit-ok_iff status stderr output bytes = ground (arith, read_output-ok_iff output bytes)

abbrev ffmpeg : Bool → Communicated → Drained → Option Text → Ffmpeg
ffmpeg b c d o = record { starts = b; communicated = c; drained = d; output = o }

finished-GivesOutput :
    (status : ℕ) (stderr : Text) (d : Drained) (o : Option Text)
    → GivesOutput (ffmpeg true (finished status stderr) d o) (check_exit (ok (status, stderr)) o)
finished-GivesOutput status stderr d o bytes =
    let both = check_exit-ok_iff status stderr o bytes in
    (
      λ h. (refl, (stderr, ap (λ n. finished n stderr) (both.0 h).0), (both.0 h).1),
      λ (t, (e, same), found). both.1 (ground arith, found),
    )

compressed-IsCleaned :
    (b : Bool) (c : Communicated) (d : Drained) (o : Option Text) (source : Bool)
    → IsCleaned (ffmpeg b c d o) source (compress_file_to_opus (ffmpeg b c d o) source)
unfolding compress_file_to_opus convert
compressed-IsCleaned false c d o source = record {
  source_kept = refl;
  output_gone = refl;
  process_over = λ n e. ground arith;
  gives = λ bytes. (λ h. ground arith, λ (t, e, found). ground arith);
}
compressed-IsCleaned true (finished status stderr) d o source = record {
  source_kept = refl;
  output_gone = refl;
  process_over = λ n e. ground arith;
  gives = finished-GivesOutput status stderr d o;
}
compressed-IsCleaned true timed_out d o source = record {
  source_kept = refl;
  output_gone = refl;
  process_over = λ n e. ground arith;
  gives = λ bytes. (λ h. ground arith, λ (t, (e, same), found). ground arith);
}
compressed-IsCleaned true task_cancelled d o source = record {
  source_kept = refl;
  output_gone = refl;
  process_over = λ n e. ground arith;
  gives = λ bytes. (λ h. ground arith, λ (t, (e, same), found). ground arith);
}
compressed-IsCleaned true communicate_raised d o source = record {
  source_kept = refl;
  output_gone = refl;
  process_over = λ n. absurd (n refl);
  gives = λ bytes. (λ h. ground arith, λ (t, (e, same), found). ground arith);
}

-- However the process starts, ends or is killed, the output file is gone afterwards and the source is as
-- it was; the process is not left running, unless `communicate` raised something else than its timeout or
-- a cancellation; and bytes are given back exactly if the process started and ended with status 0 and
-- they are what its output file held.
pub compress_file_to_opus-IsCleaned :
    (f : Ffmpeg) (source : Bool) → IsCleaned f source (compress_file_to_opus f source)
compress_file_to_opus-IsCleaned f source =
    compressed-IsCleaned f.starts f.communicated f.drained f.output source

-- A recording in memory is compressed in the same way, and its source file is gone too.
pub compress_to_opus-removes :
    (f : Ffmpeg)
    → ((compress_to_opus f).1.source_exists ≡ false)
      × ((compress_to_opus f).1.output_exists ≡ false)
      × GivesOutput f (compress_to_opus f).0
unfolding compress_to_opus
compress_to_opus-removes f =
    let w = compress_file_to_opus-IsCleaned f true in (refl, w.output_gone, w.gives)
