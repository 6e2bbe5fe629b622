-- ===== src/Upload/Tests.antt =====
-- Small bodies and files, and the theorems of Upload at them.
use vibe_voice_vendor.Base.{
  ℕ, ◌≡◌, refl, ◌↔◌, true, false, none, some, List, [], ◌∷◌, codes, ok, err,
}
use vibe_voice_vendor.Upload.{
  Arrival, arrived, timed_out, body_stalled, body_too_large, limited_from, limited_request_stream,
  Read, read_chunk, write_failed, SpoolError, audio_too_large, empty_audio, os_error, spool_from,
  finish_spool, spool_upload,
}
use vibe_voice_vendor.Upload.Limit.{IsLimited, limited_request_stream-IsLimited}
use vibe_voice_vendor.Upload.Spool.{IsSpooled, spool_upload-outcome}

uploads : Unit {0}
unfolding limited_from spool_upload spool_from finish_spool
uploads = tt

abbrev body : List Arrival
body = arrived (codes "ab") ∷ arrived (codes "cd") ∷ timed_out ∷ []

bodies :
    (limited_request_stream 4 body
      ≡ record { yielded = codes "ab" ∷ codes "cd" ∷ []; ended = err body_stalled })
    × (limited_request_stream 3 body
        ≡ record { yielded = codes "ab" ∷ []; ended = err body_too_large })
unfolding uploads
bodies = (refl, refl)

abbrev reads : List Read
reads = read_chunk (codes "ab") ∷ read_chunk (codes "c") ∷ read_chunk [] ∷ []

spools :
    (spool_upload 3 true reads ≡ record { left = some (codes "abc"); result = ok 3 })
    × (spool_upload 2 true reads ≡ record { left = none; result = err audio_too_large })
    × (spool_upload 3 true [] ≡ record { left = none; result = err empty_audio })
    × (spool_upload 3 true (write_failed (codes "a") ∷ [])
        ≡ record { left = none; result = err os_error })
    × (spool_upload 3 false reads ≡ record { left = none; result = err os_error })
unfolding uploads
spools = (refl, refl, refl, refl, refl)

limited_request_stream-IsLimited_example : IsLimited 3 0 body (limited_request_stream 3 body)
limited_request_stream-IsLimited_example = limited_request_stream-IsLimited 3 body

spool_upload-outcome_example :
    ((total : ℕ)
      → ((spool_upload 3 true reads).result ≡ ok total)
        ↔ IsSpooled 3 true reads (spool_upload 3 true reads) total)
    × ((e : SpoolError)
        → (spool_upload 3 true reads).result ≡ err e
        → (spool_upload 3 true reads).left ≡ none)
spool_upload-outcome_example = spool_upload-outcome 3 true reads
