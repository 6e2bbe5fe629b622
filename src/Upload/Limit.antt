-- ===== src/Upload/Limit.antt =====
-- What passes the limit on a request's body.
use vibe_voice_vendor.Base.{
  ℕ, ◌+◌, ◌≤◌, ◌<◌, ◌≡◌, refl, sym, subst, ap, inl, inr, ltb, Bool-cases, List, [], ◌∷◌, ◌++◌,
  length, map, Text, arith, Result, ok, err,
}
use vibe_voice_vendor.Upload.{
  Arrival, arrived, timed_out, stream_raised, StreamError, body_stalled, body_too_large,
  stream_error, Body, limited_from, limited_request_stream,
}

-- The number of bytes in a list of chunks.
abbrev pub total_length : List Text → ℕ
total_length [] = 0
total_length (c ∷ cs) = length c + total_length cs

-- Why the chunks ended where they did, with `rest` not yet consumed after them.
pub data EndsBy (limit passed : ℕ) : List Arrival → Result StreamError (Unit {0}) → Type 0 where
  at_end : EndsBy limit passed [] (ok tt)
  by_timeout : (more : List Arrival) → EndsBy limit passed (timed_out ∷ more) (err body_stalled)
  by_stream :
      (name : Text) (more : List Arrival)
      → EndsBy limit passed (stream_raised name ∷ more) (err (stream_error name))
  by_limit :
      (chunk : Text) (more : List Arrival)
      → limit < passed + length chunk
      → EndsBy limit passed (arrived chunk ∷ more) (err body_too_large)

pub record IsLimited (limit before : ℕ) (arrivals : List Arrival) (body : Body) : Type 0 where
  pub rest : List Arrival
  pub in_order : arrivals ≡ map arrived body.yielded ++ rest
  pub within : before ≤ limit → before + total_length body.yielded ≤ limit
  pub reason : EndsBy limit (before + total_length body.yielded) rest body.ended

-- A chunk that fits goes in front of what the loop yields after it.
IsLimited-arrived :
    (limit before : ℕ) (chunk : Text) (more : List Arrival) (body : Body)
    → before + length chunk ≤ limit
    → IsLimited limit (before + length chunk) more body
    → IsLimited limit before
        (arrived chunk ∷ more)
        (record { yielded = chunk ∷ body.yielded; ended = body.ended })
IsLimited-arrived limit before chunk more body fits w =
    let same : before + total_length (chunk ∷ body.yielded)
        ≡ before + length chunk + total_length body.yielded =
      omega arith in
    record {
      rest = w.rest;
      in_order = ap (◌∷◌ (arrived chunk)) w.in_order;
      within = λ h. omega (arith, w.within fits);
      reason = subst (λ n. EndsBy limit n w.rest body.ended) (sym same) w.reason;
    }

limited_from-IsLimited :
    (limit before : ℕ) (arrivals : List Arrival)
    → IsLimited limit before arrivals (limited_from limit before arrivals)
unfolding limited_from
limited_from-IsLimited limit before [] = record {
  rest = [];
  in_order = refl;
  within = λ h. omega arith;
  reason = at_end;
}
limited_from-IsLimited limit before (timed_out ∷ more) = record {
  rest = timed_out ∷ more;
  in_order = refl;
  within = λ h. omega arith;
  reason = by_timeout more;
}
limited_from-IsLimited limit before (stream_raised name ∷ more) = record {
  rest = stream_raised name ∷ more;
  in_order = refl;
  within = λ h. omega arith;
  reason = by_stream name more;
}
limited_from-IsLimited limit before (arrived chunk ∷ more) =
    elim (Bool-cases (ltb limit (before + length chunk))) [
      | inl b ↦ rw b (record {
        rest = arrived chunk ∷ more;
        in_order = refl;
        within = λ h. omega arith;
        reason = by_limit chunk more (ground arith);
      })
      | inr b ↦ rw b (
          IsLimited-arrived limit before chunk more _ (ground arith)
            (limited_from-IsLimited limit (before + length chunk) more))
    ]

-- What the multipart parser is given: the chunks of the body in their order, at most `limit` bytes
-- of them in all; and the generator ends exactly for the cause that stands next: the end of the
-- body, a timeout (`Request body stalled`), an exception of the stream, or a chunk that would exceed
-- the limit (`Request body too large`).
pub limited_request_stream-IsLimited :
    (limit : ℕ) (arrivals : List Arrival)
    → IsLimited limit 0 arrivals (limited_request_stream limit arrivals)
limited_request_stream-IsLimited limit arrivals = limited_from-IsLimited limit 0 arrivals
