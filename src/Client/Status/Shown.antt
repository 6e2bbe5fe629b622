-- ===== src/Client/Status/Shown.antt =====
-- From the queue to the lines that its client is shown.
use std.Path.{ap₂}
use mathlib.Core.List.{append_assoc}
use vibe_voice_vendor.Base.{
  ℕ, Option, none, some, length, take, filter, inl, inr, Bool-cases, arith, ◌≡◌, refl, ap, ◌∙◌,
  List, [], ◌∷◌, ◌++◌, map, Text, codes, text_eq, decimal, Fraction,
}
use vibe_voice_vendor.Models.{JobId, JobInfo, is_queued}
use vibe_voice_vendor.Queue.{TranscriptionQueue}
use vibe_voice_vendor.Queue.Status.{
  get_position, estimate_wait, eta_of, jobs_of, count_queued, job_info, get_queue_info,
}
use vibe_voice_vendor.Client.Status.{
  status_name, position_part, eta_part, job_line, job_lines, print_status,
}

module _ (rounded : Fraction → Text) (hex : JobId → Text) (client : Text)
    (q : TranscriptionQueue) where
  -- The jobs of the client, in the order of their reservation.
  abbrev pub own_jobs : List JobId
  own_jobs = filter (λ k. text_eq (q.heap k).client_identity client) q.jobs

  -- The place of a queued job in the line, with the time that it is expected to wait.
  abbrev pub place_text : Option ℕ → Text
  place_text none = []
  place_text (some n) =
      (codes " position=" ++ decimal n)
      ++ (codes " eta=" ++ rounded (estimate_wait n q) ++ codes "s")

  abbrev pub line_of : JobId → Text
  line_of k =
      codes "  "
      ++ take 8 (hex (q.heap k).job_id)
      ++ codes "... status="
      ++ status_name (q.heap k).status
      ++ place_text (get_position k q)

  -- One line for each job.
  abbrev pub lines_of : List JobId → List Text
  lines_of [] = codes "No active jobs." ∷ []
  lines_of (k ∷ ks) = codes "Your jobs:" ∷ map line_of (k ∷ ks)

  place_text-parts :
      (position : Option ℕ)
      → position_part position ++ eta_part rounded (eta_of q position) ≡ place_text position
  place_text-parts none = refl
  place_text-parts (some n) = refl

  job_line-job_info : (k : JobId) → job_line rounded hex (job_info q k) ≡ line_of k
  unfolding job_line job_info
  job_line-job_info k =
      let start =
        codes "  "
        ++ take 8 (hex (q.heap k).job_id)
        ++ codes "... status="
        ++ status_name (q.heap k).status in
      append_assoc start (position_part (get_position k q))
        (eta_part rounded (eta_of q (get_position k q)))
      ∙ ap (λ place. start ++ place) (place_text-parts (get_position k q))

  map-jobs_of :
      (ks : List JobId)
      → map (job_line rounded hex) (jobs_of q client ks)
        ≡ map line_of (filter (λ k. text_eq (q.heap k).client_identity client) ks)
  unfolding jobs_of
  map-jobs_of [] = refl
  map-jobs_of (k ∷ ks) = elim (Bool-cases (text_eq (q.heap k).client_identity client)) [
    | inl b ↦ rw b (ap₂ (λ line lines. line ∷ lines) (job_line-job_info k) (map-jobs_of ks))
    | inr b ↦ rw b (map-jobs_of ks)
  ]

  job_lines-map :
      (jobs : List JobInfo) (ks : List JobId)
      → map (job_line rounded hex) jobs ≡ map line_of ks
      → job_lines rounded hex jobs ≡ lines_of ks
  unfolding job_lines
  job_lines-map [] [] h = refl
  job_lines-map [] (k ∷ ks) h = ground arith
  job_lines-map (job ∷ jobs) [] h = ground arith
  job_lines-map (job ∷ jobs) (k ∷ ks) h = ap (◌∷◌ (codes "Your jobs:")) h

  count_queued-filter :
      (ks : List JobId)
      → count_queued q.heap ks ≡ length (filter (λ k. is_queued (q.heap k).status) ks)
  unfolding count_queued
  count_queued-filter [] = refl
  count_queued-filter (k ∷ ks) = ground (arith, count_queued-filter ks)

  -- The client is shown how many jobs in the queue are queued, of all clients, and then one line for each
  -- of its own jobs, in the order of their reservation, or that it has none. The line of a job has the
  -- first eight characters of its id, its status and, exactly if it has a position, that and
  -- its estimated wait.
  pub print_status-owned :
      print_status rounded hex (get_queue_info client q)
      ≡ (codes "Total queued: "
          ++ decimal (length (filter (λ k. is_queued (q.heap k).status) q.jobs)))
        ∷ lines_of own_jobs
  unfolding print_status get_queue_info
  print_status-owned =
      ap₂ (λ n lines. (codes "Total queued: " ++ decimal n) ∷ lines) (count_queued-filter q.jobs)
        (job_lines-map (jobs_of q client q.jobs) own_jobs (map-jobs_of q.jobs))
