-- ===== src/Queue/Status/Positions.antt =====
-- What the reported positions mean: the rank of a queued job among the queued jobs in the order of
-- `_jobs`, that is of their reservation.
use vibe_voice_vendor.Base.{
  ℕ, ◌+◌, ◌≡◌, refl, true, false, ◌&&◌, none, some, List, [], ◌∷◌, ◌==◌, if◌then◌else◌, arith, ◌∙◌,
}
use vibe_voice_vendor.Models.{JobId, is_queued}
use vibe_voice_vendor.Keys.{mem, distinct}
use vibe_voice_vendor.Queue.{TranscriptionJob, TranscriptionQueue}
use vibe_voice_vendor.Queue.Status.{position_from, get_position, count_queued}

-- The jobs reserved before `id`.
unfoldable pub before : JobId → List JobId → List JobId
before id [] = []
before id (k ∷ ks) = if k == id then [] else k ∷ before id ks

count_absent :
    (heap : JobId → TranscriptionJob) (id : JobId) (n : ℕ) (ks : List JobId)
    → mem id ks ≡ false
    → position_from heap id n ks ≡ none
unfolding position_from mem
count_absent heap id n [] m = refl
count_absent heap id n (k ∷ ks) m =
    ground (arith, count_absent heap id (n + 1) ks, count_absent heap id n ks)

position_from-rank :
    (heap : JobId → TranscriptionJob) (id : JobId) (n : ℕ) (ks : List JobId)
    → distinct ks ≡ true
    → position_from heap id n ks ≡ (
        if mem id ks && is_queued (heap id).status
        then some (n + count_queued heap (before id ks) + 1)
        else none)
unfolding position_from mem distinct count_queued before
position_from-rank heap id n [] d = refl
position_from-rank heap id n (k ∷ ks) d = ground (
  arith,
  position_from-rank heap id (n + 1) ks,
  position_from-rank heap id n ks,
  count_absent heap id (n + 1) ks,
  count_absent heap id n ks,
)

-- A job has a position exactly if it is listed and queued, and then it is one more than the number of
-- queued jobs that were reserved before it.
pub get_position-eq-rank :
    (id : JobId) (q : TranscriptionQueue)
    → distinct q.jobs ≡ true
    → get_position id q ≡ (
        if mem id q.jobs && is_queued (q.heap id).status
        then some (count_queued q.heap (before id q.jobs) + 1)
        else none)
unfolding get_position
get_position-eq-rank id q d = position_from-rank q.heap id 0 q.jobs d ∙ ground arith
