-- ===== src/Queue/Events/Invariant.antt =====
-- What holds of the queue after every history of events, and what follows for its clients.
use vibe_voice_vendor.Base.{ℕ, length, ◌≤◌, ◌≡◌, refl, ◌∙◌, Bool, List, [], ◌∷◌, arith, ok}
use vibe_voice_vendor.Models.{JobId}
use vibe_voice_vendor.Keys.{mem, distinct}
use vibe_voice_vendor.Disk.{Disk}
use vibe_voice_vendor.Queue.{TranscriptionQueue, count_active, active_count, init, new_job}
use vibe_voice_vendor.Queue.Events.{Event, react, run}
use vibe_voice_vendor.Queue.Events.JobOk.{OkAt, all_chunks}
use vibe_voice_vendor.Queue.Events.Capacity.{react-bounded, max_size-react, react-short}
use vibe_voice_vendor.Queue.Events.Distinct.{AllDistinct, react-AllDistinct}
use vibe_voice_vendor.Queue.Events.Each.{react-OkAt}

pub record Inv (q : TranscriptionQueue) : Type 0 where
  pub apart : AllDistinct q
  pub bounded : active_count q ≤ q.max_size
  pub each : (j : JobId) → OkAt j q

-- Every event keeps the invariant.
pub react-Inv : (e : Event) (q : TranscriptionQueue) → Inv q → Inv (react e q)
react-Inv e q v = record {
  apart = react-AllDistinct e q v.each v.apart;
  bounded = react-bounded e q v.each v.bounded;
  each = λ j. react-OkAt e q j v.apart.jobs v.apart.pending v.apart.sweeping v.each;
}

pub run-Inv : (es : List Event) (q : TranscriptionQueue) → Inv q → Inv (run es q)
unfolding run
run-Inv [] q v = v
run-Inv (e ∷ es) q v = run-Inv es (react e q) (react-Inv e q v)

pub init-Inv :
    (max_size : ℕ) (set : Bool) (disk : Disk) (q : TranscriptionQueue)
    → init max_size set disk ≡ ok q
    → Inv q
unfolding init new_job mem distinct count_active all_chunks
init-Inv max_size set disk q e = record {
  apart = ground arith;
  bounded = ground arith;
  each = λ j. ground arith;
}

pub max_size-run :
    (es : List Event) (q : TranscriptionQueue) → Inv q → (run es q).max_size ≡ q.max_size
unfolding run
max_size-run [] q v = refl
max_size-run (e ∷ es) q v =
    max_size-run es (react e q) (react-Inv e q v) ∙ max_size-react e q v.each

pub run-short :
    (es : List Event) (q : TranscriptionQueue)
    → Inv q
    → length q.processing_times ≤ 20
    → length (run es q).processing_times ≤ 20
unfolding run
run-short [] q v h = h
run-short (e ∷ es) q v h = run-short es (react e q) (react-Inv e q v) (react-short e q v.each h)
