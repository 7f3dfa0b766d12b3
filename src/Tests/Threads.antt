-- ===== src/Tests/Threads.antt =====
-- Two threads at the shared spin lock.
use quickstep_streaming.Prelude.{◌≤◌, ◌<◌, ◌≡◌, refl, [], ◌∷◌, arith}
use quickstep_streaming.Threading.SpinSharedMutex.{
  exclusive, backing_off, State, initial, Steps, done, extend, step, call_lock, set_write_bit,
  call_lock_shared, add_reader,
}
use quickstep_streaming.Threading.SpinSharedMutex.Counting.{total, holds_exclusive, holds_shared}
use quickstep_streaming.Threading.SpinSharedMutex.Release.{release}
use quickstep_streaming.Threading.SpinSharedMutex.Exclusion.{mutual_exclusion}

-- The first thread has locked, the second one is about to back off.
abbrev contended : State
contended = record { word = 2147483649; threads = exclusive ∷ backing_off ∷ [] }

steps : Steps (initial 2) contended
steps =
    extend
      (extend (extend (extend done (step 0 refl call_lock)) (step 0 refl set_write_bit))
        (step 1 refl call_lock_shared))
      (step 1 refl add_reader)

mutual_exclusion_example :
    (total holds_exclusive contended.threads ≤ 1)
    × (0 < total holds_exclusive contended.threads → total holds_shared contended.threads ≡ 0)
mutual_exclusion_example = mutual_exclusion 2 contended (omega arith) steps

release_example : Steps contended (initial 2)
release_example = release 2 contended (omega arith) steps
