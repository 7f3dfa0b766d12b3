-- ===== src/Threading/SpinSharedMutex.antt =====
-- `SpinSharedMutex` of threading/SpinSharedMutex.hpp: the word `state_` and what each thread is about
-- to do to it. Each atomic operation is one step; the steps of the threads interleave in any order.
-- The memory orders are not modelled: the steps are sequentially consistent.
pub mod Counting
pub mod Exclusion
pub mod Release
use quickstep_streaming.Prelude.{
  ℕ, ◌+◌, ◌-◌, ◌%◌, ◌≡◌, List, Bool, Option, some, leb, ◌==◌, if◌then◌else◌, get_elem?, modify,
  replicate,
}

-- `kWriteBit`, and one past the largest 32-bit word.
abbrev pub write_bit : ℕ
write_bit = 2147483648

abbrev pub word_mod : ℕ
word_mod = 4294967296

-- `state & kWriteBit`
abbrev pub has_write_bit : ℕ → Bool
has_write_bit w = leb write_bit w

-- The atomic operations on the word.
abbrev pub fetch_or_write_bit : ℕ → ℕ
fetch_or_write_bit w = if has_write_bit w then w else w + write_bit

abbrev pub fetch_and_not_write_bit : ℕ → ℕ
fetch_and_not_write_bit w = if has_write_bit w then w - write_bit else w

abbrev pub fetch_add_one : ℕ → ℕ
fetch_add_one w = (w + 1) % word_mod

abbrev pub fetch_sub_one : ℕ → ℕ
fetch_sub_one w = (w + (word_mod - 1)) % word_mod

-- Where a thread is: outside; in `lock` before the `fetch_or`, or waiting for the readers; holding
-- the exclusive lock; in `lockShared` before the `fetch_add`, before the `fetch_sub`, or spinning
-- until the write bit is clear; holding a shared lock.
pub data Phase : Type 0 where
  idle setting_bit waiting_readers exclusive : Phase
  acquiring backing_off spinning shared : Phase

-- What one thread does in one step to the word and to its place.
pub data Atomic (w : ℕ) : Phase → ℕ → Phase → Type 0 where
  call_lock : Atomic w idle w setting_bit
  set_write_bit :
      Atomic w setting_bit
        (fetch_or_write_bit w)
        (if has_write_bit w then setting_bit else if w == 0 then exclusive else waiting_readers)
  observe_readers :
      Atomic w waiting_readers w (if w == write_bit then exclusive else waiting_readers)
  unlock : Atomic w exclusive (fetch_and_not_write_bit w) idle
  call_lock_shared : Atomic w idle w acquiring
  add_reader :
      Atomic w acquiring (fetch_add_one w) (if has_write_bit w then backing_off else shared)
  back_off :
      Atomic w backing_off (fetch_sub_one w) (if has_write_bit w then spinning else acquiring)
  observe_write_bit : Atomic w spinning w (if has_write_bit w then spinning else acquiring)
  unlock_shared : Atomic w shared (fetch_sub_one w) idle

-- `state_` and the threads.
pub record State : Type 0 where
  pub word : ℕ
  pub threads : List Phase

-- The constructor, with `n` threads outside.
abbrev pub initial : ℕ → State
initial n = record { word = 0; threads = replicate n idle }

-- One thread makes a step.
pub data Step : State → State → Type 0 where
  step :
      {w w' : ℕ} {ps : List Phase} {p p' : Phase} (i : ℕ)
      → get_elem? ps i ≡ some p
      → Atomic w p w' p'
      → Step
          (record { word = w; threads = ps })
          (record { word = w'; threads = modify ps i (λ _. p') })

-- Any number of steps.
pub data Steps : State → State → Type 0 where
  done : {st : State} → Steps st st
  extend : {st st' st'' : State} → Steps st st' → Step st' st'' → Steps st st''
