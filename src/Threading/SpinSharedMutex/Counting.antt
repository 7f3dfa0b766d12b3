-- ===== src/Threading/SpinSharedMutex/Counting.antt =====
-- How many threads are at which phases of threading/SpinSharedMutex.hpp.
use quickstep_streaming.Prelude.{
  ℕ, zero, suc, ◌+◌, ◌≤◌, ◌≡◌, refl, ap, List, [], ◌∷◌, some, length, get_elem?, modify, replicate,
  arith, length-modify,
}
use mathlib.Core.Option.{some-injective}
use quickstep_streaming.Threading.SpinSharedMutex.{
  Phase, idle, setting_bit, waiting_readers, exclusive, acquiring, backing_off, spinning, shared,
}

-- The threads at a phase, or at one of several.
unfoldable pub total : (Phase → ℕ) → List Phase → ℕ
total f [] = 0
total f (p ∷ ps) = f p + total f ps

abbrev pub holds_exclusive : Phase → ℕ
holds_exclusive exclusive = 1
holds_exclusive _ = 0

abbrev pub holds_shared : Phase → ℕ
holds_shared shared = 1
holds_shared _ = 0

-- A thread whose write bit is in the word, and one that is counted in it.
abbrev pub owns_write_bit : Phase → ℕ
owns_write_bit exclusive = 1
owns_write_bit waiting_readers = 1
owns_write_bit _ = 0

abbrev pub is_counted : Phase → ℕ
is_counted shared = 1
is_counted backing_off = 1
is_counted _ = 0

pub total-modify :
    (f : Phase → ℕ) (ps : List Phase) (i : ℕ) (p p' : Phase)
    → get_elem? ps i ≡ some p
    → total f (modify ps i (λ _. p')) + f p ≡ total f ps + f p'
unfolding total
total-modify f [] i p p' e = cc
total-modify f (q ∷ ps) zero p p' e =
    let same : f q ≡ f p = ap f (some-injective _ _ e) in omega (arith, same)
total-modify f (q ∷ ps) (suc i) p p' e = omega (arith, total-modify f ps i p p' e)

pub total-le :
    (f g : Phase → ℕ) (ps : List Phase) → ((p : Phase) → f p ≤ g p) → total f ps ≤ total g ps
unfolding total
total-le f g [] h = omega arith
total-le f g (p ∷ ps) h = omega (arith, h p, total-le f g ps h)

pub exclusive-owns : (p : Phase) → holds_exclusive p ≤ owns_write_bit p
exclusive-owns idle = omega arith
exclusive-owns setting_bit = omega arith
exclusive-owns waiting_readers = omega arith
exclusive-owns exclusive = omega arith
exclusive-owns acquiring = omega arith
exclusive-owns backing_off = omega arith
exclusive-owns spinning = omega arith
exclusive-owns shared = omega arith

pub shared-counted : (p : Phase) → holds_shared p ≤ is_counted p
shared-counted idle = omega arith
shared-counted setting_bit = omega arith
shared-counted waiting_readers = omega arith
shared-counted exclusive = omega arith
shared-counted acquiring = omega arith
shared-counted backing_off = omega arith
shared-counted spinning = omega arith
shared-counted shared = omega arith

pub total-idle : (f : Phase → ℕ) (n : ℕ) → f idle ≡ 0 → total f (replicate n idle) ≡ 0
unfolding total
total-idle f zero e = refl
total-idle f (suc n) e = omega (arith, e, total-idle f n e)

pub counted-length : (ps : List Phase) → total is_counted ps ≤ length ps
unfolding total
counted-length [] = omega arith
counted-length (p ∷ ps) = omega (arith, at_most_one p, counted-length ps)
  where
    at_most_one : (p : Phase) → is_counted p ≤ 1
    at_most_one idle = omega arith
    at_most_one setting_bit = omega arith
    at_most_one waiting_readers = omega arith
    at_most_one exclusive = omega arith
    at_most_one acquiring = omega arith
    at_most_one backing_off = omega arith
    at_most_one spinning = omega arith
    at_most_one shared = omega arith

-- A thread's own weight is part of the total.
pub member :
    (f : Phase → ℕ) (ps : List Phase) (i : ℕ) (p : Phase)
    → f idle ≡ 0
    → get_elem? ps i ≡ some p
    → f p ≤ total f ps
member f ps i p e at = omega (arith, total-modify f ps i p idle at)

-- A thread that is not counted leaves room for one more.
pub room :
    (ps : List Phase) (i : ℕ) (p : Phase)
    → is_counted p ≡ 0
    → get_elem? ps i ≡ some p
    → total is_counted ps + 1 ≤ length ps
room ps i p e at = omega (
  arith,
  total-modify is_counted ps i p shared at,
  counted-length (modify ps i (λ _. shared)),
  length-modify ps i (λ _. shared),
)
