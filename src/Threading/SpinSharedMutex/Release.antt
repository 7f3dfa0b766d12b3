-- ===== src/Threading/SpinSharedMutex/Release.antt =====
-- No deadlock of threading/SpinSharedMutex.hpp: some thread can always go on until all are outside.
use quickstep_streaming.Prelude.{
  ℕ, zero, suc, ◌≤◌, ◌<◌, ◌≡◌, refl, ap, ap₂, ◌∙◌, List, [], ◌∷◌, some, length, get_elem?, modify,
  replicate, ◌⊎◌, arith, length-modify, length-replicate, inl, inr, Bool-cases, ◌==◌, subst,
}
use quickstep_streaming.Threading.SpinSharedMutex.{
  write_bit, has_write_bit, Phase, idle, setting_bit, waiting_readers, exclusive, acquiring,
  backing_off, spinning, shared, Atomic, set_write_bit, observe_readers, unlock, add_reader,
  back_off, observe_write_bit, unlock_shared, State, initial, Step, step, Steps, done, extend,
}
use quickstep_streaming.Threading.SpinSharedMutex.Counting.{
  total, owns_write_bit, is_counted, total-modify, total-le, total-idle, member,
}
use quickstep_streaming.Threading.SpinSharedMutex.Exclusion.{
  IsConsistent, step-IsConsistent, initial-IsConsistent, Steps-IsConsistent,
}

-- How many steps a thread is from outside, at most.
abbrev pub distance : Phase → ℕ
distance idle = 0
distance shared = 1
distance exclusive = 1
distance acquiring = 2
distance waiting_readers = 2
distance spinning = 3
distance setting_bit = 3
distance backing_off = 4

-- The threads that can go on whatever the word is.
abbrev can_leave : Phase → ℕ
can_leave shared = 1
can_leave exclusive = 1
can_leave backing_off = 1
can_leave _ = 0

-- A step that brings a thread nearer to outside.
record Leaves (w : ℕ) (p : Phase) : Type 0 where
  word : ℕ
  phase : Phase
  atomic : Atomic w p word phase
  nearer : distance phase < distance p

leave : (w : ℕ) (p : Phase) → 0 < can_leave p → Leaves w p
leave w shared h = record { word = _; phase = _; atomic = unlock_shared; nearer = omega arith }
leave w exclusive h = record { word = _; phase = _; atomic = unlock; nearer = omega arith }
leave w backing_off h = record {
  word = _;
  phase = _;
  atomic = back_off;
  nearer = elim (Bool-cases (has_write_bit w)) [
    | inl e ↦ rw e (omega arith)
    | inr e ↦ rw e (omega arith)
  ];
}
leave w idle h = absurd (omega arith)
leave w setting_bit h = absurd (omega arith)
leave w waiting_readers h = absurd (omega arith)
leave w acquiring h = absurd (omega arith)
leave w spinning h = absurd (omega arith)

-- Once the readers are gone, the owner of the write bit can go on.
leave_owner : (p : Phase) → 0 < owns_write_bit p → Leaves write_bit p
leave_owner exclusive h = leave write_bit exclusive (omega arith)
leave_owner waiting_readers h = record {
  word = _;
  phase = exclusive;
  atomic = observe_readers;
  nearer = omega arith;
}
leave_owner shared h = absurd (omega arith)
leave_owner backing_off h = absurd (omega arith)
leave_owner idle h = absurd (omega arith)
leave_owner setting_bit h = absurd (omega arith)
leave_owner acquiring h = absurd (omega arith)
leave_owner spinning h = absurd (omega arith)

-- With the word at 0, the others can.
leave_clear : (p : Phase) → 0 < distance p → owns_write_bit p ≡ 0 → Leaves 0 p
leave_clear setting_bit h o = record {
  word = _;
  phase = exclusive;
  atomic = set_write_bit;
  nearer = omega arith;
}
leave_clear acquiring h o = record {
  word = _;
  phase = shared;
  atomic = add_reader;
  nearer = omega arith;
}
leave_clear spinning h o = record {
  word = _;
  phase = acquiring;
  atomic = observe_write_bit;
  nearer = omega arith;
}
leave_clear shared h o = leave 0 shared (omega arith)
leave_clear backing_off h o = leave 0 backing_off (omega arith)
leave_clear exclusive h o = absurd (omega arith)
leave_clear waiting_readers h o = absurd (omega arith)
leave_clear idle h o = absurd (omega arith)

counted-leave : (p : Phase) → is_counted p ≤ can_leave p
counted-leave idle = omega arith
counted-leave setting_bit = omega arith
counted-leave waiting_readers = omega arith
counted-leave exclusive = omega arith
counted-leave acquiring = omega arith
counted-leave backing_off = omega arith
counted-leave spinning = omega arith
counted-leave shared = omega arith

-- A thread of some weight, where there is one.
pick :
    (f : Phase → ℕ) (ps : List Phase)
    → (total f ps ≡ 0) ⊎ (i : ℕ) × (p : Phase) × (get_elem? ps i ≡ some p) × (0 < f p)
unfolding total
pick f [] = inl refl
pick f (p ∷ ps) = elim (Bool-cases (f p == 0)) [
  | inl e ↦ elim (pick f ps) [
    | inl z ↦ inl (ground (arith, z))
    | inr (i, q, at, lt) ↦ inr (suc i, q, at, lt)
  ]
  | inr e ↦ inr (0, p, refl, ground arith)
]

abbrev Progress : ℕ → List Phase → Type 0
Progress w ps = (i : ℕ) × (p : Phase) × (get_elem? ps i ≡ some p) × Leaves w p

progress : (w : ℕ) (ps : List Phase) → IsConsistent w ps → 0 < total distance ps → Progress w ps
progress w ps ok lt = elim (pick can_leave ps) [
  | inr (i, p, at, h) ↦ (i, p, at, leave w p h)
  | inl none_leaves ↦
      let none_counted : total is_counted ps ≡ 0 =
        omega (arith, none_leaves, total-le is_counted can_leave ps counted-leave) in
      elim (pick owns_write_bit ps) [
        | inr (i, p, at, h) ↦
            let owner : write_bit ≡ w = omega (
              arith,
              ok.word,
              ok.one_owner,
              h,
              none_counted,
              member owns_write_bit ps i p refl at,
            ) in
            (i, p, at, subst (λ v. Leaves v p) owner (leave_owner p h))
        | inl none_owns ↦
            let clear : 0 ≡ w = omega (arith, ok.word, none_counted, none_owns) in
            elim (pick distance ps) [
              | inl all_out ↦ absurd (omega (arith, all_out, lt))
              | inr (i, p, at, h) ↦
                  let free : owns_write_bit p ≡ 0 =
                    omega (arith, none_owns, member owns_write_bit ps i p refl at) in
                  (i, p, at, subst (λ v. Leaves v p) clear (leave_clear p h free))
            ]
      ]
]

all_out : (ps : List Phase) → total distance ps ≡ 0 → ps ≡ replicate (length ps) idle
unfolding total
all_out [] e = refl
all_out (idle ∷ ps) e = ap (λ qs. idle ∷ qs) (all_out ps (omega arith))
all_out (setting_bit ∷ ps) e = absurd (omega arith)
all_out (waiting_readers ∷ ps) e = absurd (omega arith)
all_out (exclusive ∷ ps) e = absurd (omega arith)
all_out (acquiring ∷ ps) e = absurd (omega arith)
all_out (backing_off ∷ ps) e = absurd (omega arith)
all_out (spinning ∷ ps) e = absurd (omega arith)
all_out (shared ∷ ps) e = absurd (omega arith)

first_step : {a b c : State} → Step a b → Steps b c → Steps a c
first_step s done = extend done s
first_step s (extend steps t) = extend (first_step s steps) t

abbrev state : ℕ → List Phase → State
state w ps = record { word = w; threads = ps }

out :
    (w : ℕ) (ps : List Phase)
    → IsConsistent w ps
    → total distance ps ≡ 0
    → Steps (state w ps) (initial (length ps))
out w ps ok e =
    let idle_ones = all_out ps e in
    let n : ℕ = length ps in
    let no_owner : total owns_write_bit ps ≡ 0 =
      ap (total owns_write_bit) idle_ones ∙ total-idle owns_write_bit n refl in
    let no_count : total is_counted ps ≡ 0 =
      ap (total is_counted) idle_ones ∙ total-idle is_counted n refl in
    let clear : w ≡ 0 = omega (arith, ok.word, no_owner, no_count) in
    subst (λ s. Steps (state w ps) s) (ap₂ state clear idle_ones) done

-- With as many steps as the threads are from outside together, all of them get there.
drain :
    (m w : ℕ) (ps : List Phase)
    → IsConsistent w ps
    → total distance ps ≤ m
    → Steps (state w ps) (initial (length ps))
drain zero w ps ok le = out w ps ok (omega arith)
drain (suc m) w ps ok le = elim (Bool-cases (total distance ps == 0)) [
  | inl e ↦ out w ps ok (ground arith)
  | inr e ↦
      let (i, p, at, move) = progress w ps ok (ground arith) in
      let next : List Phase = modify ps i (λ _. move.phase) in
      let less = total-modify distance ps i p move.phase at in
      let rest =
        drain m move.word next (step-IsConsistent ps i at move.atomic ok)
          (omega (arith, less, move.nearer)) in
      first_step (step i at move.atomic) (
        subst (λ n. Steps (state move.word next) (initial n)) (length-modify ps i (λ _. move.phase))
          rest)
]

Steps-length : {a b : State} → Steps a b → length b.threads ≡ length a.threads
Steps-length done = refl
Steps-length (extend steps (step {ps = ps} {p' = p'} i at s)) =
    length-modify ps i (λ _. p') ∙ Steps-length steps

-- With fewer than 2 ^ 31 threads, whatever they have done so far, there are steps after which all
-- threads are outside and the word is as the constructor leaves it. So there is no deadlock.
pub release : (n : ℕ) (st : State) → n < write_bit → Steps (initial n) st → Steps st (initial n)
release n st few steps =
    let ok = Steps-IsConsistent steps (initial-IsConsistent n few) in
    let same : length st.threads ≡ n = Steps-length steps ∙ length-replicate n idle in
    subst (λ k. Steps st (initial k)) same
      (drain (total distance st.threads) st.word st.threads ok (omega arith))
