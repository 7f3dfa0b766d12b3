-- ===== src/Threading/SpinSharedMutex/Exclusion.antt =====
-- Mutual exclusion: however the threads interleave, a thread that holds the exclusive lock is alone.
use quickstep_streaming.Prelude.{
  ℕ, ◌+◌, ◌*◌, ◌≤◌, ◌<◌, ◌≡◌, refl, List, some, ◌==◌, length, get_elem?, modify, replicate, ◌⊎◌,
  arith, length-modify, length-replicate, inl, inr, Bool-cases,
}
use quickstep_streaming.Threading.SpinSharedMutex.{
  write_bit, has_write_bit, Phase, idle, setting_bit, waiting_readers, exclusive, acquiring,
  backing_off, spinning, shared, fetch_add_one, fetch_sub_one, Atomic, call_lock, set_write_bit,
  observe_readers, unlock, call_lock_shared, add_reader, back_off, observe_write_bit, unlock_shared,
  State, initial, Step, step, Steps, done, extend,
}
use quickstep_streaming.Threading.SpinSharedMutex.Counting.{
  total, holds_exclusive, holds_shared, owns_write_bit, is_counted, total-modify, total-le,
  exclusive-owns, shared-counted, total-idle, counted-length, member, room,
}

-- The word counts the threads that own the write bit and those that are counted.
pub record IsConsistent (w : ℕ) (ps : List Phase) : Type 0 where
  pub few : length ps < write_bit
  pub word : w ≡ write_bit * total owns_write_bit ps + total is_counted ps
  pub one_owner : total owns_write_bit ps ≤ 1
  pub alone : 0 < total holds_exclusive ps → total holds_shared ps ≡ 0

-- A step is known by what it does to the word and by the weights of its two phases.
moved :
    (w w' : ℕ) (ps : List Phase) (i : ℕ) (p p' : Phase)
    → get_elem? ps i ≡ some p
    → IsConsistent w ps
    → w' + (write_bit * owns_write_bit p + is_counted p)
      ≡ w + (write_bit * owns_write_bit p' + is_counted p')
    → total owns_write_bit ps + owns_write_bit p' ≤ 1 + owns_write_bit p
    → (total holds_exclusive ps + holds_exclusive p' ≤ holds_exclusive p)
      ⊎ (total holds_shared ps + holds_shared p' ≡ holds_shared p)
    → IsConsistent w' (modify ps i (λ _. p'))
moved w w' ps i p p' at ok hw ho ha =
    let o = total-modify owns_write_bit ps i p p' at in
    let c = total-modify is_counted ps i p p' at in
    let e = total-modify holds_exclusive ps i p p' at in
    let s = total-modify holds_shared ps i p p' at in
    record {
      few = omega (arith, ok.few, length-modify ps i (λ _. p'));
      word = omega (arith, ok.word, o, c);
      one_owner = omega (arith, o);
      alone = λ lt. elim ha [ inl none_ ↦ absurd (omega (arith, e)) | inr gone ↦ omega (arith, s) ];
    }

-- No thread holds the exclusive lock, or none a shared one.
kept :
    {w : ℕ} (ps : List Phase)
    → IsConsistent w ps
    → (total holds_exclusive ps ≡ 0) ⊎ (total holds_shared ps ≡ 0)
kept ps ok = elim (Bool-cases (total holds_exclusive ps == 0)) [
  | inl e ↦ inl (ground arith)
  | inr e ↦ inr (ok.alone (ground arith))
]

-- A step that neither takes nor gives up a lock.
neutral :
    {w : ℕ} (w' : ℕ) (ps : List Phase) (i : ℕ) (p p' : Phase)
    → get_elem? ps i ≡ some p
    → IsConsistent w ps
    → w' + is_counted p ≡ w + is_counted p'
    → owns_write_bit p' ≡ owns_write_bit p
    → holds_exclusive p' ≡ 0
    → holds_shared p' ≡ 0
    → IsConsistent w' (modify ps i (λ _. p'))
neutral {w = w} w' ps i p p' at ok hw ho he hs =
    moved w w' ps i p p' at ok (omega arith) (omega (arith, ok.one_owner)) (elim (kept ps ok) [
      | inl e ↦ inl (omega arith)
      | inr e ↦ inr (omega (arith, member holds_shared ps i p refl at))
    ])

pub step-IsConsistent :
    {w w' : ℕ} {p p' : Phase} (ps : List Phase) (i : ℕ)
    → get_elem? ps i ≡ some p
    → Atomic w p w' p'
    → IsConsistent w ps
    → IsConsistent w' (modify ps i (λ _. p'))
step-IsConsistent {w = w} ps i at call_lock ok =
    neutral w ps i idle setting_bit at ok refl refl refl refl
step-IsConsistent {w = w} ps i at set_write_bit ok = elim (Bool-cases (has_write_bit w)) [
  | inl set ↦ rw set (neutral w ps i setting_bit setting_bit at ok refl refl refl refl)
  | inr clear ↦
      let free : total owns_write_bit ps ≡ 0 = ground (arith, ok.word) in
      elim (Bool-cases (w == 0)) [
        | inl no_readers ↦
            let zero_word : w ≡ 0 = ground arith in
            rw (clear, no_readers)
              (moved w (w + write_bit) ps i setting_bit exclusive at ok (omega arith) (omega arith)
                (inr (omega (arith, ok.word, total-le holds_shared is_counted ps shared-counted))))
        | inr readers ↦
            rw (clear, readers)
              (moved w (w + write_bit) ps i setting_bit waiting_readers at ok (omega arith)
                (omega arith)
                (inl (omega (arith, total-le holds_exclusive owns_write_bit ps exclusive-owns))))
      ]
]
step-IsConsistent {w = w} ps i at observe_readers ok = elim (Bool-cases (w == write_bit)) [
  | inl alone_now ↦
      let e : w ≡ write_bit = ground arith in
      let owner = member owns_write_bit ps i waiting_readers refl at in
      rw alone_now (
        moved w w ps i waiting_readers exclusive at ok refl (omega (arith, ok.one_owner)) (
          inr (
            omega (
              arith,
              ok.word,
              ok.one_owner,
              owner,
              total-le holds_shared is_counted ps shared-counted,
            ))))
  | inr readers ↦
      rw readers (neutral w ps i waiting_readers waiting_readers at ok refl refl refl refl)
]
step-IsConsistent {w = w} ps i at unlock ok =
    let owner = member owns_write_bit ps i exclusive refl at in
    let set : write_bit ≤ w = omega (arith, ok.word) in
    moved w _ ps i exclusive idle at ok (ground arith) (omega (arith, ok.one_owner))
      (inl (omega (arith, ok.one_owner, total-le holds_exclusive owns_write_bit ps exclusive-owns)))
step-IsConsistent {w = w} ps i at call_lock_shared ok =
    neutral w ps i idle acquiring at ok refl refl refl refl
step-IsConsistent {w = w} ps i at add_reader ok =
    let next : fetch_add_one w ≡ w + 1 =
      omega (arith, ok.word, ok.one_owner, ok.few, room ps i acquiring refl at) in
    elim (Bool-cases (has_write_bit w)) [
      | inl set ↦ rw set (neutral _ ps i acquiring backing_off at ok (omega arith) refl refl refl)
      | inr clear ↦
          let free : total owns_write_bit ps ≡ 0 = ground (arith, ok.word) in
          rw clear (
            moved w _ ps i acquiring shared at ok (omega arith) (omega arith)
              (inl (omega (arith, total-le holds_exclusive owns_write_bit ps exclusive-owns))))
    ]
step-IsConsistent {w = w} ps i at back_off ok =
    let before : fetch_sub_one w + 1 ≡ w = omega (
      arith,
      ok.word,
      ok.one_owner,
      ok.few,
      counted-length ps,
      member is_counted ps i backing_off refl at,
    ) in
    elim (Bool-cases (has_write_bit w)) [
      | inl set ↦ rw set (neutral _ ps i backing_off spinning at ok (omega arith) refl refl refl)
      | inr clear ↦
          rw clear (neutral _ ps i backing_off acquiring at ok (omega arith) refl refl refl)
    ]
step-IsConsistent {w = w} ps i at observe_write_bit ok = elim (Bool-cases (has_write_bit w)) [
  | inl set ↦ rw set (neutral w ps i spinning spinning at ok refl refl refl refl)
  | inr clear ↦ rw clear (neutral w ps i spinning acquiring at ok refl refl refl refl)
]
step-IsConsistent {w = w} ps i at unlock_shared ok =
    let before : fetch_sub_one w + 1 ≡ w = omega (
      arith,
      ok.word,
      ok.one_owner,
      ok.few,
      counted-length ps,
      member is_counted ps i shared refl at,
    ) in
    neutral _ ps i shared idle at ok (omega arith) refl refl refl

pub initial-IsConsistent : (n : ℕ) → n < write_bit → IsConsistent 0 (replicate n idle)
initial-IsConsistent n h = record {
  few = omega (arith, length-replicate n idle);
  word = omega (arith, total-idle owns_write_bit n refl, total-idle is_counted n refl);
  one_owner = omega (arith, total-idle owns_write_bit n refl);
  alone = λ lt. total-idle holds_shared n refl;
}

Step-IsConsistent :
    {st st' : State}
    → Step st st'
    → IsConsistent st.word st.threads
    → IsConsistent st'.word st'.threads
Step-IsConsistent (step {ps = ps} i at s) ok = step-IsConsistent ps i at s ok

pub Steps-IsConsistent :
    {st st' : State}
    → Steps st st'
    → IsConsistent st.word st.threads
    → IsConsistent st'.word st'.threads
Steps-IsConsistent done ok = ok
Steps-IsConsistent (extend steps s) ok = Step-IsConsistent s (Steps-IsConsistent steps ok)

-- With fewer than 2 ^ 31 threads, however their steps interleave, at most one thread holds the
-- exclusive lock, and while one does no thread holds a shared lock.
pub mutual_exclusion :
    (n : ℕ) (st : State)
    → n < write_bit
    → Steps (initial n) st
    → (total holds_exclusive st.threads ≤ 1)
      × (0 < total holds_exclusive st.threads → total holds_shared st.threads ≡ 0)
mutual_exclusion n st few steps =
    let ok = Steps-IsConsistent steps (initial-IsConsistent n few) in
    (
      omega
          (arith, ok.one_owner, total-le holds_exclusive owns_write_bit st.threads exclusive-owns),
      ok.alone,
    )

-- With fewer than 2 ^ 31 threads, however their steps interleave, the word is the write bit, if a
-- thread waits for the readers or holds the exclusive lock, and the number of the threads that hold
-- a shared lock or are about to take back their count.
pub word-counts :
    (n : ℕ) (st : State)
    → n < write_bit
    → Steps (initial n) st
    → st.word ≡ write_bit * total owns_write_bit st.threads + total is_counted st.threads
word-counts n st few steps = (Steps-IsConsistent steps (initial-IsConsistent n few)).word
