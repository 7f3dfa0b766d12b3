-- ===== src/Utility/Dag/Stages/Order.antt =====
-- The stages: each node starts in one and finishes in one, after its dependencies have finished.
use mathlib.Core.List.{Memᴰ}
use mathlib.Core.List.Memᴰ
use mathlib.Core.Option
use quickstep_streaming.Prelude.{
  ℕ, zero, suc, ◌+◌, ◌-◌, ◌≤◌, ◌<◌, ◌≡◌, ◌↔◌, inl, inr, refl, ap, ◌∙◌, some, List, [], ◌∷◌, map,
  ltb, if◌then◌else◌, length, get_or, replicate, range, arith, get_or-replicate, length-replicate,
}
use quickstep_streaming.Utility.Dag.{Dag, get_dependencies}
use quickstep_streaming.Utility.Dag.Search.{Link, HasCycle}
use quickstep_streaming.Utility.Dag.Mirror.{IsLinked}
use quickstep_streaming.Utility.Dag.Stages.{
  Stages, start_stage, node_start_stages, stages_of, compute_stage_sequence,
}
use quickstep_streaming.Utility.Dag.Stages.Offsets.{IsFinished, first_pass}
use quickstep_streaming.Utility.Dag.Stages.Pushes.{
  no_stage, start_of, finish_of, length-push_nodes, first-push_nodes, second-push_nodes,
}

-- The second pass takes the greatest candidate.
start_stage-ge_start :
    (offsets : List ℕ) (num : ℕ) (ds : List ℕ) (start : ℕ)
    → start ≤ start_stage offsets num ds start
unfolding start_stage
start_stage-ge_start offsets num [] start = omega arith
start_stage-ge_start offsets num (d ∷ ds) start =
    let candidate = num - get_or offsets d 0 + 1 in
    let rest =
      start_stage-ge_start offsets num ds (if ltb start candidate then candidate else start) in
    ground arith

start_stage-ge :
    (offsets : List ℕ) (num : ℕ) (ds : List ℕ) (start d : ℕ)
    → Memᴰ d ds
    → num - get_or offsets d 0 + 1 ≤ start_stage offsets num ds start
unfolding start_stage
start_stage-ge offsets num [] start d m = absurd (Memᴰ.not-nil m)
start_stage-ge offsets num (k ∷ ds) start d m =
    let candidate = num - get_or offsets k 0 + 1 in
    let next : ℕ = if ltb start candidate then candidate else start in
    elim m [
      | Memᴰ.head e ↦
          let rest = start_stage-ge_start offsets num ds next in
          let same = ap (λ j. num - get_or offsets j 0 + 1) e in ground arith
      | Memᴰ.tail t ↦ start_stage-ge offsets num ds next d t
    ]

start_stage-le :
    (offsets : List ℕ) (num : ℕ) (ds : List ℕ) (start bound : ℕ)
    → start ≤ bound
    → ((d : ℕ) → Memᴰ d ds → num - get_or offsets d 0 + 1 ≤ bound)
    → start_stage offsets num ds start ≤ bound
unfolding start_stage
start_stage-le offsets num [] start bound h all = h
start_stage-le offsets num (d ∷ ds) start bound h all =
    start_stage-le offsets num ds _ bound (ground (arith, all d (Memᴰ.head refl)))
      (λ k m. all k (Memᴰ.tail m))

module _ {T L : Type 0} (g : Dag T L) where
  get_or-range :
      (f : ℕ → ℕ) (count n i : ℕ) → i < count → get_or (map f (range count n)) i 0 ≡ f (n + i)
  get_or-range f zero n i h = absurd (omega arith)
  get_or-range f (suc count) n zero h = let same : n ≡ n + 0 = omega arith in ap f same
  get_or-range f (suc count) n (suc i) h =
      let same : suc n + i ≡ n + suc i = omega arith in
      get_or-range f count (suc n) i (omega arith) ∙ ap f same

  -- What the stages promise: a node starts in one stage and finishes in one that is not before it,
  -- and no node starts before the stage after the one in which a node that it depends on finishes.
  pub record IsSchedule (stages : Stages) (start finish : ℕ → ℕ) : Type 0 where
    pub starts : (i m : ℕ) → Memᴰ m (get_or stages i no_stage).0 ↔ ((m < length g) × (start m ≡ i))
    pub finishes :
        (i m : ℕ) → Memᴰ m (get_or stages i no_stage).1 ↔ ((m < length g) × (finish m ≡ i))
    pub in_order : (m : ℕ) → m < length g → start m ≤ finish m
    pub in_stages : (m : ℕ) → m < length g → finish m < length stages
    pub waits : (a b : ℕ) → Link g a b → finish a < start b

  module _ (linked : IsLinked g) (offsets : List ℕ) (num : ℕ)
      (done : IsFinished g offsets num) where
    starts_list : List ℕ
    starts_list = node_start_stages g offsets num

    start-eq :
        (m : ℕ)
        → m < length g
        → get_or starts_list m 0 ≡ start_stage offsets num (get_dependencies g m) 0
    unfolding starts_list node_start_stages
    start-eq m bound =
        get_or-range _ (length g) 0 m bound
        ∙ (let same : 0 + m ≡ m = omega arith in
            ap (λ k. start_stage offsets num (get_dependencies g k) 0) same)

    waits_for : (a b : ℕ) → Link g a b → num - get_or offsets a 0 < get_or starts_list b 0
    waits_for a b l = omega (
      arith,
      start-eq b (linked.in_range a b l),
      start_stage-ge offsets num (get_dependencies g b) 0 a ((linked.mirror a b).0 l),
    )

    not_late : (m : ℕ) → m < length g → get_or starts_list m 0 ≤ num - get_or offsets m 0
    not_late m bound =
        let enough =
          start_stage-le offsets num (get_dependencies g m) 0 (num - get_or offsets m 0)
            (omega arith)
            (λ d i.
              let l = (linked.mirror d m).1 i in omega (arith, done.rises d m l, done.below d)) in
        omega (arith, start-eq m bound, enough)

    within : (m : ℕ) → m < length g → num - get_or offsets m 0 < num
    within m bound = omega (arith, done.positive m bound, done.below m)

    blank : Stages
    blank = replicate num no_stage

    size_blank : length blank ≡ num
    unfolding blank
    size_blank = length-replicate {A = List ℕ × List ℕ} num no_stage

    empty_before :
        (i m : ℕ)
        → (Memᴰ m (get_or blank i no_stage).0 → ⊥) × (Memᴰ m (get_or blank i no_stage).1 → ⊥)
    unfolding blank
    empty_before i m =
        rw (get_or-replicate {A = List ℕ × List ℕ} num i no_stage) (Memᴰ.not-nil, Memᴰ.not-nil)

    length-stages_of : length (stages_of g (offsets, num)) ≡ num
    unfolding stages_of starts_list blank
    length-stages_of = length-push_nodes offsets starts_list num (length g) 0 blank ∙ size_blank

    stages_of-IsSchedule :
        IsSchedule
          (stages_of g (offsets, num))
          (start_of offsets starts_list num)
          (finish_of offsets starts_list num)
    unfolding stages_of starts_list blank
    stages_of-IsSchedule = record {
      starts = λ i m.
          let pushed = first-push_nodes offsets starts_list num (length g) 0 blank i m (λ k l r.
            let bound : k < length g = omega arith in
            omega (arith, size_blank, not_late k bound, within k bound)) in
          (
            λ h. elim (pushed.0 h) [
              | inl k ↦ absurd ((empty_before i m).0 k)
              | inr (l, r, t) ↦ (omega arith, t)
            ],
            λ h. pushed.1 (inr (omega arith, omega (arith, h.0), h.1)),
          );
      finishes = λ i m.
          let pushed = second-push_nodes offsets starts_list num (length g) 0 blank i m (λ k l r.
            let bound : k < length g = omega arith in omega (arith, size_blank, within k bound)) in
          (
            λ h. elim (pushed.0 h) [
              | inl k ↦ absurd ((empty_before i m).1 k)
              | inr (l, r, t) ↦ (omega arith, t)
            ],
            λ h. pushed.1 (inr (omega arith, omega (arith, h.0), h.1)),
          );
      in_order = not_late;
      in_stages = λ m bound. omega (arith, length-stages_of, within m bound);
      waits = waits_for;
    }

  -- Where the two ends of each link know of it, all links are between nodes and there is no cycle,
  -- `compute_stage_sequence` ends, with as much fuel as there are nodes. Its stages have each node
  -- in just one stage to start in and in just one to finish in, which is not before the former, and
  -- no node starts before the stage after the one that a node it depends on finishes in.
  pub compute_stage_sequence-IsSchedule :
      (fuel : ℕ)
      → IsLinked g
      → (HasCycle g → ⊥)
      → length g ≤ fuel
      → (stages : Stages) × (start : ℕ → ℕ) × (finish : ℕ → ℕ) × (compute_stage_sequence g fuel
          ≡ some stages)
        × IsSchedule stages start finish
  unfolding compute_stage_sequence
  compute_stage_sequence-IsSchedule fuel linked acyclic enough =
      let (offsets, last, e, size, done) = first_pass g linked acyclic fuel enough in
      (
        stages_of g (offsets, last),
        start_of offsets (starts_list linked offsets last done) last,
        finish_of offsets (starts_list linked offsets last done) last,
        ap (Option.map (stages_of g)) e,
        stages_of-IsSchedule linked offsets last done,
      )
