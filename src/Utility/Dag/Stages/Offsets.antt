-- ===== src/Utility/Dag/Stages/Offsets.antt =====
-- The first pass ends, and gives each node an offset above those of its dependents.
use mathlib.Core.List.{Memᴰ}
use mathlib.Core.List.Memᴰ
use quickstep_streaming.Prelude.{
  ℕ, zero, suc, ◌+◌, ◌≤◌, ◌<◌, ◌≡◌, ◌↔◌, ◌⊎◌, inl, inr, refl, sym, subst, ◌∙◌, Bool, true, false,
  some, List, [], ◌∷◌, ltb, ◌==◌, length, get_or, replicate, arith, get_or-replicate,
  length-replicate, Bool-cases,
}
use quickstep_streaming.Utility.Dag.{Dag, get_dependents}
use quickstep_streaming.Utility.Dag.Search.{Link, HasCycle}
use quickstep_streaming.Utility.Dag.Walks.{Walk, stay, step, long_walk-HasCycle}
use quickstep_streaming.Utility.Dag.Mirror.{IsLinked}
use quickstep_streaming.Utility.Dag.Stages.{Finish, finish_loop, first_finish, is_sink}
use quickstep_streaming.Utility.Dag.Stages.Levels.{
  offset, Writes, finish_sinks-Writes, mem-finish_sinks,
}
use quickstep_streaming.Utility.Dag.Stages.Finishing.{IsRound, next_round, next_round-IsRound}

List-cases : (xs : List ℕ) → (xs ≡ []) ⊎ (x : ℕ) × (rest : List ℕ) × (xs ≡ x ∷ rest)
List-cases [] = inl refl
List-cases (x ∷ rest) = inr (x, rest, refl)

-- The test on the empty list, as `is_sink` makes it.
abbrev is_empty : List ℕ → Bool
is_empty ns = elim ns [ [] ↦ true | _ ∷ _ ↦ false ]

no_member : (ns : List ℕ) {d : ℕ} → is_empty ns ≡ true → Memᴰ d ns → ⊥
no_member [] e m = Memᴰ.not-nil m
no_member (n ∷ ns) e m = ground arith

some_member : (ns : List ℕ) → is_empty ns ≡ false → (d : ℕ) × Memᴰ d ns
some_member [] e = absurd (ground arith)
some_member (n ∷ ns) e = (n, Memᴰ.head refl)

module _ {T L : Type 0} (g : Dag T L) where
  -- The offsets at the end, with `last` stages.
  pub record IsFinished (offsets : List ℕ) (last : ℕ) : Type 0 where
    pub below : (m : ℕ) → get_or offsets m 0 ≤ last
    pub positive : (m : ℕ) → m < length g → 1 ≤ get_or offsets m 0
    pub rises : (a b : ℕ) → Link g a b → get_or offsets b 0 < get_or offsets a 0

  sink-Link : (m d : ℕ) → is_sink g m ≡ true → Link g m d → ⊥
  unfolding is_sink
  sink-Link m d = no_member (get_dependents g m)

  Link-of : (m : ℕ) → is_sink g m ≡ false → (d : ℕ) × Link g m d
  unfolding is_sink
  Link-of m = some_member (get_dependents g m)

  module _ (linked : IsLinked g) (acyclic : HasCycle g → ⊥) where
    module _ (k : ℕ) (s : Finish) (h : IsRound g linked k s) (empty : s.stage ≡ []) where
      none_staged : (m : ℕ) → Memᴰ m s.stage → ⊥
      none_staged m i = Memᴰ.not-nil (subst (Memᴰ m) empty i)

      rises_at_end : (a b : ℕ) → Link g a b → 1 ≤ offset s b → offset s b < offset s a
      rises_at_end a b l p = elim (h.rises a b l p) [
        | inl lt ↦ lt
        | inr i ↦ absurd (none_staged b i)
      ]

      -- A node without an offset would have walks of any length.
      endless : (j m : ℕ) → m < length g → offset s m ≡ 0 → Walk g m j
      endless zero m bound e = stay
      endless (suc j) m bound e = elim (Bool-cases (is_sink g m)) [
        | inl t ↦ absurd (omega (arith, h.sinks m bound (λ d l. sink-Link m d t l)))
        | inr f ↦
            let (d, l) = Link-of m f in
            elim (Bool-cases (ltb 0 (offset s d))) [
              | inl p ↦ absurd (ground (arith, rises_at_end m d l (ground arith)))
              | inr z ↦ step d l (endless j d (linked.in_range m d l) (ground arith))
            ]
      ]

      positive_at_end : (m : ℕ) → m < length g → 1 ≤ offset s m
      positive_at_end m bound = elim (Bool-cases (ltb 0 (offset s m))) [
        | inl p ↦ ground arith
        | inr z ↦ absurd (
            acyclic (
              long_walk-HasCycle g m (length g) linked.in_range bound (omega arith)
                (endless (length g) m bound (ground arith))))
      ]

      at_end : IsFinished s.offsets k
      at_end = record {
        below = λ m. elim (Bool-cases (offset s m == suc k)) [
          | inl e ↦ absurd (none_staged m (h.latest m (ground arith)))
          | inr e ↦ ground (arith, h.below m)
        ];
        positive = positive_at_end;
        rises = λ a b l. rises_at_end a b l (positive_at_end b (linked.in_range a b l));
      }

    -- As many rounds as nodes: a longer walk would be a cycle.
    too_far :
        (k : ℕ) (s : Finish) (m : ℕ) → IsRound g linked k s → length g ≤ k → Memᴰ m s.stage → ⊥
    too_far k s m h enough i =
        let (bound, _, w) = h.staged m i in
        acyclic (long_walk-HasCycle g m k linked.in_range bound enough w)

    finish_loop-end :
        (fuel k : ℕ) (s : Finish)
        → s.stage ≡ []
        → finish_loop g fuel (suc k) s ≡ some (s.offsets, k)
    unfolding finish_loop
    finish_loop-end zero k s e = ground arith
    finish_loop-end (suc fuel) k s e = ground arith

    finish_loop-round :
        (fuel k : ℕ) (s : Finish) (m : ℕ) (ms : List ℕ)
        → s.stage ≡ m ∷ ms
        → finish_loop g (suc fuel) (suc k) s
          ≡ finish_loop g fuel (suc (suc k)) (next_round g linked s k)
    unfolding finish_loop next_round
    finish_loop-round fuel k s m ms e = ground arith

    pub finish_loop-IsFinished :
        (fuel k : ℕ) (s : Finish)
        → IsRound g linked k s
        → length g ≤ fuel + k
        → (offsets : List ℕ) × (last : ℕ) × (finish_loop g fuel (suc k) s ≡ some (offsets, last))
          × (length offsets ≡ length g)
          × IsFinished offsets last
    finish_loop-IsFinished zero k s h enough = elim (List-cases s.stage) [
      | inl e ↦ (s.offsets, k, finish_loop-end _ k s e, h.size, at_end k s h e)
      | inr (m, ms, e) ↦
          absurd (too_far k s m h (omega arith) (subst (Memᴰ m) (sym e) (Memᴰ.head refl)))
    ]
    finish_loop-IsFinished (suc fuel) k s h enough = elim (List-cases s.stage) [
      | inl e ↦ (s.offsets, k, finish_loop-end _ k s e, h.size, at_end k s h e)
      | inr (m, ms, e) ↦
          let (offsets, last, q, size, f) =
            finish_loop-IsFinished fuel (suc k) (next_round g linked s k)
              (next_round-IsRound g linked k s h) (omega arith) in
          (offsets, last, finish_loop-round fuel k s m ms e ∙ q, size, f)
    ]

    first-Writes : Writes 1 (replicate (length g) 0) (first_finish g)
    unfolding first_finish
    first-Writes =
        finish_sinks-Writes g (replicate (length g) 0) (length g) 0 _
          (omega (arith, length-replicate {A = ℕ} (length g) 0))
          (record { size = refl; written = λ m. inr (Memᴰ.not-nil, refl) })

    staged_first : (m : ℕ) → Memᴰ m (first_finish g).stage ↔ ((m < length g) × (is_sink g m ≡ true))
    unfolding first_finish
    staged_first m =
        let sinks =
          mem-finish_sinks g (length g) 0 (record { offsets = replicate (length g) 0; stage = [] })
            m in
        (
          λ h. elim (sinks.0 h) [
            | inl i ↦ absurd (Memᴰ.not-nil i)
            | inr (_, bound, t) ↦ (omega arith, t)
          ],
          λ h. sinks.1 (inr (omega arith, omega (arith, h.0), h.1)),
        )

    zero_before : (m : ℕ) → get_or {A = ℕ} (replicate (length g) 0) m 0 ≡ 0
    zero_before m = get_or-replicate {A = ℕ} (length g) m 0

    first_finish-IsRound : IsRound g linked 0 (first_finish g)
    first_finish-IsRound = record {
      size = first-Writes.size ∙ length-replicate {A = ℕ} (length g) 0;
      staged = λ m i. elim (first-Writes.written m) [
        | inl (_, e) ↦ (((staged_first m).0 i).0, e, stay)
        | inr (j, _) ↦ absurd (j i)
      ];
      below = λ m. elim (first-Writes.written m) [
        | inl (_, e) ↦ omega arith
        | inr (_, e) ↦ omega (arith, zero_before m)
      ];
      latest = λ m q. elim (first-Writes.written m) [
        | inl (i, _) ↦ i
        | inr (_, e) ↦ absurd (omega (arith, zero_before m))
      ];
      sinks = λ m bound none_. elim (first-Writes.written m) [
        | inl (_, e) ↦ omega arith
        | inr (j, _) ↦ elim (Bool-cases (is_sink g m)) [
          | inl t ↦ absurd (j ((staged_first m).1 (bound, t)))
          | inr f ↦ absurd (none_ (Link-of m f).0 (Link-of m f).1)
        ]
      ];
      rises = λ a b l p. elim (first-Writes.written b) [
        | inl (i, _) ↦ inr i
        | inr (_, e) ↦ absurd (omega (arith, zero_before b))
      ];
    }

    -- With as much fuel as there are nodes the first pass ends.
    pub first_pass :
        (fuel : ℕ)
        → length g ≤ fuel
        → (offsets : List ℕ) × (last : ℕ) × (finish_loop g fuel 1 (first_finish g)
            ≡ some (offsets, last))
          × (length offsets ≡ length g)
          × IsFinished offsets last
    first_pass fuel enough =
        finish_loop-IsFinished fuel 0 (first_finish g) first_finish-IsRound (omega arith)
