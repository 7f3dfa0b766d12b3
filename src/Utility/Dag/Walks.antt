-- ===== src/Utility/Dag/Walks.antt =====
-- A walk with as many links as there are nodes goes round a cycle.
use quickstep_streaming.Prelude.{
  ℕ, zero, suc, ◌≤◌, ◌<◌, ◌≡◌, refl, subst, Bool, true, false, inl, inr, List, [], ◌∷◌, length,
  get_or, modify, replicate, ◌==◌, arith, Bool-cases, length-modify, length-replicate,
  get_or-replicate, get_or-modify_const,
}
use quickstep_streaming.Utility.Dag.{Dag}
use quickstep_streaming.Utility.Dag.Search.{
  unset, unset-modify, unset-replicate, Link, Reaches, one, extend, HasCycle, InRange,
}

module _ {T L : Type 0} (g : Dag T L) where
  -- A walk from a node along so many links.
  pub data Walk : ℕ → ℕ → Type 0 where
    stay : {n : ℕ} → Walk n 0
    step : {n k : ℕ} (d : ℕ) → Link g n d → Walk d k → Walk n (suc k)

  none_unset : (bs : List Bool) (n : ℕ) → unset bs ≡ 0 → n < length bs → get_or bs n false ≡ true
  none_unset [] n e h = absurd (omega arith)
  none_unset (true ∷ bs) zero e h = refl
  none_unset (true ∷ bs) (suc n) e h = none_unset bs n e (omega arith)
  none_unset (false ∷ bs) n e h = absurd (omega arith)

  -- The flags are set at nodes that the walk has passed.
  walk-HasCycle :
      (bs : List Bool) (n k : ℕ)
      → InRange g
      → length bs ≡ length g
      → n < length g
      → ((m : ℕ) → get_or bs m false ≡ true → Reaches g m n)
      → unset bs ≤ k
      → Walk n k
      → HasCycle g
  walk-HasCycle bs n zero in_range size bound passed enough w =
      (n, passed n (none_unset bs n (omega arith) (omega arith)))
  walk-HasCycle bs n (suc k) in_range size bound passed enough (step d l w) =
      elim (Bool-cases (get_or bs n false)) [
        | inl seen ↦ (n, passed n seen)
        | inr new ↦
            walk-HasCycle (modify bs n (λ _. true)) d k in_range
              (omega (arith, length-modify bs n (λ _. true))) (in_range n d l)
              (λ m h. elim (Bool-cases (n == m)) [
                | inl e ↦ let same : n ≡ m = ground arith in one (subst (λ j. Link g j d) same l)
                | inr e ↦
                    extend g (passed m (ground (arith, get_or-modify_const bs n m true false, h))) l
              ])
              (omega (arith, unset-modify bs n (omega arith) new)) w
      ]

  pub long_walk-HasCycle :
      (n k : ℕ) → InRange g → n < length g → length g ≤ k → Walk n k → HasCycle g
  long_walk-HasCycle n k in_range bound enough w =
      walk-HasCycle (replicate (length g) false) n k in_range (length-replicate (length g) false)
        bound (λ m h. absurd (ground (arith, get_or-replicate (length g) m false)))
        (omega (arith, unset-replicate (length g))) w
