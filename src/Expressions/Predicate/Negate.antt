-- ===== src/Expressions/Predicate/Negate.antt =====
-- `NegationPredicate`: the constructor and `NegatePredicate` negate the meaning.
use quickstep_streaming.Prelude.{ℕ, ◌≡◌, refl, sym, not, arith, inl, inr, Bool-cases}
use quickstep_streaming.Types.Accessor.{ValueAccessor}
use quickstep_streaming.Expressions.Predicate.{
  Predicate, true_predicate, false_predicate, comparison, negation, conjunction, disjunction,
  has_static_result,
}
use quickstep_streaming.Expressions.Predicate.Build.{new_negation, negate_predicate}
use quickstep_streaming.Expressions.Predicate.Meaning.{meaning, IsBuilt}

module _ {V : Type 0} where
  pub new_negation-IsBuilt : (p : Predicate V) → IsBuilt p → IsBuilt (new_negation p)
  unfolding new_negation IsBuilt
  new_negation-IsBuilt p built = elim (Bool-cases (has_static_result p)) [
    | inl e ↦ rw e (built, (sym e, λ t. refl))
    | inr e ↦ rw e (built, (sym e, λ t. cc))
  ]

  new_negation-meaning :
      (p : Predicate V) (a : ValueAccessor V) (tid : ℕ)
      → meaning (new_negation p) a tid ≡ not (meaning p a tid)
  unfolding new_negation meaning
  new_negation-meaning p a tid = elim (Bool-cases (has_static_result p)) [
    | inl e ↦ rw e refl
    | inr e ↦ rw e refl
  ]

  -- `negate_predicate` of a well-formed predicate is well formed and has the negated meaning, also
  -- where it takes a negation off.
  pub negate_predicate-meaning :
      (p : Predicate V) (a : ValueAccessor V) (tid : ℕ)
      → IsBuilt p
      → IsBuilt (negate_predicate p) × (meaning (negate_predicate p) a tid ≡ not (meaning p a tid))
  unfolding negate_predicate IsBuilt meaning
  negate_predicate-meaning true_predicate a tid built =
      (new_negation-IsBuilt true_predicate built, new_negation-meaning true_predicate a tid)
  negate_predicate-meaning false_predicate a tid built =
      (new_negation-IsBuilt false_predicate built, new_negation-meaning false_predicate a tid)
  negate_predicate-meaning (comparison c) a tid built =
      (new_negation-IsBuilt (comparison c) built, new_negation-meaning (comparison c) a tid)
  negate_predicate-meaning (conjunction s d has b) a tid built = (
    new_negation-IsBuilt (conjunction s d has b) built,
    new_negation-meaning (conjunction s d has b) a tid,
  )
  negate_predicate-meaning (disjunction s d has b fresh) a tid built = (
    new_negation-IsBuilt (disjunction s d has b fresh) built,
    new_negation-meaning (disjunction s d has b fresh) a tid,
  )
  negate_predicate-meaning (negation p has b) a tid (built, e) = (built, ground arith)
