-- ===== src/Expressions/Predicate/Meaning.antt =====
-- What a predicate means, read off its operands without the flags, and when the flags agree with it.
use quickstep_streaming.Prelude.{ℕ, ◌≡◌, Bool, true, false, not, ◌&&◌, ◌||◌}
use quickstep_streaming.Types.Accessor.{ValueAccessor}
use quickstep_streaming.Types.Comparator.{compare_typed_values}
use quickstep_streaming.Expressions.Scalar.{value_for_single_tuple}
use quickstep_streaming.Expressions.Comparison.Matches.{IsMade}
use quickstep_streaming.Expressions.Predicate.{
  Predicate, Predicates, true_predicate, false_predicate, comparison, negation, conjunction,
  disjunction, nil, cons, has_static_result, get_static_result,
}
use quickstep_streaming.Expressions.Predicate.Build.{is_nil}

-- The meaning on one tuple. A disjunction with no operand means true, as its constructor has it.
unfoldable mutual
  pub meaning : {V : Type 0} → Predicate V → ValueAccessor V → ℕ → Bool
  meaning true_predicate a tid = true
  meaning false_predicate a tid = false
  meaning (comparison c) a tid =
      compare_typed_values c.comparator (value_for_single_tuple c.left_operand a tid)
        (value_for_single_tuple c.right_operand a tid)
  meaning (negation p has b) a tid = not (meaning p a tid)
  meaning (conjunction statics dynamics has b) a tid =
      every_meaning statics a tid && every_meaning dynamics a tid
  meaning (disjunction statics dynamics has b fresh) a tid =
      (some_meaning statics a tid || some_meaning dynamics a tid)
      || (is_nil statics && is_nil dynamics)

  pub every_meaning : {V : Type 0} → Predicates V → ValueAccessor V → ℕ → Bool
  every_meaning nil a tid = true
  every_meaning (cons p ps) a tid = meaning p a tid && every_meaning ps a tid

  pub some_meaning : {V : Type 0} → Predicates V → ValueAccessor V → ℕ → Bool
  some_meaning nil a tid = false
  some_meaning (cons p ps) a tid = meaning p a tid || some_meaning ps a tid

module _ {V : Type 0} where
  unfoldable pub every_static : Predicates V → Bool
  every_static nil = true
  every_static (cons p ps) = get_static_result p && every_static ps

  unfoldable pub some_static : Predicates V → Bool
  some_static nil = false
  some_static (cons p ps) = get_static_result p || some_static ps

-- What `addPredicate` keeps true of a conjunction's flags: `every` says that each static operand is
-- true, `no_dynamic` that there is no dynamic operand.
pub record ConjunctionFits (every no_dynamic has b : Bool) : Type 0 where
  pub result : b ≡ every
  pub decided : has ≡ (not b || no_dynamic)

-- The same of a disjunction: `any` says that a static operand is true.
pub record DisjunctionFits (any no_static no_dynamic has b fresh : Bool) : Type 0 where
  pub untouched : fresh ≡ (no_static && no_dynamic)
  pub decided : has ≡ (any || no_dynamic)
  pub result : has ≡ true → b ≡ (any || fresh)

-- The fields of a predicate agree with its operands, all the way down.
unfoldable mutual
  pub IsBuilt : {V : Type 0} → Predicate V → Type 0
  IsBuilt true_predicate = Unit
  IsBuilt false_predicate = Unit
  IsBuilt (comparison c) = IsMade c
  IsBuilt (negation p has b) =
      IsBuilt p × ((has ≡ has_static_result p) × (has ≡ true → b ≡ not (get_static_result p)))
  IsBuilt (conjunction statics dynamics has b) =
      AreBuilt true statics
      × (AreBuilt false dynamics × ConjunctionFits (every_static statics) (is_nil dynamics) has b)
  IsBuilt (disjunction statics dynamics has b fresh) =
      AreBuilt true statics
      × (AreBuilt false dynamics
          × DisjunctionFits (some_static statics) (is_nil statics) (is_nil dynamics) has b fresh)

  -- Each is built, and has a static result just if `has`.
  pub AreBuilt : {V : Type 0} → Bool → Predicates V → Type 0
  AreBuilt has nil = Unit
  AreBuilt has (cons p ps) = IsBuilt p × ((has_static_result p ≡ has) × AreBuilt has ps)
