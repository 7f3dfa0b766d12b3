-- ===== src/Expressions/Predicate/Build.antt =====
-- How predicates are put together: the constructors, `NegatePredicate` of NegationPredicate.cpp, and
-- `addPredicate` of ConjunctionPredicate.cpp and DisjunctionPredicate.cpp.
use quickstep_streaming.Prelude.{Bool, true, false, not, ◌&&◌, if◌then◌else◌}
use quickstep_streaming.Expressions.Predicate.{
  Predicate, Predicates, negation, conjunction, disjunction, nil, cons, has_static_result,
  get_static_result, splice,
}

module _ {V : Type 0} where
  -- `list.empty()`
  abbrev pub is_nil : Predicates V → Bool
  is_nil nil = true
  is_nil (cons p ps) = false

  -- The constructors.
  abbrev pub new_conjunction : Predicate V
  new_conjunction = conjunction nil nil true true

  abbrev pub new_disjunction : Predicate V
  new_disjunction = disjunction nil nil true true true

  unfoldable pub new_negation : Predicate V → Predicate V
  new_negation p =
      if has_static_result p
      then negation p true (not (get_static_result p))
      else negation p false false

  -- `NegatePredicate` takes a negation off rather than put on another one.
  unfoldable pub negate_predicate : Predicate V → Predicate V
  negate_predicate (negation inner has b) = inner
  negate_predicate p = new_negation p

  -- `processStaticOperand` of a conjunction, on `has_static_result_` and `static_result_`.
  unfoldable pub process_static_operand : Predicate V → Bool × Bool → Bool × Bool
  process_static_operand p (has, b) = if not (get_static_result p) then (true, false) else (has, b)

  -- The loop from `checkpos` over the operands that were spliced in.
  unfoldable pub process_static_operands : Predicates V → Bool × Bool → Bool × Bool
  process_static_operands nil flags = flags
  process_static_operands (cons p ps) flags =
      process_static_operands ps (process_static_operand p flags)

  unfoldable pub conjunction_of : Predicates V → Predicates V → Bool × Bool → Predicate V
  conjunction_of statics dynamics (has, b) = conjunction statics dynamics has b

-- `processDynamicOperand` of a conjunction.
unfoldable pub process_dynamic_operand : Bool × Bool → Bool × Bool
process_dynamic_operand (has, b) = if has then if b then (false, b) else (has, b) else (has, b)

module _ {V : Type 0} where
  -- What `addPredicate` does with an operand that is not a conjunction.
  unfoldable pub add_conjunct :
      Predicates V → Predicates V → Bool → Bool → Predicate V → Predicate V
  add_conjunct statics dynamics has b operand =
      if has_static_result operand
      then conjunction_of (splice statics (cons operand nil)) dynamics
          (process_static_operand operand (has, b))
      else conjunction_of statics (splice dynamics (cons operand nil))
          (process_dynamic_operand (has, b))

  -- `addPredicate` of the conjunction with these fields.
  unfoldable pub add_to_conjunction :
      Predicates V → Predicates V → Bool → Bool → Predicate V → Predicate V
  add_to_conjunction statics dynamics has b (conjunction statics' dynamics' has' b') =
      let flags = process_static_operands statics' (has, b) in
      conjunction_of (splice statics statics') (splice dynamics dynamics')
        (if not (is_nil dynamics') then process_dynamic_operand flags else flags)
  add_to_conjunction statics dynamics has b operand = add_conjunct statics dynamics has b operand

-- `has_static_result_`, `static_result_` and `fresh_` of a disjunction.
pub data DisjunctionFlags : Type 0 where
  disjunction_flags : Bool → Bool → Bool → DisjunctionFlags

-- `processDynamicOperand` of a disjunction.
unfoldable pub process_dynamic_disjunct : DisjunctionFlags → DisjunctionFlags
process_dynamic_disjunct (disjunction_flags has b fresh) =
    if has && not b
    then disjunction_flags false b false
    else if fresh
    then disjunction_flags false b false
    else disjunction_flags has b false

module _ {V : Type 0} where
  -- `processStaticOperand` of a disjunction.
  unfoldable pub process_static_disjunct : Predicate V → DisjunctionFlags → DisjunctionFlags
  process_static_disjunct p (disjunction_flags has b fresh) =
      if get_static_result p
      then disjunction_flags true true false
      else if fresh
      then disjunction_flags true false false
      else disjunction_flags has b false

  unfoldable pub process_static_disjuncts : Predicates V → DisjunctionFlags → DisjunctionFlags
  process_static_disjuncts nil flags = flags
  process_static_disjuncts (cons p ps) flags =
      process_static_disjuncts ps (process_static_disjunct p flags)

  unfoldable pub disjunction_of : Predicates V → Predicates V → DisjunctionFlags → Predicate V
  disjunction_of statics dynamics (disjunction_flags has b fresh) =
      disjunction statics dynamics has b fresh

  -- What `addPredicate` does with an operand that is not a disjunction.
  unfoldable pub add_disjunct :
      Predicates V → Predicates V → DisjunctionFlags → Predicate V → Predicate V
  add_disjunct statics dynamics flags operand =
      if has_static_result operand
      then disjunction_of (splice statics (cons operand nil)) dynamics
          (process_static_disjunct operand flags)
      else disjunction_of statics (splice dynamics (cons operand nil))
          (process_dynamic_disjunct flags)

  -- `addPredicate` of the disjunction with these fields.
  unfoldable pub add_to_disjunction :
      Predicates V → Predicates V → DisjunctionFlags → Predicate V → Predicate V
  add_to_disjunction statics dynamics flags (disjunction statics' dynamics' has' b' fresh') =
      let flags' = process_static_disjuncts statics' flags in
      disjunction_of (splice statics statics') (splice dynamics dynamics')
        (if not (is_nil dynamics') then process_dynamic_disjunct flags' else flags')
  add_to_disjunction statics dynamics flags operand = add_disjunct statics dynamics flags operand
