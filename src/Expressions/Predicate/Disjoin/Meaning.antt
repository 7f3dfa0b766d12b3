-- ===== src/Expressions/Predicate/Disjoin/Meaning.antt =====
-- `addPredicate` of a disjunction means `||`.
use quickstep_streaming.Prelude.{
  ℕ, ◌≡◌, refl, ◌∙◌, Bool, false, ◌&&◌, ◌||◌, if◌then◌else◌, arith, inl, inr, Bool-cases,
}
use quickstep_streaming.Types.Accessor.{ValueAccessor}
use quickstep_streaming.Expressions.Predicate.{
  Predicate, Predicates, true_predicate, false_predicate, comparison, negation, conjunction,
  disjunction, nil, cons, has_static_result, splice,
}
use quickstep_streaming.Expressions.Predicate.Build.{
  is_nil, DisjunctionFlags, disjunction_flags, process_static_disjunct, process_dynamic_disjunct,
  disjunction_of, add_disjunct, add_to_disjunction,
}
use quickstep_streaming.Expressions.Predicate.Meaning.{meaning, some_meaning}
use quickstep_streaming.Expressions.Predicate.Splice.{some_meaning-splice, is_nil-splice, nil_some}

-- The meaning of a disjunction with one more operand, `m`.
with_operand : Bool → Bool → Bool → Bool
with_operand untouched old m = if untouched then m else old || m

module _ {V : Type 0} where
  disjunction_of-meaning :
      (s d : Predicates V) (flags : DisjunctionFlags) (a : ValueAccessor V) (tid : ℕ)
      → meaning (disjunction_of s d flags) a tid
        ≡ ((some_meaning s a tid || some_meaning d a tid) || (is_nil s && is_nil d))
  unfolding disjunction_of meaning
  disjunction_of-meaning s d (disjunction_flags has b fresh) a tid = refl

  add_disjunct-meaning :
      (s d : Predicates V) (flags : DisjunctionFlags) (p : Predicate V) (a : ValueAccessor V)
      (tid : ℕ)
      → meaning (add_disjunct s d flags p) a tid
        ≡ with_operand
            (is_nil s && is_nil d)
            (meaning (disjunction_of s d flags) a tid)
            (meaning p a tid)
  unfolding add_disjunct some_meaning with_operand
  add_disjunct-meaning s d flags p a tid = elim (Bool-cases (has_static_result p)) [
    | inl e ↦
        rw
          (
            e,
            disjunction_of-meaning s d flags a tid,
            disjunction_of-meaning (splice s (cons p nil)) d (process_static_disjunct p flags) a
                tid,
          )
          (ground (
            arith,
            some_meaning-splice s (cons p nil) a tid,
            is_nil-splice s (cons p nil),
            nil_some s a tid,
            nil_some d a tid,
          ))
    | inr e ↦
        rw
          (
            e,
            disjunction_of-meaning s d flags a tid,
            disjunction_of-meaning s (splice d (cons p nil)) (process_dynamic_disjunct flags) a tid,
          )
          (ground (
            arith,
            some_meaning-splice d (cons p nil) a tid,
            is_nil-splice d (cons p nil),
            nil_some s a tid,
            nil_some d a tid,
          ))
  ]

  -- A disjunction with no operands.
  abbrev pub is_empty_disjunction : Predicate V → Bool
  is_empty_disjunction (disjunction s d has b fresh) = is_nil s && is_nil d
  is_empty_disjunction _ = false

  -- Adding an operand, other than a disjunction with no operands, to a disjunction means `||`; the
  -- first operand replaces what a disjunction with no operands means.
  pub add_to_disjunction-meaning :
      (s d : Predicates V) (flags : DisjunctionFlags) (p : Predicate V) (a : ValueAccessor V)
      (tid : ℕ)
      → is_empty_disjunction p ≡ false
      → meaning (add_to_disjunction s d flags p) a tid ≡ (
          if is_nil s && is_nil d
          then meaning p a tid
          else meaning (disjunction_of s d flags) a tid || meaning p a tid)
  unfolding add_to_disjunction meaning with_operand
  add_to_disjunction-meaning s d flags (disjunction s' d' h' b' f') a tid e =
      rw (disjunction_of-meaning s d flags a tid) (
        disjunction_of-meaning (splice s s') (splice d d') _ a tid
        ∙ ground (
          arith,
          some_meaning-splice s s' a tid,
          some_meaning-splice d d' a tid,
          is_nil-splice s s',
          is_nil-splice d d',
          nil_some s a tid,
          nil_some d a tid,
        ))
  add_to_disjunction-meaning s d flags true_predicate a tid e =
      add_disjunct-meaning s d flags true_predicate a tid
  add_to_disjunction-meaning s d flags false_predicate a tid e =
      add_disjunct-meaning s d flags false_predicate a tid
  add_to_disjunction-meaning s d flags (comparison c) a tid e =
      add_disjunct-meaning s d flags (comparison c) a tid
  add_to_disjunction-meaning s d flags (negation p h' b') a tid e =
      add_disjunct-meaning s d flags (negation p h' b') a tid
  add_to_disjunction-meaning s d flags (conjunction s' d' h' b') a tid e =
      add_disjunct-meaning s d flags (conjunction s' d' h' b') a tid
