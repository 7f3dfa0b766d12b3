-- ===== src/Expressions/Predicate/Single.antt =====
-- A predicate that is built matches a tuple just if its meaning says so.
use quickstep_streaming.Prelude.{
  ℕ, ◌≡◌, refl, sym, ◌∙◌, Bool, true, false, Option, none, some, arith, inl, inr, Bool-cases,
}
use quickstep_streaming.Types.Accessor.{ValueAccessor}
use quickstep_streaming.Types.Comparator.{Comparator, compare_typed_values}
use quickstep_streaming.Expressions.Scalar.{
  Scalar, attribute, literal_value, expression, value_for_single_tuple,
}
use quickstep_streaming.Expressions.Comparison.{Comparison, init_static_result, single_tuple_by}
use quickstep_streaming.Expressions.Comparison
use quickstep_streaming.Expressions.Comparison.Matches.{IsMade}
use quickstep_streaming.Expressions.Predicate.{
  Predicate, Predicates, true_predicate, false_predicate, comparison, negation, conjunction,
  disjunction, nil, cons, has_static_result, get_static_result, is_static_comparison,
  static_comparison, matches_for_single_tuple, all_match, any_match,
}
use quickstep_streaming.Expressions.Predicate.Splice.{nil_every, nil_some}
use quickstep_streaming.Expressions.Predicate.Meaning.{
  meaning, every_meaning, some_meaning, every_static, some_static, IsBuilt, AreBuilt,
}

module _ {V : Type 0} (a : ValueAccessor V) (tid : ℕ) where
  compared : Comparator V → Scalar V → Scalar V → Bool
  compared c l r =
      compare_typed_values c (value_for_single_tuple l a tid) (value_for_single_tuple r a tid)

  single_tuple-compared :
      (sr : Option Bool) (c : Comparator V) (l r : Scalar V)
      → sr ≡ init_static_result c l r
      → single_tuple_by sr c l r a tid ≡ compared c l r
  unfolding single_tuple_by init_static_result compared value_for_single_tuple
  single_tuple-compared none c l r e = refl
  single_tuple-compared (some b) c (literal_value l) (literal_value r) e = ground arith
  single_tuple-compared (some b) c (literal_value l) (attribute r) e = cc
  single_tuple-compared (some b) c (literal_value l) (expression g) e = cc
  single_tuple-compared (some b) c (attribute l) r e = cc
  single_tuple-compared (some b) c (expression f) r e = cc

  comparison_meaning :
      (c : Comparison V)
      → IsMade c
      → Comparison.matches_for_single_tuple c a tid ≡ meaning (comparison c) a tid
  unfolding Comparison.matches_for_single_tuple meaning compared
  comparison_meaning c made =
      single_tuple-compared c.static_result c.comparator c.left_operand c.right_operand made

  static_single :
      (sr : Option Bool) (c : Comparator V) (l r : Scalar V)
      → is_static_comparison sr ≡ true
      → single_tuple_by sr c l r a tid ≡ static_comparison sr
  unfolding single_tuple_by is_static_comparison static_comparison
  static_single (some b) c l r e = refl
  static_single none c l r e = cc

mutual
  unfolding IsBuilt has_static_result get_static_result meaning AreBuilt every_meaning some_meaning
      every_static some_static Comparison.matches_for_single_tuple

  pub static-meaning :
      {V : Type 0} (p : Predicate V) (a : ValueAccessor V) (tid : ℕ)
      → IsBuilt p
      → has_static_result p ≡ true
      → meaning p a tid ≡ get_static_result p
  static-meaning true_predicate a tid built e = refl
  static-meaning false_predicate a tid built e = refl
  static-meaning (comparison c) a tid built e =
      sym (comparison_meaning a tid c built)
      ∙ static_single a tid c.static_result c.comparator c.left_operand c.right_operand e
  static-meaning (negation p has b) a tid (built, (eh, eb)) e =
      ground (arith, static-meaning p a tid built (sym eh ∙ e), eb e)
  static-meaning (conjunction statics dynamics has b) a tid (bs, (bd, fits)) e = ground (
    arith,
    every_static-meaning statics a tid bs,
    fits.result,
    fits.decided,
    nil_every dynamics a tid,
  )
  static-meaning (disjunction statics dynamics has b fresh) a tid (bs, (bd, fits)) e = ground (
    arith,
    some_static-meaning statics a tid bs,
    fits.untouched,
    fits.result e,
    fits.decided,
    nil_some dynamics a tid,
  )

  pub every_static-meaning :
      {V : Type 0} (ps : Predicates V) (a : ValueAccessor V) (tid : ℕ)
      → AreBuilt true ps
      → every_meaning ps a tid ≡ every_static ps
  every_static-meaning nil a tid built = refl
  every_static-meaning (cons p ps) a tid (bp, (e, bs)) =
      ground (arith, static-meaning p a tid bp e, every_static-meaning ps a tid bs)

  pub some_static-meaning :
      {V : Type 0} (ps : Predicates V) (a : ValueAccessor V) (tid : ℕ)
      → AreBuilt true ps
      → some_meaning ps a tid ≡ some_static ps
  some_static-meaning nil a tid built = refl
  some_static-meaning (cons p ps) a tid (bp, (e, bs)) =
      ground (arith, static-meaning p a tid bp e, some_static-meaning ps a tid bs)

mutual
  unfolding IsBuilt has_static_result get_static_result meaning AreBuilt every_meaning some_meaning
      every_static some_static matches_for_single_tuple all_match any_match

  matches :
      {V : Type 0} (p : Predicate V) (a : ValueAccessor V) (tid : ℕ)
      → IsBuilt p
      → matches_for_single_tuple p a tid ≡ meaning p a tid
  matches true_predicate a tid built = refl
  matches false_predicate a tid built = refl
  matches (comparison c) a tid built = comparison_meaning a tid c built
  matches (negation p has b) a tid (built, (eh, eb)) = elim (Bool-cases has) [
    | inl on ↦ ground (arith, static-meaning p a tid built (sym eh ∙ on), eb on)
    | inr off ↦ ground (arith, matches p a tid built)
  ]
  matches (conjunction statics dynamics has b) a tid (bs, (bd, fits)) = elim (Bool-cases has) [
    | inl on ↦
        ground
          (arith, static-meaning (conjunction statics dynamics has b) a tid (bs, (bd, fits)) on)
    | inr off ↦ ground (
      arith,
      all_matches dynamics a tid bd,
      every_static-meaning statics a tid bs,
      fits.result,
      fits.decided,
    )
  ]
  matches (disjunction statics dynamics has b fresh) a tid (bs, (bd, fits)) =
      elim (Bool-cases has) [
        | inl on ↦ ground (
          arith,
          static-meaning (disjunction statics dynamics has b fresh) a tid (bs, (bd, fits)) on,
        )
        | inr off ↦ ground (
          arith,
          any_matches dynamics a tid bd,
          some_static-meaning statics a tid bs,
          fits.untouched,
          fits.decided,
        )
      ]

  all_matches :
      {V : Type 0} (ps : Predicates V) (a : ValueAccessor V) (tid : ℕ)
      → AreBuilt false ps
      → all_match ps a tid ≡ every_meaning ps a tid
  all_matches nil a tid built = refl
  all_matches (cons p ps) a tid (bp, (e, bs)) =
      ground (arith, matches p a tid bp, all_matches ps a tid bs)

  any_matches :
      {V : Type 0} (ps : Predicates V) (a : ValueAccessor V) (tid : ℕ)
      → AreBuilt false ps
      → any_match ps a tid ≡ some_meaning ps a tid
  any_matches nil a tid built = refl
  any_matches (cons p ps) a tid (bp, (e, bs)) =
      ground (arith, matches p a tid bp, any_matches ps a tid bs)

-- For a well-formed predicate `matches_for_single_tuple` answers the meaning of the predicate on
-- the tuple, which is read off all its operands without the flags.
pub matches_for_single_tuple-meaning :
    {V : Type 0} (p : Predicate V) (a : ValueAccessor V) (tid : ℕ)
    → IsBuilt p
    → matches_for_single_tuple p a tid ≡ meaning p a tid
matches_for_single_tuple-meaning p a tid built = matches p a tid built
