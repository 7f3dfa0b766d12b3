-- ===== src/Expressions/Predicate/Conjoin.antt =====
-- `addPredicate` of a conjunction, and `NegatePredicate`, keep the flags in agreement with the operands.
use quickstep_streaming.Prelude.{
  ℕ, ◌≡◌, refl, sym, ◌∙◌, subst, Bool, true, false, ◌&&◌, arith, inl, inr, Bool-cases,
}
use quickstep_streaming.Types.Accessor.{ValueAccessor}
use quickstep_streaming.Expressions.Predicate.{
  Predicate, Predicates, true_predicate, false_predicate, comparison, negation, conjunction,
  disjunction, nil, cons, has_static_result, get_static_result, splice,
}
use quickstep_streaming.Expressions.Predicate.Build.{
  is_nil, process_static_operand, process_static_operands, process_dynamic_operand, conjunction_of,
  add_conjunct, add_to_conjunction,
}
use quickstep_streaming.Expressions.Predicate.Meaning.{
  meaning, every_meaning, every_static, ConjunctionFits, IsBuilt, AreBuilt,
}
use quickstep_streaming.Expressions.Predicate.Splice.{
  every_meaning-splice, every_static-splice, is_nil-splice, splice-AreBuilt, one-AreBuilt,
}

Fits : Bool → Bool → Bool × Bool → Type 0
Fits every no_dynamic (has, b) = ConjunctionFits every no_dynamic has b

process_dynamic_operand-Fits :
    (every no_dynamic : Bool) (flags : Bool × Bool)
    → Fits every no_dynamic flags
    → Fits every false (process_dynamic_operand flags)
unfolding Fits process_dynamic_operand
process_dynamic_operand-Fits every no_dynamic (true, true) fits = record {
  result = fits.result;
  decided = refl;
}
process_dynamic_operand-Fits every no_dynamic (true, false) fits = record {
  result = fits.result;
  decided = refl;
}
process_dynamic_operand-Fits every no_dynamic (false, b) fits = record {
  result = fits.result;
  decided = ground (arith, fits.decided);
}

module _ {V : Type 0} where
  conjunction_of-IsBuilt :
      (s d : Predicates V) (flags : Bool × Bool)
      → AreBuilt true s
      → AreBuilt false d
      → Fits (every_static s) (is_nil d) flags
      → IsBuilt (conjunction_of s d flags)
  unfolding IsBuilt Fits conjunction_of
  conjunction_of-IsBuilt s d (has, b) bs bd fits = (bs, (bd, fits))

  process_static_operand-Fits :
      (every no_dynamic : Bool) (p : Predicate V) (flags : Bool × Bool)
      → Fits every no_dynamic flags
      → Fits (every && get_static_result p) no_dynamic (process_static_operand p flags)
  unfolding Fits process_static_operand
  process_static_operand-Fits every no_dynamic p (has, b) fits =
      elim (Bool-cases (get_static_result p)) [
        | inl e ↦ rw e (record {
          result = ground (arith, fits.result);
          decided = ground (arith, fits.decided);
        })
        | inr e ↦ rw e (record { result = ground arith; decided = ground arith })
      ]

  process_static_operands-Fits :
      (every no_dynamic : Bool) (ps : Predicates V) (flags : Bool × Bool)
      → Fits every no_dynamic flags
      → Fits (every && every_static ps) no_dynamic (process_static_operands ps flags)
  unfolding process_static_operands every_static
  process_static_operands-Fits every no_dynamic nil flags fits =
      subst (λ e. Fits e no_dynamic flags) (ground arith) fits
  process_static_operands-Fits every no_dynamic (cons p ps) flags fits =
      subst (λ e. Fits e no_dynamic (process_static_operands ps (process_static_operand p flags)))
        (ground arith)
        (process_static_operands-Fits (every && get_static_result p) no_dynamic ps
          (process_static_operand p flags)
          (process_static_operand-Fits every no_dynamic p flags fits))

  add_conjunct-IsBuilt :
      (s d : Predicates V) (has b : Bool) (p : Predicate V)
      → IsBuilt (conjunction s d has b)
      → IsBuilt p
      → IsBuilt (add_conjunct s d has b p)
  unfolding IsBuilt add_conjunct every_static Fits
  add_conjunct-IsBuilt s d has b p (bs, (bd, fits)) built =
      elim (Bool-cases (has_static_result p)) [
        | inl e ↦ rw e (
            conjunction_of-IsBuilt (splice s (cons p nil)) d _
              (splice-AreBuilt true s (cons p nil) bs (one-AreBuilt true p built e)) bd
              (subst (λ k. Fits k (is_nil d) (process_static_operand p (has, b)))
                (ground (arith, every_static-splice s (cons p nil)))
                (process_static_operand-Fits (every_static s) (is_nil d) p (has, b) fits)))
        | inr e ↦ rw e (
            conjunction_of-IsBuilt s (splice d (cons p nil)) _ bs
              (splice-AreBuilt false d (cons p nil) bd (one-AreBuilt false p built e))
              (subst (λ k. Fits (every_static s) k (process_dynamic_operand (has, b)))
                (ground (arith, is_nil-splice d (cons p nil)))
                (process_dynamic_operand-Fits (every_static s) (is_nil d) (has, b) fits)))
      ]

  -- The operands of another conjunction, spliced in.
  splice_conjunction-IsBuilt :
      (s d : Predicates V) (has b : Bool) (s' d' : Predicates V)
      → IsBuilt (conjunction s d has b)
      → AreBuilt true s'
      → AreBuilt false d'
      → IsBuilt (add_to_conjunction s d has b (conjunction s' d' true true))
  unfolding IsBuilt add_to_conjunction Fits
  splice_conjunction-IsBuilt s d has b s' d' (bs, (bd, fits)) bs' bd' =
      let fits' : Fits (every_static (splice s s')) (is_nil d)
          (process_static_operands s' (has, b)) =
        subst (λ k. Fits k (is_nil d) (process_static_operands s' (has, b)))
          (sym (every_static-splice s s'))
          (process_static_operands-Fits (every_static s) (is_nil d) s' (has, b) fits) in
      conjunction_of-IsBuilt (splice s s') (splice d d') _ (splice-AreBuilt true s s' bs bs')
        (splice-AreBuilt false d d' bd bd')
        (elim (Bool-cases (is_nil d')) [
          | inl e ↦
              rw (e, is_nil-splice d d')
                (subst
                  (λ k. Fits (every_static (splice s s')) k (process_static_operands s' (has, b)))
                  (ground arith) fits')
          | inr e ↦
              rw (e, is_nil-splice d d')
                (subst
                  (λ k.
                    Fits (every_static (splice s s')) k
                      (process_dynamic_operand (process_static_operands s' (has, b))))
                  (ground arith) (process_dynamic_operand-Fits _ (is_nil d) _ fits'))
        ])

  -- Adding a well-formed operand to a well-formed conjunction gives a well-formed predicate: its
  -- flags agree with its static and its dynamic operands.
  pub add_to_conjunction-IsBuilt :
      (s d : Predicates V) (has b : Bool) (p : Predicate V)
      → IsBuilt (conjunction s d has b)
      → IsBuilt p
      → IsBuilt (add_to_conjunction s d has b p)
  unfolding add_to_conjunction IsBuilt
  add_to_conjunction-IsBuilt s d has b (conjunction s' d' has' b') h (bs', (bd', fits')) =
      splice_conjunction-IsBuilt s d has b s' d' h bs' bd'
  add_to_conjunction-IsBuilt s d has b true_predicate h h' = add_conjunct-IsBuilt s d has b _ h h'
  add_to_conjunction-IsBuilt s d has b false_predicate h h' = add_conjunct-IsBuilt s d has b _ h h'
  add_to_conjunction-IsBuilt s d has b (comparison c) h h' = add_conjunct-IsBuilt s d has b _ h h'
  add_to_conjunction-IsBuilt s d has b (negation p h'' b') h h' =
      add_conjunct-IsBuilt s d has b _ h h'
  add_to_conjunction-IsBuilt s d has b (disjunction s' d' h'' b' fresh) h h' =
      add_conjunct-IsBuilt s d has b _ h h'

  conjunction_of-meaning :
      (s d : Predicates V) (flags : Bool × Bool) (a : ValueAccessor V) (tid : ℕ)
      → meaning (conjunction_of s d flags) a tid ≡ (every_meaning s a tid && every_meaning d a tid)
  unfolding conjunction_of meaning
  conjunction_of-meaning s d (has, b) a tid = refl

  add_conjunct-meaning :
      (s d : Predicates V) (has b : Bool) (p : Predicate V) (a : ValueAccessor V) (tid : ℕ)
      → meaning (add_conjunct s d has b p) a tid
        ≡ (meaning (conjunction s d has b) a tid && meaning p a tid)
  unfolding add_conjunct meaning every_meaning
  add_conjunct-meaning s d has b p a tid = elim (Bool-cases (has_static_result p)) [
    | inl e ↦
        rw
          (
            e,
            conjunction_of-meaning (splice s (cons p nil)) d (process_static_operand p (has, b)) a
                tid,
          )
          (ground (arith, every_meaning-splice s (cons p nil) a tid))
    | inr e ↦
        rw
          (
            e,
            conjunction_of-meaning s (splice d (cons p nil)) (process_dynamic_operand (has, b)) a
                tid,
          )
          (ground (arith, every_meaning-splice d (cons p nil) a tid))
  ]

  -- Adding an operand to a conjunction means `&&`, also where the operand is a conjunction and is
  -- spliced in.
  pub add_to_conjunction-meaning :
      (s d : Predicates V) (has b : Bool) (p : Predicate V) (a : ValueAccessor V) (tid : ℕ)
      → meaning (add_to_conjunction s d has b p) a tid
        ≡ (meaning (conjunction s d has b) a tid && meaning p a tid)
  unfolding add_to_conjunction meaning
  add_to_conjunction-meaning s d has b (conjunction s' d' has' b') a tid =
      conjunction_of-meaning (splice s s') (splice d d') _ a tid
      ∙ ground (arith, every_meaning-splice s s' a tid, every_meaning-splice d d' a tid)
  add_to_conjunction-meaning s d has b true_predicate a tid =
      add_conjunct-meaning s d has b true_predicate a tid
  add_to_conjunction-meaning s d has b false_predicate a tid =
      add_conjunct-meaning s d has b false_predicate a tid
  add_to_conjunction-meaning s d has b (comparison c) a tid =
      add_conjunct-meaning s d has b (comparison c) a tid
  add_to_conjunction-meaning s d has b (negation p h'' b') a tid =
      add_conjunct-meaning s d has b (negation p h'' b') a tid
  add_to_conjunction-meaning s d has b (disjunction s' d' h'' b' fresh) a tid =
      add_conjunct-meaning s d has b (disjunction s' d' h'' b' fresh) a tid
