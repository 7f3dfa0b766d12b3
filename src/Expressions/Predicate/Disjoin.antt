-- ===== src/Expressions/Predicate/Disjoin.antt =====
-- `addPredicate` of a disjunction keeps the flags in agreement with the operands.
pub mod Meaning
use quickstep_streaming.Prelude.{
  ◌≡◌, refl, Bool, true, false, ◌&&◌, ◌||◌, if◌then◌else◌, arith, inl, inr, Bool-cases,
}
use quickstep_streaming.Expressions.Predicate.{
  Predicate, Predicates, true_predicate, false_predicate, comparison, negation, conjunction,
  disjunction, nil, cons, has_static_result, get_static_result, splice,
}
use quickstep_streaming.Expressions.Predicate.Build.{
  is_nil, DisjunctionFlags, disjunction_flags, process_static_disjunct, process_static_disjuncts,
  process_dynamic_disjunct, disjunction_of, add_disjunct, add_to_disjunction,
}
use quickstep_streaming.Expressions.Predicate.Meaning.{
  some_static, DisjunctionFits, IsBuilt, AreBuilt,
}
use quickstep_streaming.Expressions.Predicate.Splice.{
  some_static-splice, is_nil-splice, splice-AreBuilt, one-AreBuilt, nil_static,
}

-- What holds of a disjunction's three flags, with no static operand true where there is none.
data Fits (any no_static no_dynamic : Bool) : DisjunctionFlags → Type 0 where
  fits :
      {has b fresh : Bool}
      → DisjunctionFits any no_static no_dynamic has b fresh
      → (no_static ≡ true → any ≡ false)
      → Fits any no_static no_dynamic (disjunction_flags has b fresh)

process_dynamic_disjunct-Fits :
    (any no_static no_dynamic : Bool) (flags : DisjunctionFlags)
    → Fits any no_static no_dynamic flags
    → Fits any no_static false (process_dynamic_disjunct flags)
unfolding process_dynamic_disjunct
process_dynamic_disjunct-Fits true ns nd (disjunction_flags true true false) (fits h none_) =
    fits (record { untouched = ground arith; decided = refl; result = λ e. refl }) none_
process_dynamic_disjunct-Fits true ns nd (disjunction_flags true true true) (fits h none_) =
    absurd (ground (arith, h.untouched, none_))
process_dynamic_disjunct-Fits true ns nd (disjunction_flags true false fresh) (fits h none_) =
    absurd (ground (arith, h.result refl))
process_dynamic_disjunct-Fits true ns nd (disjunction_flags false b fresh) (fits h none_) =
    absurd (ground (arith, h.decided))
process_dynamic_disjunct-Fits false ns nd (disjunction_flags true false fresh) (fits h none_) =
    fits (record { untouched = ground arith; decided = refl; result = λ e. cc }) none_
process_dynamic_disjunct-Fits false ns nd (disjunction_flags true true true) (fits h none_) =
    fits (record { untouched = ground arith; decided = refl; result = λ e. cc }) none_
process_dynamic_disjunct-Fits false ns nd (disjunction_flags true true false) (fits h none_) =
    absurd (ground (arith, h.result refl))
process_dynamic_disjunct-Fits false ns nd (disjunction_flags false b true) (fits h none_) =
    fits (record { untouched = ground arith; decided = refl; result = λ e. cc }) none_
process_dynamic_disjunct-Fits false ns nd (disjunction_flags false b false) (fits h none_) =
    fits (record { untouched = ground arith; decided = refl; result = λ e. cc }) none_

static-Fits :
    (g any ns nd has b fresh : Bool)
    → DisjunctionFits any ns nd has b fresh
    → (ns ≡ true → any ≡ false)
    → Fits (any || g) false nd (
        if g
        then disjunction_flags true true false
        else if fresh
        then disjunction_flags true false false
        else disjunction_flags has b false)
static-Fits true any ns nd has b fresh h none_ =
    fits (record { untouched = refl; decided = ground arith; result = λ e. ground arith }) (λ e. cc)
static-Fits false any ns nd has b true h none_ =
    fits
      (record {
        untouched = refl;
        decided = ground (arith, h.untouched);
        result = λ e. ground (arith, h.untouched, none_);
      })
      (λ e. cc)
static-Fits false any ns nd has b false h none_ =
    fits
      (record {
        untouched = refl;
        decided = ground (arith, h.decided);
        result = λ e. ground (arith, h.result e);
      })
      (λ e. cc)

module _ {V : Type 0} where
  process_static_disjunct-Fits :
      (any ns nd : Bool) (p : Predicate V) (flags : DisjunctionFlags)
      → Fits any ns nd flags
      → Fits (any || get_static_result p) false nd (process_static_disjunct p flags)
  unfolding process_static_disjunct
  process_static_disjunct-Fits any ns nd p (disjunction_flags has b fresh) (fits h none_) =
      static-Fits (get_static_result p) any ns nd has b fresh h none_

  process_static_disjuncts-Fits :
      (any ns nd : Bool) (ps : Predicates V) (flags : DisjunctionFlags)
      → Fits any ns nd flags
      → Fits (any || some_static ps) (ns && is_nil ps) nd (process_static_disjuncts ps flags)
  unfolding process_static_disjuncts some_static
  process_static_disjuncts-Fits any ns nd nil flags h =
      let e : (any || false) ≡ any = ground arith in
      let e' : (ns && true) ≡ ns = ground arith in rw (e, e') h
  process_static_disjuncts-Fits any ns nd (cons p ps) flags h =
      let g : Bool = get_static_result p in
      let e : (any || (g || some_static ps)) ≡ ((any || g) || some_static ps) = ground arith in
      let e' : (ns && false) ≡ false = ground arith in
      rw (e, e')
        (process_static_disjuncts-Fits (any || g) false nd ps (process_static_disjunct p flags)
          (process_static_disjunct-Fits any ns nd p flags h))

  disjunction_of-IsBuilt :
      (s d : Predicates V) (flags : DisjunctionFlags)
      → AreBuilt true s
      → AreBuilt false d
      → Fits (some_static s) (is_nil s) (is_nil d) flags
      → IsBuilt (disjunction_of s d flags)
  unfolding IsBuilt disjunction_of
  disjunction_of-IsBuilt s d (disjunction_flags has b fresh) bs bd (fits h none_) = (bs, (bd, h))

  add_disjunct-IsBuilt :
      (s d : Predicates V) (flags : DisjunctionFlags) (p : Predicate V)
      → AreBuilt true s
      → AreBuilt false d
      → Fits (some_static s) (is_nil s) (is_nil d) flags
      → IsBuilt p
      → IsBuilt (add_disjunct s d flags p)
  unfolding add_disjunct some_static
  add_disjunct-IsBuilt s d flags p bs bd h built = elim (Bool-cases (has_static_result p)) [
    | inl e ↦ rw e (
        disjunction_of-IsBuilt (splice s (cons p nil)) d _
          (splice-AreBuilt true s (cons p nil) bs (one-AreBuilt true p built e)) bd
          (rw (some_static-splice s (cons p nil), is_nil-splice s (cons p nil))
            (let one : (get_static_result p || false) ≡ get_static_result p = ground arith in
              let left : (is_nil s && false) ≡ false = ground arith in
              rw (one, left)
                (process_static_disjunct-Fits (some_static s) (is_nil s) (is_nil d) p flags h))))
    | inr e ↦ rw e (
        disjunction_of-IsBuilt s (splice d (cons p nil)) _ bs
          (splice-AreBuilt false d (cons p nil) bd (one-AreBuilt false p built e))
          (rw (is_nil-splice d (cons p nil)) (
            let left : (is_nil d && false) ≡ false = ground arith in
            rw left (process_dynamic_disjunct-Fits (some_static s) (is_nil s) (is_nil d) flags h))))
  ]

  splice_disjunction-IsBuilt :
      (s d : Predicates V) (flags : DisjunctionFlags) (s' d' : Predicates V)
      → AreBuilt true s
      → AreBuilt false d
      → Fits (some_static s) (is_nil s) (is_nil d) flags
      → AreBuilt true s'
      → AreBuilt false d'
      → IsBuilt (add_to_disjunction s d flags (disjunction s' d' true true true))
  unfolding add_to_disjunction
  splice_disjunction-IsBuilt s d flags s' d' bs bd h bs' bd' =
      let h' : Fits (some_static (splice s s')) (is_nil (splice s s')) (is_nil d)
          (process_static_disjuncts s' flags) =
        rw (some_static-splice s s', is_nil-splice s s')
          (process_static_disjuncts-Fits (some_static s) (is_nil s) (is_nil d) s' flags h) in
      disjunction_of-IsBuilt (splice s s') (splice d d') _ (splice-AreBuilt true s s' bs bs')
        (splice-AreBuilt false d d' bd bd')
        (elim (Bool-cases (is_nil d')) [
          | inl e ↦
              let same : (is_nil d && true) ≡ is_nil d = ground arith in
              rw (is_nil-splice d d', e, same) h'
          | inr e ↦
              let left : (is_nil d && false) ≡ false = ground arith in
              rw (is_nil-splice d d', e, left) (process_dynamic_disjunct-Fits _ _ (is_nil d) _ h')
        ])

  -- Adding a well-formed operand to a well-formed disjunction gives a well-formed predicate: its
  -- three flags agree with its static and its dynamic operands.
  pub add_to_disjunction-IsBuilt :
      (s d : Predicates V) (has b fresh : Bool) (p : Predicate V)
      → IsBuilt (disjunction s d has b fresh)
      → IsBuilt p
      → IsBuilt (add_to_disjunction s d (disjunction_flags has b fresh) p)
  unfolding add_to_disjunction IsBuilt
  add_to_disjunction-IsBuilt s d has b fresh (disjunction s' d' h' b' f') (bs, (bd, h))
        (bs', (bd', k)) =
      splice_disjunction-IsBuilt s d _ s' d' bs bd (fits h (nil_static s)) bs' bd'
  add_to_disjunction-IsBuilt s d has b fresh true_predicate (bs, (bd, h)) built =
      add_disjunct-IsBuilt s d _ _ bs bd (fits h (nil_static s)) built
  add_to_disjunction-IsBuilt s d has b fresh false_predicate (bs, (bd, h)) built =
      add_disjunct-IsBuilt s d _ _ bs bd (fits h (nil_static s)) built
  add_to_disjunction-IsBuilt s d has b fresh (comparison c) (bs, (bd, h)) built =
      add_disjunct-IsBuilt s d _ _ bs bd (fits h (nil_static s)) built
  add_to_disjunction-IsBuilt s d has b fresh (negation p h' b') (bs, (bd, h)) built =
      add_disjunct-IsBuilt s d _ _ bs bd (fits h (nil_static s)) built
  add_to_disjunction-IsBuilt s d has b fresh (conjunction s' d' h' b') (bs, (bd, h)) built =
      add_disjunct-IsBuilt s d _ _ bs bd (fits h (nil_static s)) built
