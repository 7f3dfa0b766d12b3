-- ===== src/Expressions/Predicate/Splice.antt =====
-- The lists of operands of a conjunction or a disjunction, and what `splice` does to them.
use quickstep_streaming.Prelude.{ℕ, ◌≡◌, refl, Bool, true, false, ◌&&◌, ◌||◌, arith}
use quickstep_streaming.Types.Accessor.{ValueAccessor}
use quickstep_streaming.Expressions.Predicate.{
  Predicate, Predicates, nil, cons, has_static_result, splice,
}
use quickstep_streaming.Expressions.Predicate.Build.{is_nil}
use quickstep_streaming.Expressions.Predicate.Meaning.{
  every_meaning, some_meaning, every_static, some_static, IsBuilt, AreBuilt,
}

module _ {V : Type 0} where
  pub every_meaning-splice :
      (ps qs : Predicates V) (a : ValueAccessor V) (tid : ℕ)
      → every_meaning (splice ps qs) a tid ≡ (every_meaning ps a tid && every_meaning qs a tid)
  unfolding every_meaning splice
  every_meaning-splice nil qs a tid = refl
  every_meaning-splice (cons p ps) qs a tid = ground (arith, every_meaning-splice ps qs a tid)

  pub some_meaning-splice :
      (ps qs : Predicates V) (a : ValueAccessor V) (tid : ℕ)
      → some_meaning (splice ps qs) a tid ≡ (some_meaning ps a tid || some_meaning qs a tid)
  unfolding some_meaning splice
  some_meaning-splice nil qs a tid = refl
  some_meaning-splice (cons p ps) qs a tid = ground (arith, some_meaning-splice ps qs a tid)

  pub every_static-splice :
      (ps qs : Predicates V) → every_static (splice ps qs) ≡ (every_static ps && every_static qs)
  unfolding every_static splice
  every_static-splice nil qs = refl
  every_static-splice (cons p ps) qs = ground (arith, every_static-splice ps qs)

  pub some_static-splice :
      (ps qs : Predicates V) → some_static (splice ps qs) ≡ (some_static ps || some_static qs)
  unfolding some_static splice
  some_static-splice nil qs = refl
  some_static-splice (cons p ps) qs = ground (arith, some_static-splice ps qs)

  pub is_nil-splice : (ps qs : Predicates V) → is_nil (splice ps qs) ≡ (is_nil ps && is_nil qs)
  unfolding splice
  is_nil-splice nil qs = refl
  is_nil-splice (cons p ps) qs = refl

  pub splice-AreBuilt :
      (has : Bool) (ps qs : Predicates V)
      → AreBuilt has ps
      → AreBuilt has qs
      → AreBuilt has (splice ps qs)
  unfolding AreBuilt splice
  splice-AreBuilt has nil qs h h' = h'
  splice-AreBuilt has (cons p ps) qs (bp, (e, bs)) h' = (bp, (e, splice-AreBuilt has ps qs bs h'))

  pub one-AreBuilt :
      (has : Bool) (p : Predicate V)
      → IsBuilt p
      → has_static_result p ≡ has
      → AreBuilt has (cons p nil)
  unfolding AreBuilt
  one-AreBuilt has p built e = (built, (e, tt))

  pub nil_static : (ps : Predicates V) → is_nil ps ≡ true → some_static ps ≡ false
  unfolding some_static
  nil_static nil e = refl
  nil_static (cons p ps) e = cc

  pub nil_every :
      (ps : Predicates V) (a : ValueAccessor V) (tid : ℕ)
      → is_nil ps ≡ true
      → every_meaning ps a tid ≡ true
  unfolding every_meaning
  nil_every nil a tid e = refl
  nil_every (cons p ps) a tid e = cc

  pub nil_some :
      (ps : Predicates V) (a : ValueAccessor V) (tid : ℕ)
      → is_nil ps ≡ true
      → some_meaning ps a tid ≡ false
  unfolding some_meaning
  nil_some nil a tid e = refl
  nil_some (cons p ps) a tid e = cc
