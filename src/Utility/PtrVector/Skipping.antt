-- ===== src/Utility/PtrVector/Skipping.antt =====
-- A loop with skip iterators sees the elements that are there.
use quickstep_streaming.Prelude.{
  ℕ, zero, suc, ◌+◌, ◌≤◌, ◌≡◌, refl, false, none, some, List, [], ◌∷◌, ◌==◌, length, get_or, drop,
  arith,
}
use quickstep_streaming.Utility.PtrVector.{PtrVector, skip_nulls, begin_skip, skip_loop, elements}

module _ {ℓ} {A : Type ℓ} where
  drop_cons :
      (v : List A) (i : ℕ) (x d : A) (w : List A)
      → drop i v ≡ x ∷ w
      → (drop (suc i) v ≡ w) × (get_or v i d ≡ x)
  drop_cons [] zero x d w h = cc
  drop_cons [] (suc i) x d w h = cc
  drop_cons (y ∷ v) zero x d w h = (cc, cc)
  drop_cons (y ∷ v) (suc i) x d w h = drop_cons v i x d w h

module _ {T : Type 0} where
  skip_loop-suffix :
      (v w : PtrVector T) (i fuel : ℕ)
      → drop i v ≡ w
      → i + length w ≡ length v
      → length w ≤ fuel
      → skip_loop fuel v (skip_nulls w i) ≡ some (elements w)
  unfolding skip_loop skip_nulls
  skip_loop-suffix v [] i zero e size enough = ground arith
  skip_loop-suffix v [] i (suc fuel) e size enough = ground arith
  skip_loop-suffix v (none ∷ w) i fuel e size enough =
      skip_loop-suffix v w (suc i) fuel (drop_cons v i none none w e).0 (omega arith) (omega arith)
  skip_loop-suffix v (some x ∷ w) i zero e size enough = absurd (omega arith)
  skip_loop-suffix v (some x ∷ w) i (suc fuel) e size enough =
      let (rest, here) = drop_cons v i (some x) none w e in
      let next = skip_loop-suffix v w (suc i) fuel rest (omega arith) (omega arith) in
      let more : (i == length v) ≡ false = ground arith in rw (more, here, rest, next) refl

  -- With as much fuel as the vector is long, the loop from `begin_skip` to `end_skip` sees the
  -- elements that are there, in order, and follows no null pointer.
  pub skip_loop-elements :
      (v : PtrVector T) (fuel : ℕ)
      → length v ≤ fuel
      → skip_loop fuel v (begin_skip v) ≡ some (elements v)
  unfolding begin_skip
  skip_loop-elements v fuel enough = skip_loop-suffix v v 0 fuel refl (omega arith) enough
