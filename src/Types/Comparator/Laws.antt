-- ===== src/Types/Comparator/Laws.antt =====
-- Every way of comparing gives the answer of `compare_typed_values`, on the ids that the filter has.
use quickstep_streaming.Prelude.{
  ℕ, ◌<◌, ◌≡◌, sym, ap, ◌∙◌, List, Bool, true, false, not, ◌&&◌, Option, none, some, if◌then◌else◌,
  length, arith,
}
use quickstep_streaming.Common.TupleIdSequence.{TupleIdSequence, tuple_id_limit, create, ids}
use quickstep_streaming.Common.TupleIdSequence.Iteration.{ids_small}
use quickstep_streaming.Common.TupleIdSequence.Sets.{Holds, Holds-ext, create-Holds}
use quickstep_streaming.Types.Values.{TypedValue, is_null, Tuple}
use quickstep_streaming.Types.Accessor.{tuple_vector, id_sequence_adapter, positions}
use quickstep_streaming.Types.Accessor.Iterate.{
  positions-tuple_vector, positions-id_sequence_adapter,
}
use quickstep_streaming.Types.Comparator.{
  Comparator, compare_typed_values, side_nullable, test_static, test_pair, set_each, set_aligned,
  visited,
}
use quickstep_streaming.Types.Comparator.Loops.{
  set_each-members, set_each-range, Agree, set_aligned-set_each,
}

-- The ids that an optional filter lets through.
abbrev pub Filters : Option TupleIdSequence → ℕ → (ℕ → Bool) → Type 0
Filters none n φ = (i : ℕ) → φ i ≡ true
Filters (some f) n φ = Holds f n φ

module _ {V : Type 0} where
  -- `compareTypedValues` with the operands in the order of the sides.
  abbrev pub ordered : Comparator V → Bool → TypedValue V → TypedValue V → Bool
  ordered c on_left value other =
      if on_left then compare_typed_values c value other else compare_typed_values c other value

  pub test_pair-ordered :
      (c : Comparator V) (on_left : Bool) (value other : TypedValue V)
      → test_pair c on_left value other ≡ ordered c on_left value other
  unfolding test_pair compare_typed_values
  test_pair-ordered c true value other = ground arith
  test_pair-ordered c false value other = ground arith

  pub test_static-ordered :
      (c : Comparator V) (on_left : Bool) (value other : TypedValue V)
      → (side_nullable c (not on_left) && is_null other) ≡ false
      → test_static c on_left value other ≡ ordered c on_left value other
  unfolding test_static compare_typed_values
  test_static-ordered c true value other h = ground arith
  test_static-ordered c false value other h = ground arith

  pub ordered_null :
      (c : Comparator V) (on_left : Bool) (value other : TypedValue V)
      → (side_nullable c (not on_left) && is_null other) ≡ true
      → ordered c on_left value other ≡ false
  unfolding compare_typed_values
  ordered_null c true value other h = ground arith
  ordered_null c false value other h = ground arith

  module _ (ts : List (Tuple V)) (small : length ts < tuple_id_limit) where
    -- A loop over what an optional filter lets through sets the test's answer there.
    pub visited-Holds :
        (filter : Option TupleIdSequence) (φ test : ℕ → Bool)
        → Filters filter (length ts) φ
        → Holds
            (set_each (create (length ts)) (visited (tuple_vector ts) filter) test)
            (length ts)
            (λ j. φ j && test j)
    visited-Holds none φ test h = rw (positions-tuple_vector ts (omega arith)) (
        Holds-ext _ (length ts) _ (λ j. φ j && test j) (λ j lt. ground (arith, h j))
          (set_each-range (length ts) 0 (length ts) (create (length ts)) (λ j. false) test
            (omega arith) (create-Holds (length ts) small)))
    visited-Holds (some f) φ test h =
        let inside : f.num_bits < tuple_id_limit = omega (arith, h.size) in
        rw (ids_small f h.valid inside) (
          Holds-ext _ (length ts) _ (λ j. φ j && test j) (λ j lt. ground arith)
            (set_each-members f.num_bits 0 (length ts) (create (length ts)) f (λ j. false) φ test h
              (omega (arith, h.size)) (create-Holds (length ts) small)))

    module _ (f : TupleIdSequence) (φ : ℕ → Bool) (h : Holds f (length ts) φ) where
      inside : f.num_bits < tuple_id_limit
      inside = omega (arith, h.size)

      pub positions-ids : positions (id_sequence_adapter ts f) ≡ ids f
      positions-ids =
          positions-id_sequence_adapter ts f h.valid (omega (arith, inside))
          ∙ sym (ids_small f h.valid inside)

      -- A loop in lockstep with a column made over the filter does the same.
      pub aligned-Holds :
          (left : ℕ) (test : ℕ → ℕ → Bool) (test' : ℕ → Bool)
          → left ≡ length (ids f)
          → Agree test test' 0 (ids f)
          → Holds
              (set_aligned (create f.num_bits) (ids f) 0 left test)
              (length ts)
              (λ j. φ j && test' j)
      aligned-Holds left test test' e agree =
          let made : create f.num_bits ≡ create (length ts) = ap create h.size in
          rw (e, set_aligned-set_each (ids f) (create f.num_bits) 0 test test' agree, made)
            (visited-Holds (some f) φ test' h)
