-- ===== src/Types/Accessor/Iterate.antt =====
-- What an iteration over an accessor visits.
use quickstep_streaming.Prelude.{
  ℕ, zero, suc, ◌+◌, ◌%◌, ◌<◌, ◌≡◌, refl, ap, ◌∙◌, List, [], ◌∷◌, map, ◌≤◌, ap₂, get_or, length,
  range, arith,
}
use quickstep_streaming.Utility.BitVector.Bits.{IsValid}
use quickstep_streaming.Common.TupleIdSequence.{
  TupleIdSequence, size_t_mod, tuple_id_limit, to_tuple_id, to_tuple_id_small, before_begin,
  advance, ids_from,
}
use quickstep_streaming.Common.TupleIdSequence.Iteration.{
  members, ids_from-begin, advance-before_begin,
}
use quickstep_streaming.Types.Values.{Tuple}
use quickstep_streaming.Types.Accessor.{
  tuple_vector, id_sequence_adapter, next, positions_from, positions, end_position, tuple_at,
}

module _ {V : Type 0} where
  positions_from-range :
      (ts : List (Tuple V)) (count fuel i position : ℕ)
      → length ts < size_t_mod
      → i + count ≡ length ts
      → count < fuel
      → (position + 1) % size_t_mod ≡ i
      → positions_from (tuple_vector ts) fuel position ≡ range count i
  unfolding positions_from next
  positions_from-range ts zero zero i position small h enough at = absurd (omega arith)
  positions_from-range ts zero (suc fuel) i position small h enough at = ground arith
  positions_from-range ts (suc count) zero i position small h enough at = absurd (omega arith)
  positions_from-range ts (suc count) (suc fuel) i position small h enough at =
      let rest =
        positions_from-range ts count fuel (suc i) i small (omega arith) (omega arith)
          (omega arith) in
      rw at (ground (arith, rest))

  -- The loop with `next` over fewer than 2 ^ 64 tuples, with one more than their number as fuel,
  -- visits each position once, in order.
  pub positions-tuple_vector :
      (ts : List (Tuple V))
      → length ts < size_t_mod
      → positions (tuple_vector ts) ≡ range (length ts) 0
  unfolding positions
  positions-tuple_vector ts small =
      positions_from-range ts (length ts) (suc (length ts)) 0 before_begin small (omega arith)
        (omega arith) refl

  positions_from-ids_from :
      (ts : List (Tuple V)) (s : TupleIdSequence) (fuel position : ℕ)
      → positions_from (id_sequence_adapter ts s) fuel position
        ≡ ids_from s fuel (advance s position)
  unfolding positions_from next ids_from
  positions_from-ids_from ts s zero position = refl
  positions_from-ids_from ts s (suc fuel) position =
      ground (arith, positions_from-ids_from ts s fuel (advance s position))

  -- The loop with `next` over an adapter with a well-formed sequence shorter than 2 ^ 64, with one
  -- more than the length as fuel, visits just the ids of the sequence, in increasing order.
  pub positions-id_sequence_adapter :
      (ts : List (Tuple V)) (s : TupleIdSequence)
      → IsValid s
      → s.num_bits < size_t_mod
      → positions (id_sequence_adapter ts s) ≡ members s s.num_bits 0
  unfolding positions
  positions-id_sequence_adapter ts s valid small =
      positions_from-ids_from ts s (suc s.num_bits) before_begin
      ∙ ap (ids_from s (suc s.num_bits)) (advance-before_begin s)
      ∙ ids_from-begin s (suc s.num_bits) valid small (omega arith)

  -- A `tuple_id` counts the tuples.
  pub end_position_small :
      (ts : List (Tuple V))
      → length ts < tuple_id_limit
      → end_position (tuple_vector ts) ≡ length ts
  unfolding end_position
  end_position_small ts small = to_tuple_id_small (length ts) small

  tuple_at-range :
      (xs ts : List (Tuple V)) (i : ℕ)
      → i + length xs ≤ tuple_id_limit
      → ((j : ℕ) → get_or ts (i + j) [] ≡ get_or xs j [])
      → map (tuple_at (tuple_vector ts)) (range (length xs) i) ≡ xs
  tuple_at-range [] ts i fits same = refl
  tuple_at-range (x ∷ xs) ts i fits same =
      let here : get_or ts (to_tuple_id i) [] ≡ x =
        ap (λ k. get_or ts k []) (to_tuple_id_small i (omega arith) ∙ omega arith) ∙ same 0 in
      ap₂ ◌∷◌ here (
        tuple_at-range xs ts (suc i) (omega arith)
          (λ j. ap (λ k. get_or ts k []) (omega arith) ∙ same (suc j)))

  -- An iteration sees the tuples in their order.
  pub map-tuple_at :
      (ts : List (Tuple V))
      → length ts < tuple_id_limit
      → map (tuple_at (tuple_vector ts)) (positions (tuple_vector ts)) ≡ ts
  map-tuple_at ts small =
      ap (map (tuple_at (tuple_vector ts))) (positions-tuple_vector ts (omega arith))
      ∙ tuple_at-range ts ts 0 (omega arith) (λ j. ap (λ k. get_or ts k []) (omega arith))
