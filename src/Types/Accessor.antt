-- ===== src/Types/Accessor.antt =====
-- The accessors of a stream's tuples: types/containers/TupleVectorValueAccessor.hpp, and
-- `TupleIdSequenceAdapterValueAccessor` of types/containers/ValueAccessor.hpp over one.
pub mod Iterate
use quickstep_streaming.Prelude.{
  ℕ, zero, suc, ◌+◌, ◌%◌, List, [], ◌∷◌, ◌++◌, map, Bool, true, false, not, ltb, ◌==◌,
  if◌then◌else◌, length, get_or,
}
use quickstep_streaming.Common.TupleIdSequence.{
  TupleIdSequence, size_t_mod, to_tuple_id, before_begin, advance, end, num_tuples as ids_count,
}
use quickstep_streaming.Types.Values.{TypedValue, Tuple, get_attribute_value}

pub data ValueAccessor (V : Type 0) : Type 0 where
  tuple_vector : List (Tuple V) → ValueAccessor V
  id_sequence_adapter : List (Tuple V) → TupleIdSequence → ValueAccessor V

module _ {V : Type 0} where
  abbrev pub tuples : ValueAccessor V → List (Tuple V)
  tuples (tuple_vector ts) = ts
  tuples (id_sequence_adapter ts s) = ts

  pub add_tuple : List (Tuple V) → Tuple V → List (Tuple V)
  add_tuple ts t = ts ++ t ∷ []

  -- Both are a `tuple_id`.
  unfoldable pub end_position : ValueAccessor V → ℕ
  end_position (tuple_vector ts) = to_tuple_id (length ts)
  end_position (id_sequence_adapter ts s) = to_tuple_id s.num_bits

  unfoldable pub num_tuples : ValueAccessor V → ℕ
  num_tuples (tuple_vector ts) = to_tuple_id (length ts)
  num_tuples (id_sequence_adapter ts s) = to_tuple_id (ids_count s)

  -- `next()` on the position that `beginIteration` and earlier calls left: the new position, and
  -- whether it is one of a tuple.
  pub next : ValueAccessor V → ℕ → ℕ × Bool
  next (tuple_vector ts) position =
      let position' = (position + 1) % size_t_mod in (position', ltb position' (length ts))
  next (id_sequence_adapter ts s) position =
      let position' = advance s position in (position', not (position' == end s))

  -- `while (accessor->next())`: the positions that the loop sees, with fuel.
  positions_from : ValueAccessor V → ℕ → ℕ → List ℕ
  unfolding next
  positions_from a zero position = []
  positions_from a (suc fuel) position =
      let (position', more) = next a position in
      let rest = positions_from a fuel position' in if more then position' ∷ rest else []

  -- How many positions there may be, as fuel.
  abbrev size : ValueAccessor V → ℕ
  size (tuple_vector ts) = length ts
  size (id_sequence_adapter ts s) = s.num_bits

  -- A whole iteration, from `beginIteration`.
  pub positions : ValueAccessor V → List ℕ
  unfolding positions_from
  positions a = positions_from a (suc (size a)) before_begin

  -- The position is taken as a `tuple_id`.
  abbrev pub tuple_at : ValueAccessor V → ℕ → Tuple V
  tuple_at a tid = get_or (tuples a) (to_tuple_id tid) []

  abbrev pub typed_value_at_absolute_position : ValueAccessor V → ℕ → ℕ → TypedValue V
  typed_value_at_absolute_position a attr tid = get_attribute_value (tuple_at a tid) attr

  pub tuple_with_attributes : ValueAccessor V → List ℕ → ℕ → Tuple V
  tuple_with_attributes a attributes tid =
      map (λ attr. typed_value_at_absolute_position a attr tid) attributes

  unfoldable pub create_shared_tuple_id_sequence_adapter :
      ValueAccessor V → TupleIdSequence → ValueAccessor V
  create_shared_tuple_id_sequence_adapter a s = id_sequence_adapter (tuples a) s
