-- ===== src/Types/Comparator.antt =====
-- `LiteralUncheckedComparator` of types/operations/comparisons/LiteralComparators.hpp and
-- LiteralComparators-inl.hpp, as the default build makes it: with
-- QUICKSTEP_ENABLE_VECTOR_PREDICATE_SHORT_CIRCUIT. The functor on the two C++ types is a function.
pub mod Loops
pub mod Laws
pub mod Methods
pub mod Filtered
use quickstep_streaming.Prelude.{
  ℕ, zero, suc, ◌+◌, List, [], ◌∷◌, Bool, true, false, not, ◌&&◌, ◌||◌, Option, none, some,
  if◌then◌else◌, length, get_or, range,
}
use quickstep_streaming.Common.TupleIdSequence.{TupleIdSequence, create, set, get, ids}
use quickstep_streaming.Types.Values.{TypedValue, null, literal, is_null}
use quickstep_streaming.Types.Accessor.{
  ValueAccessor, end_position, positions, typed_value_at_absolute_position,
}

-- `null_read` is what the functor answers on a null pointer, which the source does not define.
pub record Comparator (V : Type 0) : Type 0 where
  pub functor : V → V → Bool
  pub left_nullable : Bool
  pub right_nullable : Bool
  pub null_read : Bool

-- `NativeColumnVector`
abbrev pub ColumnVector : Type 0 → Type 0
ColumnVector V = List (TypedValue V)

-- `result->set(*it, test(*it))` for each id that a loop visits.
pub set_each : TupleIdSequence → List ℕ → (ℕ → Bool) → TupleIdSequence
set_each result [] test = result
set_each result (id ∷ rest) test = set_each (set result id (test id)) rest test

-- `result->set(*existence_it, test(*existence_it, cv_pos))`, both going on together.
pub set_aligned : TupleIdSequence → List ℕ → ℕ → ℕ → (ℕ → ℕ → Bool) → TupleIdSequence
set_aligned result [] cv_pos left test = result
set_aligned result (id ∷ rest) cv_pos zero test = result
set_aligned result (id ∷ rest) cv_pos (suc left) test =
    set_aligned (set result id (test id cv_pos)) rest (suc cv_pos) left test

-- `result->set(cv_pos, test(position, cv_pos)); ++cv_pos;` for each position of an iteration.
pub set_counted : TupleIdSequence → List ℕ → ℕ → (ℕ → ℕ → Bool) → TupleIdSequence
set_counted result [] cv_pos test = result
set_counted result (position ∷ rest) cv_pos test =
    set_counted (set result cv_pos (test position cv_pos)) rest (suc cv_pos) test

module _ {V : Type 0} where
  -- The functor on what two pointers point to; nothing here tests whether one of them is null.
  abbrev pub apply_functor : Comparator V → TypedValue V → TypedValue V → Bool
  apply_functor c (literal a) (literal b) = c.functor a b
  apply_functor c _ _ = c.null_read

  -- `compareTypedValues`, and `compareDataPtrs` on pointers
  pub compare_typed_values : Comparator V → TypedValue V → TypedValue V → Bool
  compare_typed_values c left right =
      if (c.left_nullable && is_null left) || (c.right_nullable && is_null right)
      then false
      else apply_functor c left right

  -- `compareDataPtrsHelper<arguments_in_order>`
  pub compare_data_ptrs_helper : Comparator V → Bool → TypedValue V → TypedValue V → Bool
  compare_data_ptrs_helper c arguments_in_order left right =
      if arguments_in_order then apply_functor c left right else apply_functor c right left

  abbrev column_at : ColumnVector V → ℕ → TypedValue V
  column_at cv pos = get_or cv pos null

  pub compare_column_vectors :
      Comparator V
      → ColumnVector V
      → ColumnVector V
      → Option TupleIdSequence
      → Option TupleIdSequence
      → TupleIdSequence
  unfolding set_each set_aligned compare_typed_values
  compare_column_vectors c left right (some filter) (some existence) =
      set_aligned (create existence.num_bits) (ids existence) 0 (length left)
        λ id pos. get filter id && compare_typed_values c (column_at left pos) (column_at right pos)
  compare_column_vectors c left right (some filter) none =
      set_each (create (length left)) (ids filter)
        λ id. compare_typed_values c (column_at left id) (column_at right id)
  compare_column_vectors c left right none (some existence) =
      set_aligned (create existence.num_bits) (ids existence) 0 (length left)
        λ id pos. compare_typed_values c (column_at left pos) (column_at right pos)
  compare_column_vectors c left right none none =
      set_each (create (length left)) (range (length left) 0)
        λ pos. compare_typed_values c (column_at left pos) (column_at right pos)

  -- The nullability of the column or accessor side, and of the static side.
  abbrev pub side_nullable : Comparator V → Bool → Bool
  side_nullable c on_left = if on_left then c.left_nullable else c.right_nullable

  -- `!(nullable && (value == nullptr)) && compareDataPtrsHelper<on_left>(value, &literal)`
  pub test_static : Comparator V → Bool → TypedValue V → TypedValue V → Bool
  unfolding compare_data_ptrs_helper
  test_static c on_left value static_value =
      not (side_nullable c on_left && is_null value)
      && compare_data_ptrs_helper c on_left value static_value

  -- The test on two values of which either side may be nullable.
  pub test_pair : Comparator V → Bool → TypedValue V → TypedValue V → Bool
  unfolding compare_data_ptrs_helper
  test_pair c on_left value other =
      not (
        (side_nullable c on_left && is_null value)
        || (side_nullable c (not on_left) && is_null other))
      && compare_data_ptrs_helper c on_left value other

  column_static_loop :
      Comparator V
      → Bool
      → ColumnVector V
      → TypedValue V
      → Option TupleIdSequence
      → Option TupleIdSequence
      → TupleIdSequence
  unfolding set_each set_aligned test_static
  column_static_loop c on_left cv static_value (some filter) (some existence) =
      -- An id that is not in the filter keeps the 0 that the result began with.
      set_aligned (create existence.num_bits) (ids existence) 0 (length cv)
        λ id pos. get filter id && test_static c on_left (column_at cv pos) static_value
  column_static_loop c on_left cv static_value (some filter) none =
      set_each (create (length cv)) (ids filter)
        λ id. test_static c on_left (column_at cv id) static_value
  column_static_loop c on_left cv static_value none (some existence) =
      set_aligned (create existence.num_bits) (ids existence) 0 (length cv)
        λ id pos. test_static c on_left (column_at cv pos) static_value
  column_static_loop c on_left cv static_value none none =
      set_each (create (length cv)) (range (length cv) 0)
        λ pos. test_static c on_left (column_at cv pos) static_value

  result_length : ColumnVector V → Option TupleIdSequence → ℕ
  result_length cv none = length cv
  result_length cv (some existence) = existence.num_bits

  -- `compareColumnVectorAndStaticValueHelper<column_vector_on_left>`
  pub compare_column_vector_and_static_value :
      Comparator V
      → Bool
      → ColumnVector V
      → TypedValue V
      → Option TupleIdSequence
      → Option TupleIdSequence
      → TupleIdSequence
  unfolding column_static_loop result_length
  compare_column_vector_and_static_value c on_left cv static_value filter existence =
      if side_nullable c (not on_left) && is_null static_value
      then create (result_length cv existence)
      else column_static_loop c on_left cv static_value filter existence

  -- The ids that a loop over the accessor takes: the filter's, or the accessor's own.
  abbrev pub visited : ValueAccessor V → Option TupleIdSequence → List ℕ
  visited a none = positions a
  visited a (some filter) = ids filter

  pub compare_single_value_accessor :
      Comparator V → ValueAccessor V → ℕ → ℕ → Option TupleIdSequence → TupleIdSequence
  unfolding set_each test_pair
  compare_single_value_accessor c a left_id right_id filter =
      set_each (create (end_position a)) (visited a filter) λ id.
        test_pair c true (typed_value_at_absolute_position a left_id id)
          (typed_value_at_absolute_position a right_id id)

  -- `compareValueAccessorAndStaticValueHelper<value_accessor_on_left>`
  pub compare_value_accessor_and_static_value :
      Comparator V
      → Bool
      → ValueAccessor V
      → ℕ
      → TypedValue V
      → Option TupleIdSequence
      → TupleIdSequence
  unfolding set_each test_static
  compare_value_accessor_and_static_value c on_left a attr static_value filter =
      if side_nullable c (not on_left) && is_null static_value
      then create (end_position a)
      else set_each (create (end_position a)) (visited a filter)
          λ id. test_static c on_left (typed_value_at_absolute_position a attr id) static_value

  -- `compareColumnVectorAndValueAccessorHelper<column_vector_on_left>`
  pub compare_column_vector_and_value_accessor :
      Comparator V
      → Bool
      → ColumnVector V
      → ValueAccessor V
      → ℕ
      → Option TupleIdSequence
      → Option TupleIdSequence
      → TupleIdSequence
  unfolding set_each set_aligned set_counted test_pair
  compare_column_vector_and_value_accessor c on_left cv a attr (some filter) (some existence) =
      set_aligned (create existence.num_bits) (ids existence) 0 (length cv) λ id pos.
        get filter id
        && test_pair c on_left (column_at cv pos) (typed_value_at_absolute_position a attr id)
  compare_column_vector_and_value_accessor c on_left cv a attr (some filter) none =
      set_each (create (length cv)) (ids filter)
        λ id. test_pair c on_left (column_at cv id) (typed_value_at_absolute_position a attr id)
  compare_column_vector_and_value_accessor c on_left cv a attr none (some existence) =
      set_aligned (create existence.num_bits) (ids existence) 0 (length cv) λ id pos.
        test_pair c on_left (column_at cv pos) (typed_value_at_absolute_position a attr id)
  compare_column_vector_and_value_accessor c on_left cv a attr none none =
      set_counted (create (length cv)) (positions a) 0 λ id pos.
        test_pair c on_left (column_at cv pos) (typed_value_at_absolute_position a attr id)
