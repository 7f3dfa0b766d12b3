-- ===== src/Expressions/Comparison.antt =====
-- `ComparisonPredicate` of expressions/predicate/ComparisonPredicate.cpp, as the default build makes
-- it: with QUICKSTEP_ENABLE_VECTOR_PREDICATE_SHORT_CIRCUIT and
-- QUICKSTEP_ENABLE_VECTOR_COPY_ELISION_SELECTION; and `GenerateSequenceForStaticResult` of
-- Predicate.cpp.
pub mod Matches
use quickstep_streaming.Prelude.{ℕ, List, Bool, true, false, Option, none, some, if◌then◌else◌}
use quickstep_streaming.Common.TupleIdSequence.{TupleIdSequence, create, assign_from, set_range}
use quickstep_streaming.Types.Values.{TypedValue}
use quickstep_streaming.Types.Accessor.{
  ValueAccessor, end_position, create_shared_tuple_id_sequence_adapter,
}
use quickstep_streaming.Types.Comparator.{
  Comparator, compare_typed_values, compare_column_vectors, compare_column_vector_and_static_value,
  compare_single_value_accessor, compare_value_accessor_and_static_value,
  compare_column_vector_and_value_accessor,
}
use quickstep_streaming.Expressions.Scalar.{
  Scalar, static_value, attribute_id_for_value_accessor, value_for_single_tuple, all_values,
}

module _ {V : Type 0} where
  pub generate_sequence_for_static_result :
      ValueAccessor V → Option TupleIdSequence → Option TupleIdSequence → Bool → TupleIdSequence
  generate_sequence_for_static_result a filter existence_map false = create (end_position a)
  generate_sequence_for_static_result a (some filter) existence_map true =
      assign_from (create (end_position a)) filter
  generate_sequence_for_static_result a none (some existence_map) true =
      assign_from (create (end_position a)) existence_map
  generate_sequence_for_static_result a none none true =
      set_range (create (end_position a)) 0 (create (end_position a)).num_bits true

-- `fast_comparator_` is `comparator`, and null once the result is static.
pub record Comparison (V : Type 0) : Type 0 where
  pub left_operand : Scalar V
  pub right_operand : Scalar V
  pub comparator : Comparator V
  pub static_result : Option Bool

module _ {V : Type 0} where
  -- The static result that `initHelper` works out, when both operands are static.
  unfoldable pub init_static_result : Comparator V → Scalar V → Scalar V → Option Bool
  init_static_result c left right = elim (static_value left) [
    | none ↦ none
    | some l ↦ elim (static_value right) [
      | none ↦ none
      | some r ↦ some (compare_typed_values c l r)
    ]
  ]

  -- The constructor, with `initHelper`. `can_compare` is `canCompareTypes` of the operands' types;
  -- `none` stands for the exception `OperationInapplicableToType`.
  pub make_comparison : Bool → Comparator V → Scalar V → Scalar V → Option (Comparison V)
  unfolding init_static_result
  make_comparison can_compare c left right =
      if can_compare
      then some (record {
        left_operand = left;
        right_operand = right;
        comparator = c;
        static_result = init_static_result c left right;
      })
      else none

  unfoldable pub single_tuple_by :
      Option Bool → Comparator V → Scalar V → Scalar V → ValueAccessor V → ℕ → Bool
  single_tuple_by (some b) c left right a tid = b
  single_tuple_by none c left right a tid =
      compare_typed_values c (value_for_single_tuple left a tid)
        (value_for_single_tuple right a tid)

  unfoldable pub matches_for_single_tuple : Comparison V → ValueAccessor V → ℕ → Bool
  unfolding single_tuple_by
  matches_for_single_tuple p a tid =
      single_tuple_by p.static_result p.comparator p.left_operand p.right_operand a tid

  -- One operand is static; `on_left` says that the other one is the left one.
  compare_with_static :
      Comparator V
      → Bool
      → Scalar V
      → TypedValue V
      → ValueAccessor V
      → Option TupleIdSequence
      → Option TupleIdSequence
      → TupleIdSequence
  compare_with_static c on_left operand value a filter existence_map =
      elim (attribute_id_for_value_accessor operand) [
        | some attr ↦ compare_value_accessor_and_static_value c on_left a attr value filter
        | none ↦ elim filter [
          | some f ↦
              compare_column_vector_and_static_value c on_left
                (all_values operand (create_shared_tuple_id_sequence_adapter a f)) value none
                (some f)
          | none ↦
              compare_column_vector_and_static_value c on_left (all_values operand a) value none
                existence_map
        ]
      ]

  -- One operand is an attribute; `on_left` says that the other one is the left one.
  compare_with_attribute :
      Comparator V
      → Bool
      → Scalar V
      → ℕ
      → ValueAccessor V
      → Option TupleIdSequence
      → Option TupleIdSequence
      → TupleIdSequence
  compare_with_attribute c on_left operand attr a (some f) existence_map =
      let adapter = create_shared_tuple_id_sequence_adapter a f in
      compare_column_vector_and_value_accessor c on_left (all_values operand adapter) adapter attr
        none (some f)
  compare_with_attribute c on_left operand attr a none existence_map =
      compare_column_vector_and_value_accessor c on_left (all_values operand a) a attr none
        existence_map

  compare_two_columns :
      Comparator V
      → Scalar V
      → Scalar V
      → ValueAccessor V
      → Option TupleIdSequence
      → Option TupleIdSequence
      → TupleIdSequence
  compare_two_columns c left right a (some f) existence_map =
      let adapter = create_shared_tuple_id_sequence_adapter a f in
      compare_column_vectors c (all_values left adapter) (all_values right adapter) none (some f)
  compare_two_columns c left right a none existence_map =
      compare_column_vectors c (all_values left a) (all_values right a) none existence_map

  -- Neither operand is static.
  compare_dynamic :
      Comparator V
      → Scalar V
      → Scalar V
      → ValueAccessor V
      → Option TupleIdSequence
      → Option TupleIdSequence
      → TupleIdSequence
  unfolding compare_with_attribute compare_two_columns
  compare_dynamic c left right a filter existence_map =
      elim (attribute_id_for_value_accessor left) [
        | some l ↦ elim (attribute_id_for_value_accessor right) [
          | some r ↦ compare_single_value_accessor c a l r filter
          | none ↦ compare_with_attribute c false right l a filter existence_map
        ]
        | none ↦ elim (attribute_id_for_value_accessor right) [
          | some r ↦ compare_with_attribute c true left r a filter existence_map
          | none ↦ compare_two_columns c left right a filter existence_map
        ]
      ]

  all_matches_by :
      Option Bool
      → Comparator V
      → Scalar V
      → Scalar V
      → ValueAccessor V
      → Option TupleIdSequence
      → Option TupleIdSequence
      → TupleIdSequence
  unfolding generate_sequence_for_static_result compare_with_static compare_dynamic
  all_matches_by (some b) c left right a filter existence_map =
      generate_sequence_for_static_result a filter existence_map b
  all_matches_by none c left right a filter existence_map = elim (static_value left) [
    | some l ↦ compare_with_static c false right l a filter existence_map
    | none ↦ elim (static_value right) [
      | some r ↦ compare_with_static c true left r a filter existence_map
      | none ↦ compare_dynamic c left right a filter existence_map
    ]
  ]

  pub get_all_matches :
      Comparison V
      → ValueAccessor V
      → Option TupleIdSequence
      → Option TupleIdSequence
      → TupleIdSequence
  unfolding all_matches_by
  get_all_matches p a filter existence_map =
      all_matches_by p.static_result p.comparator p.left_operand p.right_operand a filter
        existence_map
