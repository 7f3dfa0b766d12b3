-- ===== src/StreamingOperators/Select.antt =====
-- `StreamingSelectOperator` of streaming_operators/StreamingSelectOperator.cpp, on the specifications
-- of query_specs/SelectSpec.hpp. StreamingSelectWindowOperator.cpp has the same `next` and `close`.
pub mod Kept
pub mod Columns
pub mod Outputs
pub mod Protocol
use quickstep_streaming.Prelude.{
  ℕ, zero, suc, ◌+◌, ◌%◌, List, [], ◌∷◌, map, Bool, true, false, Option, none, some, ltb,
  if◌then◌else◌, length, get_or,
}
use quickstep_streaming.Common.TupleIdSequence.{
  TupleIdSequence, size_t_mod, to_tuple_id, before_begin,
}
use quickstep_streaming.Types.Values.{TypedValue, null, Tuple}
use quickstep_streaming.Types.Accessor.{
  ValueAccessor, tuple_vector, positions, typed_value_at_absolute_position,
  create_shared_tuple_id_sequence_adapter,
}
use quickstep_streaming.Expressions.Scalar.{Scalar, all_values}
use quickstep_streaming.Expressions.Predicate.{Predicate, get_all_matches}

pub record SelectSpec (V : Type 0) : Type 0 where
  pub predicates : List (Predicate V)
  pub select_expressions : List (Scalar V)
  pub select_attributes : List ℕ
  pub simple_projection : Bool

-- A specification with its `QuerySpecType`.
pub data QuerySpec (V : Type 0) : Type 0 where
  select_spec : SelectSpec V → QuerySpec V
  select_window_spec : QuerySpec V

-- `select_spec_` of the operator, none for the null pointer.
abbrev pub State : Type 0 → Type 0
State V = Option (SelectSpec V)

module _ {V : Type 0} where
  -- The two constructors of `SelectSpec`.
  abbrev pub select_of_expressions : List (Predicate V) → List (Scalar V) → SelectSpec V
  select_of_expressions predicates select_expressions = record {
    predicates = predicates;
    select_expressions = select_expressions;
    select_attributes = [];
    simple_projection = false;
  }

  abbrev pub select_of_attributes : List (Predicate V) → List ℕ → SelectSpec V
  select_of_attributes predicates select_attributes = record {
    predicates = predicates;
    select_expressions = [];
    select_attributes = select_attributes;
    simple_projection = true;
  }

  -- The new state, and the value returned.
  unfoldable pub open_operator : State V → QuerySpec V → State V × Bool
  open_operator (some spec) plan_specs = (some spec, false)
  open_operator none select_window_spec = (none, false)
  open_operator none (select_spec spec) = (some spec, true)

  unfoldable pub close : State V → State V × Bool
  close none = (none, false)
  close (some spec) = (none, true)

  -- The loop over the predicates; `filter_result` is none while it is the null pointer.
  unfoldable pub filter_input :
      List (Predicate V) → ValueAccessor V → Option TupleIdSequence → Option TupleIdSequence
  filter_input [] input filter_result = filter_result
  filter_input (p ∷ ps) input filter_result =
      filter_input ps input (some (get_all_matches p input filter_result none))

  unfoldable pub selected_accessor : ValueAccessor V → Option TupleIdSequence → ValueAccessor V
  selected_accessor input none = input
  selected_accessor input (some filter_result) =
      create_shared_tuple_id_sequence_adapter input filter_result

  unfoldable pub project_attributes : List ℕ → ValueAccessor V → List (Tuple V)
  project_attributes attributes accessor =
      map (λ tid. map (λ attr. typed_value_at_absolute_position accessor attr tid) attributes)
        (positions accessor)

  -- `column_length_` of a `ColumnVectorsValueAccessor` with these columns: the last one's.
  unfoldable pub column_length : List (List (TypedValue V)) → ℕ
  column_length [] = 0
  column_length (c ∷ []) = length c
  column_length (c ∷ c' ∷ cs) = column_length (c' ∷ cs)

-- `while (arguments_accessor.next())` over the positions, with fuel.
unfoldable pub column_positions : ℕ → ℕ → ℕ → List ℕ
column_positions zero len position = []
column_positions (suc fuel) len position =
    let position' = (position + 1) % size_t_mod in
    let rest = column_positions fuel len position' in
    if ltb position' len then position' ∷ rest else []

module _ {V : Type 0} where
  -- `getTuple` at each position of the iteration, which it takes as a `tuple_id`.
  unfoldable pub column_tuples : List (List (TypedValue V)) → List (Tuple V)
  column_tuples columns =
      map (λ tid. map (λ c. get_or c (to_tuple_id tid) null) columns)
        (column_positions (suc (column_length columns)) (column_length columns) before_begin)

  unfoldable pub select_tuples : SelectSpec V → ValueAccessor V → List (Tuple V)
  select_tuples spec accessor =
      if spec.simple_projection
      then project_attributes spec.select_attributes accessor
      else column_tuples (map (λ e. all_values e accessor) spec.select_expressions)

  unfoldable pub process_input : SelectSpec V → List (Tuple V) → List (Tuple V)
  process_input spec input = select_tuples spec (
      selected_accessor (tuple_vector input)
        (filter_input spec.predicates (tuple_vector input) none))

  -- The outputs, none where the code would follow a null `select_spec_`.
  unfoldable pub next : State V → List (List (Tuple V)) → Option (List (List (Tuple V)))
  next st [] = some []
  next none (input ∷ inputs) = none
  next (some spec) (input ∷ inputs) = some (map (process_input spec) (input ∷ inputs))
