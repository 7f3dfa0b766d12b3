-- ===== src/Expressions/WindowAggregation.antt =====
-- AVG over a sliding window: expressions/window_aggregation/WindowAggregationHandle.cpp and
-- WindowAggregationHandleAvg.cpp. An access outside the deque `window_` is none here; the loops have
-- fuel.
pub mod Emission
pub mod Aggregate
use quickstep_streaming.Prelude.{
  ℕ, zero, suc, ◌+◌, ◌-◌, ◌%◌, List, [], ◌∷◌, ◌++◌, Bool, true, false, not, ◌&&◌, Option, none,
  some, ltb, leb, ◌==◌, if◌then◌else◌, length, get_elem?, get_or, map,
}
use quickstep_streaming.Common.TupleIdSequence.{size_t_mod, to_tuple_id, before_begin}
use quickstep_streaming.Types.Values.{TypedValue, null, is_null, Tuple, get_attribute_value}
use quickstep_streaming.Types.Accessor.{tuple_vector, tuple_at, positions}
use quickstep_streaming.Expressions.Scalar.{Scalar, attribute_id_for_value_accessor, all_values}

-- The operators that the constructors take from the factories. `literal_int` is `getLiteral<int>` as
-- it is converted to `size_t`, `divide` the division by a count as a double.
pub record Operators (V : Type 0) : Type 0 where
  pub range_add : TypedValue V → TypedValue V → TypedValue V
  pub range_subtract : TypedValue V → TypedValue V → TypedValue V
  pub range_compare : TypedValue V → TypedValue V → Bool
  pub coerce_value : TypedValue V → TypedValue V
  pub literal_int : TypedValue V → ℕ
  pub fast_add : TypedValue V → TypedValue V → TypedValue V
  pub fast_subtract : TypedValue V → TypedValue V → TypedValue V
  pub divide : TypedValue V → ℕ → TypedValue V

-- The members that the constructor fixes.
pub record Handle (V : Type 0) : Type 0 where
  pub operators : Operators V
  pub argument : Scalar V
  pub streaming_attribute_id : ℕ
  pub emit_duration : TypedValue V
  pub is_row : Bool
  pub value_preceding : TypedValue V
  pub value_following : TypedValue V

-- The members that the methods change.
pub record State (V : Type 0) : Type 0 where
  pub window : List (Tuple V)
  pub current_tuple_index : ℕ
  pub current_value : TypedValue V
  pub sum : TypedValue V
  pub count : ℕ

module _ {V : Type 0} (h : Handle V) where
  -- The test of ROWS mode.
  unfoldable pub in_rows : State V → ℕ → Bool
  in_rows st i =
      let ops = h.operators in
      let low =
        (st.current_tuple_index + (size_t_mod - ops.literal_int h.value_preceding)) % size_t_mod in
      let high = (st.current_tuple_index + ops.literal_int h.value_following) % size_t_mod in
      if not (is_null h.value_preceding) && ltb i low
      then false
      else if ltb high i
      then false
      else true

  -- The test of RANGE mode, of the value `test` against `current`.
  unfoldable pub in_range : TypedValue V → TypedValue V → Bool
  in_range current test =
      let ops = h.operators in
      if is_null test
      then false
      else if is_null current
      then false
      else if not (is_null h.value_preceding)
          && not (ops.range_compare (ops.range_subtract current h.value_preceding) test)
      then false
      else if not (ops.range_compare test (ops.range_add current h.value_following))
      then false
      else true

  abbrev pub streaming_value : Tuple V → TypedValue V
  streaming_value t = get_attribute_value t h.streaming_attribute_id

  -- The value that the window is around.
  unfoldable pub current : State V → Option (TypedValue V)
  current st =
      if is_null st.current_value
      then elim (get_elem? st.window st.current_tuple_index) [
        | none ↦ none
        | some t ↦ some (streaming_value t)
      ]
      else some st.current_value

  unfoldable pub in_window : State V → ℕ → Option Bool
  in_window st i =
      if i == st.current_tuple_index
      then some true
      else if h.is_row
      then some (in_rows st i)
      else elim (current st) [
        | none ↦ none
        | some value ↦ elim (get_elem? st.window i) [
          | none ↦ none
          | some t ↦ some (in_range value (h.operators.coerce_value (streaming_value t)))
        ]
      ]

  unfoldable pub move_forward : State V → State V
  move_forward st =
      if is_null h.emit_duration
      then record {
        window = st.window;
        current_tuple_index = (st.current_tuple_index + 1) % size_t_mod;
        current_value = st.current_value;
        sum = st.sum;
        count = st.count;
      }
      else record {
        window = st.window;
        current_tuple_index = st.current_tuple_index;
        current_value = h.operators.range_add st.current_value h.emit_duration;
        sum = st.sum;
        count = st.count;
      }

  unfoldable pub average : State V → TypedValue V
  average st = if st.count == 0 then null else h.operators.divide st.sum st.count

  unfoldable pub get_output : State V → Option (List (TypedValue V))
  get_output st =
      if is_null h.emit_duration
      then elim (get_elem? st.window st.current_tuple_index) [
        | none ↦ none
        | some t ↦ some (t ++ average st ∷ [])
      ]
      else some (st.current_value ∷ average st ∷ [])

  -- `sum_` and `count_` with one more argument, and with one taken off.
  unfoldable pub add_argument : ℕ → Tuple V → State V → State V
  add_argument argument_id t st =
      let value = get_attribute_value t argument_id in
      if not (is_null value)
      then record {
        window = st.window;
        current_tuple_index = st.current_tuple_index;
        current_value = st.current_value;
        sum = h.operators.fast_add st.sum value;
        count = (st.count + 1) % size_t_mod;
      }
      else st

  unfoldable pub pop_front : ℕ → Tuple V → List (Tuple V) → State V → State V
  pop_front argument_id front others st =
      let value = get_attribute_value front argument_id in
      record {
        window = others;
        current_tuple_index = st.current_tuple_index;
        current_value = st.current_value;
        sum = if not (is_null value) then h.operators.fast_subtract st.sum value else st.sum;
        count =
            if not (is_null value) then (st.count + (size_t_mod - 1)) % size_t_mod else st.count;
      }

  -- `while (!inWindow(0))`
  unfoldable pub drop_front : ℕ → ℕ → State V → Option (State V)
  drop_front argument_id zero st = none
  drop_front argument_id (suc fuel) st = elim (in_window st 0) [
    | none ↦ none
    | some true ↦ some st
    | some false ↦ elim st.window [
      | [] ↦ none
      | t ∷ ts ↦ drop_front argument_id fuel (pop_front argument_id t ts st)
    ]
  ]

  -- `while (!inWindow(window_.size() - 1))`
  unfoldable pub emit_outputs : ℕ → ℕ → State V → Option (List (List (TypedValue V)) × State V)
  emit_outputs argument_id zero st = none
  emit_outputs argument_id (suc fuel) st = elim (in_window st (length st.window - 1)) [
    | none ↦ none
    | some true ↦ some ([], st)
    | some false ↦ elim (get_output st) [
      | none ↦ none
      | some output ↦ elim (drop_front argument_id fuel (move_forward st)) [
        | none ↦ none
        | some st' ↦ elim (emit_outputs argument_id fuel st') [
          | none ↦ none
          | some r ↦ some (output ∷ r.0, r.1)
        ]
      ]
    ]
  ]

  abbrev pub append_row : Tuple V → State V → State V
  append_row row st = record {
    window = st.window ++ row ∷ [];
    current_tuple_index = st.current_tuple_index;
    current_value = st.current_value;
    sum = st.sum;
    count = st.count;
  }

  -- What is done with one tuple of the input.
  unfoldable pub process_row :
      ℕ → ℕ → Tuple V → State V → Option (List (List (TypedValue V)) × State V)
  process_row argument_id fuel row st = elim (emit_outputs argument_id fuel (append_row row st)) [
    | none ↦ none
    | some r ↦ elim (get_elem? r.1.window (length r.1.window - 1)) [
      | none ↦ none
      | some back ↦ some (r.0, add_argument argument_id back r.1)
    ]
  ]

  unfoldable pub process_rows :
      ℕ → ℕ → List (Tuple V) → State V → Option (List (List (TypedValue V)) × State V)
  process_rows argument_id fuel [] st = some ([], st)
  process_rows argument_id fuel (row ∷ rows) st = elim (process_row argument_id fuel row st) [
    | none ↦ none
    | some r ↦ elim (process_rows argument_id fuel rows r.1) [
      | none ↦ none
      | some r' ↦ some (r.0 ++ r'.0, r'.1)
    ]
  ]

  -- `getTuple` at each position of the input, with the argument's value at the end.
  unfoldable pub with_arguments : List (Tuple V) → List (TypedValue V) → List (Tuple V)
  with_arguments input values =
      map (λ tid. tuple_at (tuple_vector input) tid ++ get_or values (to_tuple_id tid) null ∷ [])
        (positions (tuple_vector input))

  -- `getTuple` at each position of the input.
  unfoldable pub read_tuples : List (Tuple V) → List (Tuple V)
  read_tuples input = map (tuple_at (tuple_vector input)) (positions (tuple_vector input))

  -- `calculate`. For an argument that is not an attribute, `input->getTuple()` is called on the
  -- position that `beginIteration` leaves.
  unfoldable pub calculate :
      ℕ → List (Tuple V) → State V → Option (List (List (TypedValue V)) × State V)
  calculate fuel input st = elim (attribute_id_for_value_accessor h.argument) [
    | some argument_id ↦ process_rows argument_id fuel (read_tuples input) st
    | none ↦ elim (get_elem? input before_begin) [
      | none ↦ none
      | some t ↦
          process_rows (length t) fuel
            (with_arguments input (all_values h.argument (tuple_vector input))) st
    ]
  ]
