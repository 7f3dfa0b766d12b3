-- ===== src/Expressions/Scalar.antt =====
-- Scalars: expressions/scalar/ScalarAttribute.cpp and ScalarLiteral.cpp. Any other scalar
-- (`ScalarUnaryExpression`, `ScalarBinaryExpression`, `ScalarCaseExpression`) stands here by the
-- function from a tuple to a value that it computes, with no static value.
use quickstep_streaming.Prelude.{ℕ, List, map, Option, none, some, replicate}
use quickstep_streaming.Types.Values.{TypedValue, Tuple}
use quickstep_streaming.Types.Accessor.{
  ValueAccessor, num_tuples, positions, tuple_at, typed_value_at_absolute_position,
}

pub data Scalar (V : Type 0) : Type 0 where
  attribute : ℕ → Scalar V
  literal_value : TypedValue V → Scalar V
  expression : (Tuple V → TypedValue V) → Scalar V

module _ {V : Type 0} where
  -- `getStaticValue`, none where `hasStaticValue` is false
  abbrev pub static_value : Scalar V → Option (TypedValue V)
  static_value (literal_value v) = some v
  static_value _ = none

  -- `getAttributeIdForValueAccessor`, none for -1
  abbrev pub attribute_id_for_value_accessor : Scalar V → Option ℕ
  attribute_id_for_value_accessor (attribute attr) = some attr
  attribute_id_for_value_accessor _ = none

  unfoldable pub value_for_single_tuple : Scalar V → ValueAccessor V → ℕ → TypedValue V
  value_for_single_tuple (attribute attr) a tid = typed_value_at_absolute_position a attr tid
  value_for_single_tuple (literal_value v) a tid = v
  value_for_single_tuple (expression f) a tid = f (tuple_at a tid)

  unfoldable pub all_values : Scalar V → ValueAccessor V → List (TypedValue V)
  all_values (attribute attr) a =
      map (λ tid. typed_value_at_absolute_position a attr tid) (positions a)
  all_values (literal_value v) a = replicate (num_tuples a) v
  all_values (expression f) a = map (λ tid. f (tuple_at a tid)) (positions a)
