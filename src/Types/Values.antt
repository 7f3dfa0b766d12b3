-- ===== src/Types/Values.antt =====
-- Values and tuples: types/TypedValue.hpp and types/containers/Tuple.hpp. `V` is the C++ type of the
-- literals. A data pointer is modelled by the value that it points to, `nullptr` by NULL.
use quickstep_streaming.Prelude.{ℕ, List, Bool, true, false, get_or}

pub data TypedValue (V : Type 0) : Type 0 where
  null : TypedValue V
  literal : V → TypedValue V

abbrev pub is_null : {V : Type 0} → TypedValue V → Bool
is_null null = true
is_null (literal v) = false

-- `attribute_values_`
abbrev pub Tuple : Type 0 → Type 0
Tuple V = List (TypedValue V)

-- An attribute id out of range is excluded by a `DCHECK`; it reads NULL here.
abbrev pub get_attribute_value : {V : Type 0} → Tuple V → ℕ → TypedValue V
get_attribute_value t attr = get_or t attr null
