-- ===== src/Types/ValueType.antt =====
-- The types of values: types/Type.hpp, types/TypeID.hpp, the classes of types, types/TypeFactory.cpp
-- and types/NumericTypeUnifier.hpp. Each type has one instance, so a pointer to it is the record of
-- its members. `string_length` is that of the strings, and 0 for other types.
pub mod Coercible
pub mod Proto
pub mod Ids
pub mod Keys
pub mod Equality
pub mod Numeric
pub mod Messages
pub mod Coercion
pub mod Unifying
use quickstep_streaming.Prelude.{
  ℕ, ◌+◌, ◌-◌, ◌/◌, ◌%◌, Bool, true, false, ◌&&◌, ◌||◌, not, Option, none, some, leb, ◌==◌,
  if◌then◌else◌,
}
use quickstep_streaming.Common.TupleIdSequence.{size_t_mod}

pub data TypeId : Type 0 where
  k_int k_long k_float k_double k_char k_var_char k_date k_datetime k_datetime_interval : TypeId
  k_year_month_interval k_null_type : TypeId

-- The numbers of the enumerators.
abbrev pub enumerator : TypeId → ℕ
enumerator k_int = 0
enumerator k_long = 1
enumerator k_float = 2
enumerator k_double = 3
enumerator k_char = 4
enumerator k_var_char = 5
enumerator k_date = 6
enumerator k_datetime = 7
enumerator k_datetime_interval = 8
enumerator k_year_month_interval = 9
enumerator k_null_type = 10

abbrev pub same_id : TypeId → TypeId → Bool
same_id i j = enumerator i == enumerator j

pub data SuperTypeId : Type 0 where
  k_numeric k_ascii_string k_other : SuperTypeId

pub record ValueType : Type 0 where
  pub type_id : TypeId
  pub string_length : ℕ
  pub nullable : Bool

abbrev pub super_type_id : TypeId → SuperTypeId
super_type_id k_int = k_numeric
super_type_id k_long = k_numeric
super_type_id k_float = k_numeric
super_type_id k_double = k_numeric
super_type_id k_char = k_ascii_string
super_type_id k_var_char = k_ascii_string
super_type_id _ = k_other

abbrev pub is_numeric : SuperTypeId → Bool
is_numeric k_numeric = true
is_numeric _ = false

abbrev pub is_ascii_string : SuperTypeId → Bool
is_ascii_string k_ascii_string = true
is_ascii_string _ = false

-- What the constructors of the classes give to that of `Type`.
abbrev pub maximum_byte_length : TypeId → ℕ → ℕ
maximum_byte_length k_int length = 4
maximum_byte_length k_long length = 8
maximum_byte_length k_float length = 4
maximum_byte_length k_double length = 8
maximum_byte_length k_char length = length
maximum_byte_length k_var_char length = (length + 1) % size_t_mod
maximum_byte_length k_date length = 8
maximum_byte_length k_datetime length = 8
maximum_byte_length k_datetime_interval length = 8
maximum_byte_length k_year_month_interval length = 8
maximum_byte_length k_null_type length = 0

abbrev pub minimum_byte_length : TypeId → ℕ → ℕ
minimum_byte_length k_var_char length = 1
minimum_byte_length id length = maximum_byte_length id length

abbrev pub var_char_average : ℕ → ℕ
var_char_average length = if leb length 160 then length / 2 + 1 else 80

-- The methods of the classes.
abbrev pub estimate_average_byte_length : TypeId → ℕ → ℕ
estimate_average_byte_length k_var_char length = var_char_average length
estimate_average_byte_length id length = maximum_byte_length id length

unfoldable pub maximum_bytes : ValueType → ℕ
maximum_bytes t = maximum_byte_length t.type_id t.string_length

unfoldable pub minimum_bytes : ValueType → ℕ
minimum_bytes t = minimum_byte_length t.type_id t.string_length

unfoldable pub average_bytes : ValueType → ℕ
average_bytes t = estimate_average_byte_length t.type_id t.string_length

unfoldable pub is_variable_length : ValueType → Bool
unfolding minimum_bytes maximum_bytes
is_variable_length t = not (minimum_bytes t == maximum_bytes t)

-- `Instance` of the class of a type that has no length.
abbrev pub instance_of : TypeId → Bool → ValueType
instance_of id nullable = record { type_id = id; string_length = 0; nullable = nullable }

abbrev pub string_instance : TypeId → ℕ → Bool → ValueType
string_instance id length nullable = record {
  type_id = id;
  string_length = length;
  nullable = nullable;
}

-- The two methods `GetType`; `none` is the fatal error.
unfoldable pub get_type : TypeId → Bool → Option ValueType
get_type k_char nullable = none
get_type k_var_char nullable = none
get_type k_null_type nullable = some (instance_of k_null_type true)
get_type id nullable = some (instance_of id nullable)

unfoldable pub get_type_with_length : TypeId → ℕ → Bool → Option ValueType
get_type_with_length k_char length nullable = some (string_instance k_char length nullable)
get_type_with_length k_var_char length nullable = some (string_instance k_var_char length nullable)
get_type_with_length _ length nullable = none

unfoldable pub get_nullable_version : ValueType → ValueType
get_nullable_version t = record t { nullable = true }

unfoldable pub equals : ValueType → ValueType → Bool
equals t other =
    same_id t.type_id other.type_id
    && (t.string_length == other.string_length)
    && (if t.nullable then other.nullable else not other.nullable)

abbrev pub type_is_subsumed_by : ValueType → ValueType → Bool
unfolding equals get_nullable_version
type_is_subsumed_by t other = equals t other || equals (get_nullable_version t) other

-- `isSubsumedBy`, which `VarCharType` overrides.
unfoldable pub is_subsumed_by : ValueType → ValueType → Bool
unfolding type_is_subsumed_by
is_subsumed_by t other =
    let longer : Bool =
      leb (maximum_byte_length k_var_char t.string_length)
        (maximum_byte_length k_var_char other.string_length) in
    if same_id t.type_id k_var_char
    then type_is_subsumed_by t other
      || (same_id other.type_id k_var_char && longer && (not t.nullable || other.nullable))
    else type_is_subsumed_by t other
