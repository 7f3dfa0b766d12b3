-- ===== src/Types/ValueType/Coercible.antt =====
-- Coercibility of types, the methods of their classes, with `GetMostSpecificType` and
-- `GetUnifyingType` of types/TypeFactory.cpp and types/NumericTypeUnifier.hpp.
use quickstep_streaming.Prelude.{
  ℕ, ◌+◌, ◌-◌, ◌%◌, Bool, true, false, ◌&&◌, ◌||◌, not, Option, none, some, leb, if◌then◌else◌,
}
use quickstep_streaming.Common.TupleIdSequence.{size_t_mod}
use quickstep_streaming.Types.ValueType.{
  TypeId, k_int, k_long, k_float, k_double, k_char, k_var_char, k_date, k_datetime,
  k_datetime_interval, k_year_month_interval, k_null_type, same_id, is_numeric, is_ascii_string,
  super_type_id, maximum_byte_length, ValueType, instance_of, get_nullable_version,
}

-- The macro, before the rest of a method.
abbrev pub null_coercibility_check : ValueType → ValueType → Bool → Bool
null_coercibility_check t original rest =
    if original.nullable && not t.nullable
    then false
    else if same_id original.type_id k_null_type
    then true
    else rest

abbrev pub char_is_safely_coercible_from : ℕ → TypeId → ℕ → Bool
char_is_safely_coercible_from length k_char m = leb (maximum_byte_length k_char m) length
char_is_safely_coercible_from length k_var_char m =
    leb ((maximum_byte_length k_var_char m + size_t_mod - 1) % size_t_mod) length
char_is_safely_coercible_from length _ m = false

abbrev pub var_char_is_safely_coercible_from : ℕ → TypeId → ℕ → Bool
var_char_is_safely_coercible_from length k_char m = leb (maximum_byte_length k_char m) length
var_char_is_safely_coercible_from length k_var_char m =
    leb (maximum_byte_length k_var_char m) ((length + 1) % size_t_mod)
var_char_is_safely_coercible_from length _ m = false

-- The methods `isSafelyCoercibleFrom` of the classes after the check for NULL. Those of the dates and
-- intervals are the same as their `isCoercibleFrom`.
abbrev pub int_is_safely_coercible_from : TypeId → Bool
int_is_safely_coercible_from j = same_id j k_int

abbrev pub long_is_safely_coercible_from : TypeId → Bool
long_is_safely_coercible_from j = same_id j k_int || same_id j k_long

abbrev pub float_is_safely_coercible_from : TypeId → Bool
float_is_safely_coercible_from j = same_id j k_int || same_id j k_float

abbrev pub double_is_safely_coercible_from : TypeId → Bool
double_is_safely_coercible_from j =
    same_id j k_int || same_id j k_long || same_id j k_float || same_id j k_double

abbrev pub date_is_coercible_from : TypeId → Bool
date_is_coercible_from j = same_id j k_date

abbrev pub datetime_is_coercible_from : TypeId → Bool
datetime_is_coercible_from j = same_id j k_datetime

abbrev pub datetime_interval_is_coercible_from : TypeId → Bool
datetime_interval_is_coercible_from j = same_id j k_datetime_interval

abbrev pub year_month_interval_is_coercible_from : TypeId → Bool
year_month_interval_is_coercible_from j = same_id j k_year_month_interval

-- The dispatch on the class, to a type with id `i` and string length `n` from one with `j` and `m`.
abbrev pub safely_coerces : TypeId → ℕ → TypeId → ℕ → Bool
safely_coerces k_int n j m = int_is_safely_coercible_from j
safely_coerces k_long n j m = long_is_safely_coercible_from j
safely_coerces k_float n j m = float_is_safely_coercible_from j
safely_coerces k_double n j m = double_is_safely_coercible_from j
safely_coerces k_char n j m = char_is_safely_coercible_from n j m
safely_coerces k_var_char n j m = var_char_is_safely_coercible_from n j m
safely_coerces k_date n j m = date_is_coercible_from j
safely_coerces k_datetime n j m = datetime_is_coercible_from j
safely_coerces k_datetime_interval n j m = datetime_interval_is_coercible_from j
safely_coerces k_year_month_interval n j m = year_month_interval_is_coercible_from j
safely_coerces k_null_type n j m = false

-- `NullType` has no check; the other classes start with it.
unfoldable pub is_safely_coercible_from : ValueType → ValueType → Bool
is_safely_coercible_from t original =
    if same_id t.type_id k_null_type
    then same_id original.type_id k_null_type
    else null_coercibility_check t original
        (safely_coerces t.type_id t.string_length original.type_id original.string_length)

-- `isCoercibleFrom` of the numeric types and of the strings after the check for NULL.
abbrev pub numeric_is_coercible_from : TypeId → Bool
numeric_is_coercible_from j = is_numeric (super_type_id j)

abbrev pub ascii_string_is_coercible_from : TypeId → Bool
ascii_string_is_coercible_from j = is_ascii_string (super_type_id j) || same_id j k_null_type

abbrev pub coerces : TypeId → TypeId → Bool
coerces k_date j = date_is_coercible_from j
coerces k_datetime j = datetime_is_coercible_from j
coerces k_datetime_interval j = datetime_interval_is_coercible_from j
coerces k_year_month_interval j = year_month_interval_is_coercible_from j
coerces k_null_type j = false
coerces k_char j = ascii_string_is_coercible_from j
coerces k_var_char j = ascii_string_is_coercible_from j
coerces _ j = numeric_is_coercible_from j

unfoldable pub is_coercible_from : ValueType → ValueType → Bool
is_coercible_from t original =
    if same_id t.type_id k_null_type
    then same_id original.type_id k_null_type
    else null_coercibility_check t original (coerces t.type_id original.type_id)

unfoldable pub get_most_specific_type : ValueType → ValueType → Option ValueType
unfolding is_safely_coercible_from
get_most_specific_type first second =
    if is_safely_coercible_from first second
    then some first
    else if is_safely_coercible_from second first
    then some second
    else none

abbrev pub are_long_and_float : TypeId → TypeId → Bool
are_long_and_float i j =
    (same_id i k_long && same_id j k_float) || (same_id i k_float && same_id j k_long)

-- What `GetUnifyingType` does when no type of the two is the more specific one.
unfoldable pub or_double : Option ValueType → TypeId → TypeId → Bool → Option ValueType
or_double (some t) first second nullable = some t
or_double none first second nullable =
    if are_long_and_float first second then some (instance_of k_double nullable) else none

unfoldable pub get_unifying_type : ValueType → ValueType → Option ValueType
unfolding get_most_specific_type get_nullable_version or_double
get_unifying_type first second =
    if first.nullable || second.nullable
    then or_double
        (get_most_specific_type (get_nullable_version first) (get_nullable_version second))
        first.type_id second.type_id true
    else or_double (get_most_specific_type first second) first.type_id second.type_id false

-- The specializations of `NumericTypeUnifier`.
unfoldable pub numeric_type_unifier : TypeId → TypeId → Option TypeId
numeric_type_unifier k_int k_int = some k_int
numeric_type_unifier k_int k_long = some k_long
numeric_type_unifier k_int k_float = some k_float
numeric_type_unifier k_int k_double = some k_double
numeric_type_unifier k_long k_int = some k_long
numeric_type_unifier k_long k_long = some k_long
numeric_type_unifier k_long k_float = some k_double
numeric_type_unifier k_long k_double = some k_double
numeric_type_unifier k_float k_int = some k_float
numeric_type_unifier k_float k_long = some k_double
numeric_type_unifier k_float k_float = some k_float
numeric_type_unifier k_float k_double = some k_double
numeric_type_unifier k_double k_int = some k_double
numeric_type_unifier k_double k_long = some k_double
numeric_type_unifier k_double k_float = some k_double
numeric_type_unifier k_double k_double = some k_double
numeric_type_unifier _ _ = none
