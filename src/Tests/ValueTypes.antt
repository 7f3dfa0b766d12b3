-- ===== src/Tests/ValueTypes.antt =====
-- Types and coercions on small inputs.
use mathlib.Core.Option
use quickstep_streaming.Prelude.{
  ℕ, ◌≡◌, refl, true, false, some, List, [], ◌∷◌, inl, inr, take, arith,
}
use quickstep_streaming.Types.ValueType.{
  ValueType, k_int, k_long, k_float, k_double, k_char, k_var_char, instance_of, string_instance,
  get_type_with_length, get_nullable_version,
}
use quickstep_streaming.Types.ValueType.Coercible.{
  is_safely_coercible_from, get_unifying_type, get_most_specific_type, or_double,
  numeric_type_unifier,
}
use quickstep_streaming.Types.ValueType.Proto.{get_proto, reconstruct_from_proto, proto_is_valid}
use quickstep_streaming.Types.ValueType.Keys.{IsInstance}
use quickstep_streaming.Types.ValueType.Coercion.{safely_coercible_trans}
use quickstep_streaming.Types.ValueType.Unifying.{Unifies, get_unifying_type-Unifies}
use quickstep_streaming.Types.ValueType.Numeric.{
  numeric_type_unifier-get_unifying_type, numeric_only,
}
use quickstep_streaming.Types.ValueType.Messages.{reconstruct_from_proto-get_proto}
use quickstep_streaming.Types.StringCoercion.{
  has_zero, strnlen, is_plausible_char, is_plausible_var_char, char_coerce_data,
  var_char_coerce_data,
}
use quickstep_streaming.Types.StringCoercion.Text.{text}
use quickstep_streaming.Types.StringCoercion.Coerced.{
  char_coerce_data-text, var_char_coerce_data-text, Cut, var_char_coerce_data-oversized,
}

int-IsInstance : IsInstance (instance_of k_int false)
int-IsInstance = record { fits = ground arith; null_is_nullable = λ e. absurd (ground arith) }

long-IsInstance : IsInstance (instance_of k_long false)
long-IsInstance = record { fits = ground arith; null_is_nullable = λ e. absurd (ground arith) }

float-IsInstance : IsInstance (instance_of k_float true)
float-IsInstance = record { fits = ground arith; null_is_nullable = λ e. absurd (ground arith) }

double-IsInstance : IsInstance (instance_of k_double true)
double-IsInstance = record { fits = ground arith; null_is_nullable = λ e. absurd (ground arith) }

safely_coercible_trans_example :
    is_safely_coercible_from (instance_of k_double true) (instance_of k_int false) ≡ true
unfolding is_safely_coercible_from
safely_coercible_trans_example =
    safely_coercible_trans (instance_of k_double true) (instance_of k_long false)
      (instance_of k_int false) double-IsInstance long-IsInstance int-IsInstance refl refl

-- A `LONG` and a nullable `FLOAT` meet in the nullable `DOUBLE`.
get_unifying_type-Unifies_example :
    Unifies (instance_of k_long false) (instance_of k_float true) (some (instance_of k_double true))
unfolding get_unifying_type get_nullable_version get_most_specific_type or_double
    is_safely_coercible_from
get_unifying_type-Unifies_example =
    get_unifying_type-Unifies (instance_of k_long false) (instance_of k_float true) long-IsInstance
      float-IsInstance

numeric_type_unifier-get_unifying_type_example :
    Option.map (λ k. instance_of k false) (numeric_type_unifier k_float k_long)
    ≡ numeric_only k_float k_long
numeric_type_unifier-get_unifying_type_example =
    numeric_type_unifier-get_unifying_type k_float k_long

float_and_long : numeric_type_unifier k_float k_long ≡ some k_double
unfolding numeric_type_unifier
float_and_long = refl

abbrev var_char_20 : ValueType
var_char_20 = string_instance k_var_char 20 true

reconstruct_from_proto-get_proto_example :
    (reconstruct_from_proto (get_proto var_char_20) ≡ var_char_20)
    × (proto_is_valid (get_proto var_char_20) ≡ true)
unfolding get_type_with_length
reconstruct_from_proto-get_proto_example =
    reconstruct_from_proto-get_proto var_char_20 (inr (k_var_char, 20, true, refl))

-- The text `abc` in a `CHAR(6)`.
abbrev char_6 : ValueType
char_6 = string_instance k_char 6 false

abbrev abc : List ℕ
abc = 97 ∷ 98 ∷ 99 ∷ 0 ∷ 0 ∷ 0 ∷ []

abc_cut : char_coerce_data 2 char_6 abc ≡ 97 ∷ 98 ∷ []
unfolding char_coerce_data has_zero
abc_cut = refl

char_coerce_data-text_example :
    (text (char_coerce_data 2 char_6 abc) ≡ take 2 (text abc))
    × (is_plausible_char 2 (char_coerce_data 2 char_6 abc) ≡ true)
unfolding is_plausible_char
char_coerce_data-text_example = char_coerce_data-text 2 char_6 abc (inl (refl, refl))

abc_cut_var_char : var_char_coerce_data 2 char_6 abc ≡ 97 ∷ 98 ∷ 0 ∷ []
unfolding var_char_coerce_data strnlen
abc_cut_var_char = refl

var_char_coerce_data-text_example :
    (text (var_char_coerce_data 2 char_6 abc) ≡ take 2 (text abc))
    × Cut 2 abc (var_char_coerce_data 2 char_6 abc)
unfolding is_plausible_char
var_char_coerce_data-text_example = var_char_coerce_data-text 2 char_6 abc (inl (refl, refl))

var_char_coerce_data-oversized_example :
    is_plausible_var_char 4 (var_char_coerce_data 4 char_6 abc) ≡ false
unfolding strnlen
var_char_coerce_data-oversized_example =
    var_char_coerce_data-oversized 4 char_6 abc refl (ground arith) (ground arith)
