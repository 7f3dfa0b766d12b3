-- ===== src/Types/StringCoercion.antt =====
-- `coerceValue` of types/CharType.cpp and types/VarCharType.cpp, and `isPlausibleInstanceOf` of
-- types/TypedValue.cpp for strings. Data out of line is the list of its bytes, of which a copy is
-- the same list.
pub mod Text
pub mod Coerced
use quickstep_streaming.Prelude.{
  ℕ, zero, suc, ◌+◌, ◌-◌, Bool, true, false, ◌&&◌, ◌||◌, List, [], ◌∷◌, ◌++◌, ltb, leb, ◌==◌,
  if◌then◌else◌, length, take,
}
use quickstep_streaming.Types.Values.{TypedValue, null, literal}
use quickstep_streaming.Types.ValueType.{
  ValueType, TypeId, k_char, k_var_char, same_id, maximum_byte_length,
}

-- `memchr` for a 0, and `strnlen`, on all the bytes.
unfoldable pub has_zero : List ℕ → Bool
has_zero [] = false
has_zero (c ∷ bytes) = c == 0 || has_zero bytes

unfoldable pub strnlen : List ℕ → ℕ
strnlen [] = 0
strnlen (zero ∷ bytes) = 0
strnlen (suc c ∷ bytes) = suc (strnlen bytes)

-- Data of a string against the length of a type.
unfoldable pub is_plausible_char : ℕ → List ℕ → Bool
unfolding has_zero
is_plausible_char n bytes =
    if length bytes == n then true else if ltb (length bytes) n then has_zero bytes else false

unfoldable pub is_plausible_var_char : ℕ → List ℕ → Bool
is_plausible_var_char n bytes = leb (length bytes) (n + 1)

-- `coerceValue` of `CHAR(n)` on data that are there.
unfoldable pub char_coerce_data : ℕ → ValueType → List ℕ → List ℕ
unfolding has_zero
char_coerce_data n original bytes =
    let null_terminated : Bool =
      same_id original.type_id k_var_char
      || ltb (length bytes) (maximum_byte_length original.type_id original.string_length)
      || has_zero bytes in
    if leb (length bytes) n
    then (if null_terminated || (length bytes == n) then bytes else bytes ++ (0 ∷ []))
    else take n bytes

unfoldable pub char_coerce_value : ℕ → ValueType → TypedValue (List ℕ) → TypedValue (List ℕ)
unfolding char_coerce_data
char_coerce_value n original null = null
char_coerce_value n original (literal bytes) = literal (char_coerce_data n original bytes)

-- `coerceValue` of `VARCHAR(n)`.
unfoldable pub var_char_coerce_data : ℕ → ValueType → List ℕ → List ℕ
unfolding strnlen
var_char_coerce_data n original bytes =
    let original_strlen : ℕ =
      if same_id original.type_id k_var_char then length bytes - 1 else strnlen bytes in
    let copy_strlen : ℕ = if ltb original_strlen n then original_strlen else n in
    if leb original_strlen n && ltb original_strlen (length bytes)
    then bytes
    else take copy_strlen bytes ++ (0 ∷ [])

unfoldable pub var_char_coerce_value : ℕ → ValueType → TypedValue (List ℕ) → TypedValue (List ℕ)
unfolding var_char_coerce_data
var_char_coerce_value n original null = null
var_char_coerce_value n original (literal bytes) = literal (var_char_coerce_data n original bytes)
