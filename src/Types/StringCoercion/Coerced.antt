-- ===== src/Types/StringCoercion/Coerced.antt =====
-- Coercion of strings keeps as much of the text as fits.
use quickstep_streaming.Prelude.{
  ℕ, ◌+◌, ◌-◌, ◌≤◌, ◌<◌, ◌≡◌, refl, sym, ◌∙◌, true, false, ◌&&◌, ◌||◌, ◌⊎◌, inl, inr, List, [], ◌∷◌,
  ◌++◌, ltb, leb, ◌==◌, if◌then◌else◌, length, take, length-take, arith, Bool-cases,
}
use quickstep_streaming.Types.ValueType.{
  ValueType, k_char, k_var_char, same_id, maximum_byte_length,
}
use quickstep_streaming.Types.StringCoercion.{
  has_zero, strnlen, is_plausible_char, is_plausible_var_char, char_coerce_data,
  var_char_coerce_data,
}
use quickstep_streaming.Types.StringCoercion.Text.{
  text, strnlen-le, has_zero-strnlen, text-terminated, text-take, take-text,
  strnlen-take_terminated, has_zero-terminated, length-terminated,
}

-- The bytes of a string of a type: a `CHAR` is plausible, and a `VARCHAR` ends with its only 0.
abbrev pub IsStringOf : ValueType → List ℕ → Type 0
IsStringOf t bytes =
    ((t.type_id ≡ k_char) × (is_plausible_char t.string_length bytes ≡ true))
    ⊎ ((t.type_id ≡ k_var_char) × (strnlen bytes + 1 ≡ length bytes))

-- What `var_char_coerce_data` makes of bytes: it cuts them and puts a 0 behind, or it leaves them.
abbrev pub Cut : ℕ → List ℕ → List ℕ → Type 0
Cut n bytes r =
    ((strnlen r + 1 ≡ length r) × (is_plausible_var_char n r ≡ true))
    ⊎ ((r ≡ bytes) × (strnlen bytes ≤ n) × (strnlen bytes < length bytes))

module _ (n : ℕ) (t : ValueType) (bytes : List ℕ) (h : IsStringOf t bytes) where
  -- The test for a terminator in `char_coerce_data` finds one just if it is there.
  char_terminated :
      (same_id t.type_id k_var_char
        || ltb (length bytes) (maximum_byte_length t.type_id t.string_length)
        || has_zero bytes)
      ≡ has_zero bytes
  unfolding is_plausible_char
  char_terminated = elim h [
    | inl (e, p) ↦ rw e (ground arith)
    | inr (e, p) ↦ rw e (ground (arith, has_zero-strnlen bytes))
  ]

  -- What `char_coerce_data` does, without the type that it comes from.
  char_coerced : char_coerce_data n t bytes ≡ (
      if leb (length bytes) n
      then (if has_zero bytes || (length bytes == n) then bytes else bytes ++ (0 ∷ []))
      else take n bytes)
  unfolding char_coerce_data
  char_coerced = rw char_terminated refl

  -- Coercing a string to `CHAR(n)` gives a plausible one, with the first `n` characters of its
  -- text.
  pub char_coerce_data-text :
      (text (char_coerce_data n t bytes) ≡ take n (text bytes))
      × (is_plausible_char n (char_coerce_data n t bytes) ≡ true)
  unfolding is_plausible_char
  char_coerce_data-text = rw char_coerced (elim (Bool-cases (leb (length bytes) n)) [
    | inl e ↦
        let small : length bytes ≤ n = ground arith in
        let fits : take n (text bytes) ≡ text bytes =
          take-text n bytes (omega (arith, strnlen-le bytes)) in
        elim (Bool-cases (has_zero bytes || (length bytes == n))) [
          | inl f ↦ rw (e, f) (sym fits, ground arith)
          | inr f ↦
              rw (e, f)
                (
                  text-terminated bytes ∙ sym fits,
                  ground (arith, has_zero-terminated bytes, length-terminated bytes),
                )
        ]
    | inr e ↦ rw e (text-take n bytes, ground (arith, length-take n bytes (ground arith)))
  ])

  original_strlen :
      (if same_id t.type_id k_var_char then length bytes - 1 else strnlen bytes) ≡ strnlen bytes
  original_strlen = elim h [ inl (e, p) ↦ rw e refl | inr (e, p) ↦ rw e (omega arith) ]

  var_char_coerced : var_char_coerce_data n t bytes ≡ (
      if leb (strnlen bytes) n && ltb (strnlen bytes) (length bytes)
      then bytes
      else take (if ltb (strnlen bytes) n then strnlen bytes else n) bytes ++ (0 ∷ []))
  unfolding var_char_coerce_data
  var_char_coerced = rw original_strlen refl

  Cut-at :
      (m : ℕ)
      → m ≤ n
      → m ≤ strnlen bytes
      → take m (text bytes) ≡ take n (text bytes)
      → (text (take m bytes ++ (0 ∷ [])) ≡ take n (text bytes))
        × Cut n bytes (take m bytes ++ (0 ∷ []))
  unfolding is_plausible_var_char
  Cut-at m low short e =
      let (s, l) = strnlen-take_terminated m bytes short in
      (
        text-terminated (take m bytes) ∙ text-take m bytes ∙ e,
        inl (omega (arith, s, l), ground (arith, s, l)),
      )

  -- Coercing a string to `VARCHAR(n)` gives the first `n` characters of its text. The bytes have
  -- their only 0 at the end and are plausible, or they are those of the string as it was, which has
  -- a 0 and at most `n` bytes before it.
  pub var_char_coerce_data-text :
      (text (var_char_coerce_data n t bytes) ≡ take n (text bytes))
      × Cut n bytes (var_char_coerce_data n t bytes)
  var_char_coerce_data-text =
      let bound = strnlen-le bytes in
      rw var_char_coerced (elim (Bool-cases (leb (strnlen bytes) n)) [
        | inl e ↦
            let small : strnlen bytes ≤ n = ground arith in
            let fits : take n (text bytes) ≡ text bytes = take-text n bytes small in
            elim (Bool-cases (ltb (strnlen bytes) (length bytes))) [
              | inl f ↦ rw (e, f) (sym fits, inr (refl, small, ground arith))
              | inr f ↦
                  rw (e, f)
                    (elim (Bool-cases (ltb (strnlen bytes) n)) [
                      | inl g ↦ rw g (
                          Cut-at (strnlen bytes) small (omega arith)
                            (take-text (strnlen bytes) bytes (omega arith) ∙ sym fits))
                      | inr g ↦ rw g (Cut-at n (omega arith) (ground arith) refl)
                    ])
            ]
        | inr e ↦
            let long : ltb (strnlen bytes) n ≡ false = ground arith in
            rw (e, long) (Cut-at n (omega arith) (ground arith) refl)
      ])

-- A `CHAR` whose text fits into `VARCHAR(n)`, but whose bytes with the padding after the first 0
-- are more than `n + 1`, is coerced to bytes that are no plausible `VARCHAR(n)`.
pub var_char_coerce_data-oversized :
    (n : ℕ) (t : ValueType) (bytes : List ℕ)
    → t.type_id ≡ k_char
    → strnlen bytes ≤ n
    → n + 1 < length bytes
    → is_plausible_var_char n (var_char_coerce_data n t bytes) ≡ false
unfolding is_plausible_var_char var_char_coerce_data
var_char_coerce_data-oversized n t bytes e small large =
    let fits : leb (strnlen bytes) n ≡ true = ground arith in
    let ended : ltb (strnlen bytes) (length bytes) ≡ true = ground arith in
    rw (e, fits, ended) (ground arith)
