-- ===== src/Types/ValueType/Keys.antt =====
-- Safe coercion as an order: the types are in groups, and those of a group have two keys each.
use quickstep_streaming.Prelude.{
  ℕ, ◌+◌, ◌<◌, ◌≡◌, refl, Bool, true, ◌&&◌, ◌||◌, not, leb, ◌==◌, arith,
}
use quickstep_streaming.Common.TupleIdSequence.{size_t_mod}
use quickstep_streaming.Types.ValueType.{
  TypeId, k_int, k_long, k_float, k_double, k_char, k_var_char, k_date, k_datetime,
  k_datetime_interval, k_year_month_interval, k_null_type, same_id, ValueType, get_nullable_version,
}
use quickstep_streaming.Types.ValueType.Coercible.{safely_coerces, is_safely_coercible_from}
use quickstep_streaming.Types.ValueType.Ids.{for_all, for_all-elim, same, same→eq}

abbrev pub group : TypeId → ℕ
group k_int = 0
group k_long = 0
group k_float = 0
group k_double = 0
group k_char = 1
group k_var_char = 1
group k_date = 2
group k_datetime = 3
group k_datetime_interval = 4
group k_year_month_interval = 5
group k_null_type = 6

-- Whether it holds all values of `long`, or how long a string it holds.
abbrev pub width : TypeId → ℕ → ℕ
width k_long n = 1
width k_double n = 1
width k_char n = n
width k_var_char n = n
width _ n = 0

-- Whether it holds all values of `float`.
abbrev pub fraction : TypeId → ℕ
fraction k_float = 1
fraction k_double = 1
fraction _ = 0

abbrev pub below : TypeId → ℕ → TypeId → ℕ → Bool
below i n j m =
    (group j == group i)
    && not (group i == 6)
    && leb (width j m) (width i n)
    && leb (fraction j) (fraction i)

abbrev agrees : ℕ → ℕ → TypeId → TypeId → Bool
agrees n m i j = same (safely_coerces i n j m) (below i n j m)

module _ (n m : ℕ) (hn : n + 1 < size_t_mod) (hm : m + 1 < size_t_mod) where
  char_agrees : (j : TypeId) → safely_coerces k_char n j m ≡ below k_char n j m
  char_agrees k_char = ground arith
  char_agrees k_var_char = ground arith
  char_agrees k_int = refl
  char_agrees k_long = refl
  char_agrees k_float = refl
  char_agrees k_double = refl
  char_agrees k_date = refl
  char_agrees k_datetime = refl
  char_agrees k_datetime_interval = refl
  char_agrees k_year_month_interval = refl
  char_agrees k_null_type = refl

  var_char_agrees : (j : TypeId) → safely_coerces k_var_char n j m ≡ below k_var_char n j m
  var_char_agrees k_char = ground arith
  var_char_agrees k_var_char = ground arith
  var_char_agrees k_int = refl
  var_char_agrees k_long = refl
  var_char_agrees k_float = refl
  var_char_agrees k_double = refl
  var_char_agrees k_date = refl
  var_char_agrees k_datetime = refl
  var_char_agrees k_datetime_interval = refl
  var_char_agrees k_year_month_interval = refl
  var_char_agrees k_null_type = refl

  fixed_agrees :
      (i j : TypeId) → for_all (agrees n m i) ≡ true → safely_coerces i n j m ≡ below i n j m
  fixed_agrees i j h =
      same→eq (safely_coerces i n j m) (below i n j m) (for_all-elim (agrees n m i) h j)

  pub safely_coerces-below : (i j : TypeId) → safely_coerces i n j m ≡ below i n j m
  safely_coerces-below k_int j = fixed_agrees k_int j refl
  safely_coerces-below k_long j = fixed_agrees k_long j refl
  safely_coerces-below k_float j = fixed_agrees k_float j refl
  safely_coerces-below k_double j = fixed_agrees k_double j refl
  safely_coerces-below k_char j = char_agrees j
  safely_coerces-below k_var_char j = var_char_agrees j
  safely_coerces-below k_date j = fixed_agrees k_date j refl
  safely_coerces-below k_datetime j = fixed_agrees k_datetime j refl
  safely_coerces-below k_datetime_interval j = fixed_agrees k_datetime_interval j refl
  safely_coerces-below k_year_month_interval j = fixed_agrees k_year_month_interval j refl
  safely_coerces-below k_null_type j = fixed_agrees k_null_type j refl

-- The null type is the group 6.
pub null-group : (i : TypeId) → same_id i k_null_type ≡ (group i == 6)
null-group i =
    same→eq (same_id i k_null_type) (group i == 6)
      (for_all-elim (λ j. same (same_id j k_null_type) (group j == 6)) refl i)

-- A type as the factory makes it: its length leaves room for a terminator, and the null type is
-- nullable.
pub record IsInstance (t : ValueType) : Type 0 where
  pub fits : t.string_length + 1 < size_t_mod
  pub null_is_nullable : same_id t.type_id k_null_type ≡ true → t.nullable ≡ true

-- When a type takes all values of another, by the groups and keys.
abbrev pub takes : ValueType → ValueType → Bool
takes t u =
    (t.nullable || not u.nullable)
    && ((group u.type_id == 6) || below t.type_id t.string_length u.type_id u.string_length)

pub safely-takes :
    (t u : ValueType) → IsInstance t → IsInstance u → is_safely_coercible_from t u ≡ takes t u
unfolding is_safely_coercible_from
safely-takes t u ht hu =
    rw
      (
        safely_coerces-below t.string_length u.string_length ht.fits hu.fits t.type_id u.type_id,
        null-group t.type_id,
        null-group u.type_id,
      )
      (ground (
        arith,
        null-group t.type_id,
        null-group u.type_id,
        ht.null_is_nullable,
        hu.null_is_nullable,
      ))

pub nullable_instance : (t : ValueType) → IsInstance t → IsInstance (get_nullable_version t)
unfolding get_nullable_version
nullable_instance t h = record { fits = h.fits; null_is_nullable = λ e. refl }
