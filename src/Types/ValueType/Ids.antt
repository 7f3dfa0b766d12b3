-- ===== src/Types/ValueType/Ids.antt =====
-- Tests on all ids of types.
use quickstep_streaming.Prelude.{◌≡◌, refl, Bool, true, false, ◌&&◌, arith}
use quickstep_streaming.Types.ValueType.{
  TypeId, k_int, k_long, k_float, k_double, k_char, k_var_char, k_date, k_datetime,
  k_datetime_interval, k_year_month_interval, k_null_type,
}

abbrev pub for_all : (TypeId → Bool) → Bool
for_all p =
    p k_int
    && p k_long
    && p k_float
    && p k_double
    && p k_char
    && p k_var_char
    && p k_date
    && p k_datetime
    && p k_datetime_interval
    && p k_year_month_interval
    && p k_null_type

pub for_all-elim : (p : TypeId → Bool) → for_all p ≡ true → (i : TypeId) → p i ≡ true
for_all-elim p h k_int = ground arith
for_all-elim p h k_long = ground arith
for_all-elim p h k_float = ground arith
for_all-elim p h k_double = ground arith
for_all-elim p h k_char = ground arith
for_all-elim p h k_var_char = ground arith
for_all-elim p h k_date = ground arith
for_all-elim p h k_datetime = ground arith
for_all-elim p h k_datetime_interval = ground arith
for_all-elim p h k_year_month_interval = ground arith
for_all-elim p h k_null_type = ground arith

pub for_all-elim₂ :
    (p : TypeId → TypeId → Bool)
    → for_all (λ i. for_all (p i)) ≡ true
    → (i j : TypeId) → p i j ≡ true
for_all-elim₂ p h i j = for_all-elim (p i) (for_all-elim (λ k. for_all (p k)) h i) j

abbrev pub same : Bool → Bool → Bool
same true b = b
same false true = false
same false false = true

pub same→eq : (a b : Bool) → same a b ≡ true → a ≡ b
same→eq true true h = refl
same→eq true false h = absurd (ground arith)
same→eq false true h = absurd (ground arith)
same→eq false false h = refl
