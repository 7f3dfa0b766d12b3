-- ===== src/Tests/Windows.antt =====
-- AVG with an emission duration, over two tuples.
use quickstep_streaming.Prelude.{
  ℕ, zero, suc, ◌+◌, ◌-◌, ◌/◌, ◌≡◌, refl, [], ◌∷◌, Bool, false, some, leb, arith,
}
use quickstep_streaming.Types.Values.{TypedValue, null, literal, Tuple}
use quickstep_streaming.Expressions.Scalar.{attribute}
use quickstep_streaming.Expressions.WindowAggregation.{Operators, Handle, in_range, calculate}
use quickstep_streaming.Expressions.WindowAggregation.Emission.{Emissions, inside, outside, coerced}
use quickstep_streaming.Expressions.WindowAggregation.Aggregate.{
  Passes, nothing, tuple, averages, after, calculate-averages,
}

abbrev lift : (ℕ → ℕ → ℕ) → TypedValue ℕ → TypedValue ℕ → TypedValue ℕ
lift f (literal a) (literal b) = literal (f a b)
lift f _ _ = null

abbrev at_most : TypedValue ℕ → TypedValue ℕ → Bool
at_most (literal a) (literal b) = leb a b
at_most _ _ = false

abbrev int_of : TypedValue ℕ → ℕ
int_of (literal a) = a
int_of null = 0

abbrev divided : TypedValue ℕ → ℕ → TypedValue ℕ
divided (literal a) zero = null
divided (literal a) (suc n) = literal (a / suc n)
divided null n = null

abbrev numbers : Operators ℕ
numbers = record {
  range_add = lift (λ a b. a + b);
  range_subtract = lift (λ a b. a - b);
  range_compare = at_most;
  coerce_value = λ v. v;
  literal_int = int_of;
  fast_add = lift (λ a b. a + b);
  fast_subtract = lift (λ a b. a - b);
  divide = divided;
}

-- Every 2 units of time, over the last 2 ones.
abbrev handle : Handle ℕ
handle = record {
  operators = numbers;
  argument = attribute 1;
  streaming_attribute_id = 0;
  emit_duration = literal 2;
  is_row = false;
  value_preceding = literal 2;
  value_following = literal 0;
}

abbrev first_tuple : Tuple ℕ
first_tuple = literal 0 ∷ literal 10 ∷ []

abbrev second_tuple : Tuple ℕ
second_tuple = literal 3 ∷ literal 20 ∷ []

second-Emissions :
    Emissions handle (coerced handle second_tuple) (literal 2) (literal 2 ∷ []) (literal 4)
unfolding in_range
second-Emissions = outside refl refl (inside refl refl)

second-Passes :
    Passes handle 1 2 (literal 2) (second_tuple ∷ []) ((literal 2 ∷ []) ∷ []) (literal 4)
second-Passes = tuple second-Emissions (omega arith) nothing

calculate-averages_example :
    calculate handle 2 (first_tuple ∷ second_tuple ∷ []) (after handle 1 (literal 0) [] (literal 2))
    ≡ some (
      averages handle 1 (literal 0) (first_tuple ∷ []) (second_tuple ∷ []) ((literal 2 ∷ []) ∷ []),
      after handle 1 (literal 0) (first_tuple ∷ second_tuple ∷ []) (literal 4),
    )
calculate-averages_example =
    calculate-averages handle 1 refl refl 2 (literal 0) (literal 2) (literal 4) first_tuple
      (second_tuple ∷ []) ((literal 2 ∷ []) ∷ []) refl (omega arith) (omega arith) second-Passes
