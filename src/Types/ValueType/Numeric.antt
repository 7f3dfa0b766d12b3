-- ===== src/Types/ValueType/Numeric.antt =====
-- `NumericTypeUnifier` against `GetUnifyingType`.
use mathlib.Core.Option
use quickstep_streaming.Prelude.{
  ◌≡◌, refl, Bool, true, false, ◌&&◌, Option, none, some, arith, if◌then◌else◌,
}
use quickstep_streaming.Types.ValueType.{
  ValueType, TypeId, is_numeric, super_type_id, instance_of, equals,
}
use quickstep_streaming.Types.ValueType.Coercible.{
  get_unifying_type, numeric_type_unifier, get_most_specific_type, or_double,
  is_safely_coercible_from,
}
use quickstep_streaming.Types.ValueType.Ids.{for_all-elim₂}
use quickstep_streaming.Types.ValueType.Equality.{equals-eq}

same_type : Option ValueType → Option ValueType → Bool
unfolding equals
same_type none none = true
same_type (some t) (some u) = equals t u
same_type none (some u) = false
same_type (some t) none = false

same_type-eq : (a b : Option ValueType) → same_type a b ≡ true → a ≡ b
unfolding same_type
same_type-eq none none h = refl
same_type-eq (some t) (some u) h = ground (arith, equals-eq t u h)
same_type-eq none (some u) h = absurd (ground arith)
same_type-eq (some t) none h = absurd (ground arith)

-- `get_unifying_type` on two types that are not nullable, where both are numeric.
abbrev pub numeric_only : TypeId → TypeId → Option ValueType
unfolding get_unifying_type
numeric_only i j =
    if is_numeric (super_type_id i) && is_numeric (super_type_id j)
    then get_unifying_type (instance_of i false) (instance_of j false)
    else none

abbrev unified : TypeId → TypeId → Option ValueType
unfolding numeric_type_unifier
unified i j = Option.map (λ k. instance_of k false) (numeric_type_unifier i j)

-- `numeric_type_unifier` is there for just the pairs of numeric types, and is then the type that
-- `get_unifying_type` gives for them, not nullable.
pub numeric_type_unifier-get_unifying_type :
    (i j : TypeId)
    → Option.map (λ k. instance_of k false) (numeric_type_unifier i j) ≡ numeric_only i j
unfolding numeric_type_unifier same_type get_unifying_type get_most_specific_type or_double
    is_safely_coercible_from equals
numeric_type_unifier-get_unifying_type i j =
    same_type-eq (unified i j) (numeric_only i j)
      (for_all-elim₂ (λ k l. same_type (unified k l) (numeric_only k l)) refl i j)
