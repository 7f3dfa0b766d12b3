-- ===== src/Types/ValueType/Coercion.antt =====
-- `isSafelyCoercibleFrom` and its relations to `isCoercibleFrom` and `isSubsumedBy`.
use quickstep_streaming.Prelude.{◌≡◌, refl, Bool, true, ◌||◌, not, ◌==◌, arith}
use quickstep_streaming.Types.ValueType.{ValueType, TypeId}
use quickstep_streaming.Types.ValueType.Coercible.{
  coerces, is_coercible_from, is_safely_coercible_from,
}
use quickstep_streaming.Types.ValueType.Ids.{for_all-elim₂}
use quickstep_streaming.Types.ValueType.Keys.{IsInstance, group, safely-takes, null-group}

module _ (t u v : ValueType) (ht : IsInstance t) (hu : IsInstance u) (hv : IsInstance v) where
  -- Safe coercion can be put together: what a type takes safely from a second, and that from a
  -- third, the first takes safely from the third. The lengths of all strings are below 2 ^ 64 - 1.
  pub safely_coercible_trans :
      is_safely_coercible_from t u ≡ true
      → is_safely_coercible_from u v ≡ true
      → is_safely_coercible_from t v ≡ true
  safely_coercible_trans f g = ground (
    arith,
    safely-takes t u ht hu,
    safely-takes u v hu hv,
    safely-takes t v ht hv,
    null-group u.type_id,
    null-group v.type_id,
    hv.null_is_nullable,
  )

-- Types of a group can be coerced.
grouped : TypeId → TypeId → Bool
grouped i j = not (group i == group j) || (group i == 6) || coerces i j

grouped-coerces : (i j : TypeId) → grouped i j ≡ true
unfolding grouped
grouped-coerces i j = for_all-elim₂ grouped refl i j

pub safely_coercible-coercible :
    (t u : ValueType)
    → IsInstance t
    → IsInstance u
    → is_safely_coercible_from t u ≡ true
    → is_coercible_from t u ≡ true
unfolding is_coercible_from grouped
safely_coercible-coercible t u ht hu h = ground (
  arith,
  safely-takes t u ht hu,
  null-group t.type_id,
  null-group u.type_id,
  ht.null_is_nullable,
  hu.null_is_nullable,
  grouped-coerces t.type_id u.type_id,
)
