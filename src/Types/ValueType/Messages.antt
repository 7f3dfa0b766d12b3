-- ===== src/Types/ValueType/Messages.antt =====
-- The protobuf messages of types.
use quickstep_streaming.Prelude.{ℕ, ◌≡◌, refl, Bool, true, some, ◌⊎◌, inl, inr, subst}
use mathlib.Core.Option.{some-injective}
use quickstep_streaming.Types.ValueType.{
  ValueType, TypeId, k_int, k_long, k_float, k_double, k_char, k_var_char, k_date, k_datetime,
  k_datetime_interval, k_year_month_interval, k_null_type, get_type, get_type_with_length,
}
use quickstep_streaming.Types.ValueType.Proto.{get_proto, proto_is_valid, reconstruct_from_proto}

-- A type that the factory gives.
abbrev pub IsMade : ValueType → Type 0
IsMade t =
    ((id : TypeId) × (nullable : Bool) × (get_type id nullable ≡ some t))
    ⊎ (id : TypeId) × (length : ℕ) × (nullable : Bool) × (get_type_with_length id length nullable
        ≡ some t)

abbrev ComesBack : ValueType → Type 0
ComesBack t = (reconstruct_from_proto (get_proto t) ≡ t) × (proto_is_valid (get_proto t) ≡ true)

plain-ComesBack : (t : ValueType) (id : TypeId) (b : Bool) → get_type id b ≡ some t → ComesBack t
unfolding get_type reconstruct_from_proto get_proto proto_is_valid
plain-ComesBack t k_int b e = subst ComesBack (some-injective _ _ e) (refl, refl)
plain-ComesBack t k_long b e = subst ComesBack (some-injective _ _ e) (refl, refl)
plain-ComesBack t k_float b e = subst ComesBack (some-injective _ _ e) (refl, refl)
plain-ComesBack t k_double b e = subst ComesBack (some-injective _ _ e) (refl, refl)
plain-ComesBack t k_date b e = subst ComesBack (some-injective _ _ e) (refl, refl)
plain-ComesBack t k_datetime b e = subst ComesBack (some-injective _ _ e) (refl, refl)
plain-ComesBack t k_datetime_interval b e = subst ComesBack (some-injective _ _ e) (refl, refl)
plain-ComesBack t k_year_month_interval b e = subst ComesBack (some-injective _ _ e) (refl, refl)
plain-ComesBack t k_null_type b e = subst ComesBack (some-injective _ _ e) (refl, refl)
plain-ComesBack t k_char b e = cc
plain-ComesBack t k_var_char b e = cc

string-ComesBack :
    (t : ValueType) (id : TypeId) (n : ℕ) (b : Bool)
    → get_type_with_length id n b ≡ some t
    → ComesBack t
unfolding get_type_with_length reconstruct_from_proto get_proto proto_is_valid
string-ComesBack t k_char n b e = subst ComesBack (some-injective _ _ e) (refl, refl)
string-ComesBack t k_var_char n b e = subst ComesBack (some-injective _ _ e) (refl, refl)
string-ComesBack t k_int n b e = cc
string-ComesBack t k_long n b e = cc
string-ComesBack t k_float n b e = cc
string-ComesBack t k_double n b e = cc
string-ComesBack t k_date n b e = cc
string-ComesBack t k_datetime n b e = cc
string-ComesBack t k_datetime_interval n b e = cc
string-ComesBack t k_year_month_interval n b e = cc
string-ComesBack t k_null_type n b e = cc

-- A type that the factory gives comes back from its message, which is valid.
pub reconstruct_from_proto-get_proto :
    (t : ValueType)
    → IsMade t
    → (reconstruct_from_proto (get_proto t) ≡ t) × (proto_is_valid (get_proto t) ≡ true)
reconstruct_from_proto-get_proto t (inl (id, b, e)) = plain-ComesBack t id b e
reconstruct_from_proto-get_proto t (inr (id, n, b, e)) = string-ComesBack t id n b e
