-- ===== src/Types/ValueType/Equality.antt =====
-- `equals`, which compares pointers to the one instance of each type, and `isSubsumedBy`.
use quickstep_streaming.Prelude.{
  ℕ, ◌≡◌, refl, sym, ap, ap₂, ◌∙◌, Bool, true, ◌||◌, not, ◌==◌, arith, Bool-cases, inl, inr, subst,
  ◌≤◌, if◌then◌else◌,
}
use quickstep_streaming.Types.ValueType.{
  ValueType, TypeId, k_int, k_long, k_float, k_double, k_char, k_var_char, k_date, k_datetime,
  k_datetime_interval, k_year_month_interval, k_null_type, enumerator, same_id, equals,
  get_nullable_version, is_subsumed_by, string_instance,
}
use quickstep_streaming.Types.ValueType.Coercible.{is_safely_coercible_from}
use quickstep_streaming.Types.ValueType.Keys.{
  IsInstance, safely-takes, null-group, nullable_instance,
}

id_of : ℕ → TypeId
id_of n =
    if n == 0
    then k_int
    else if n == 1
    then k_long
    else if n == 2
    then k_float
    else if n == 3
    then k_double
    else if n == 4
    then k_char
    else if n == 5
    then k_var_char
    else if n == 6
    then k_date
    else if n == 7
    then k_datetime
    else if n == 8
    then k_datetime_interval
    else if n == 9
    then k_year_month_interval
    else k_null_type

id_of-enumerator : (i : TypeId) → id_of (enumerator i) ≡ i
unfolding id_of
id_of-enumerator k_int = refl
id_of-enumerator k_long = refl
id_of-enumerator k_float = refl
id_of-enumerator k_double = refl
id_of-enumerator k_char = refl
id_of-enumerator k_var_char = refl
id_of-enumerator k_date = refl
id_of-enumerator k_datetime = refl
id_of-enumerator k_datetime_interval = refl
id_of-enumerator k_year_month_interval = refl
id_of-enumerator k_null_type = refl

pub same_id-eq : (i j : TypeId) → same_id i j ≡ true → i ≡ j
same_id-eq i j h =
    let e : enumerator i ≡ enumerator j = ground arith in
    sym (id_of-enumerator i) ∙ ap id_of e ∙ id_of-enumerator j

same_flag : (a b : Bool) → (if a then b else not b) ≡ true → a ≡ b
same_flag a b h = ground arith

pub equals-eq : (t u : ValueType) → equals t u ≡ true → t ≡ u
unfolding equals
equals-eq t u h =
    let i = same_id-eq t.type_id u.type_id (ground arith) in
    let n : t.string_length ≡ u.string_length = ground arith in
    let b = same_flag t.nullable u.nullable (ground arith) in
    ap₂ (λ j m. string_instance j m t.nullable) i n
    ∙ ap (string_instance u.type_id u.string_length) b

module _ (t u : ValueType) (ht : IsInstance t) (hu : IsInstance u) where
  equal-safely_coercible : equals t u ≡ true → is_safely_coercible_from u t ≡ true
  equal-safely_coercible h =
      subst (λ v. is_safely_coercible_from v t ≡ true) (equals-eq t u h)
        (ground (arith, safely-takes t t ht ht, null-group t.type_id))

  nullable-safely_coercible :
      equals (get_nullable_version t) u ≡ true → is_safely_coercible_from u t ≡ true
  unfolding get_nullable_version
  nullable-safely_coercible h =
      let nt : ValueType = get_nullable_version t in
      subst (λ v. is_safely_coercible_from v t ≡ true) (equals-eq nt u h)
        (ground (arith, safely-takes nt t (nullable_instance t ht) ht, null-group t.type_id))

  longer-safely_coercible :
      t.type_id ≡ k_var_char
      → u.type_id ≡ k_var_char
      → t.string_length ≤ u.string_length
      → (not t.nullable || u.nullable) ≡ true
      → is_safely_coercible_from u t ≡ true
  longer-safely_coercible i j n b = safely-takes u t hu ht ∙ rw (i, j) (ground arith)

  -- If a type is subsumed by another, then the other takes it safely.
  pub is_subsumed_by-safely_coercible :
      is_subsumed_by t u ≡ true → is_safely_coercible_from u t ≡ true
  unfolding is_subsumed_by
  is_subsumed_by-safely_coercible h = elim (Bool-cases (equals t u)) [
    | inl e ↦ equal-safely_coercible e
    | inr e ↦ elim (Bool-cases (equals (get_nullable_version t) u)) [
      | inl f ↦ nullable-safely_coercible f
      | inr f ↦
          longer-safely_coercible (same_id-eq t.type_id k_var_char (ground arith))
            (same_id-eq u.type_id k_var_char (ground arith)) (ground (arith, ht.fits, hu.fits))
            (ground arith)
    ]
  ]
