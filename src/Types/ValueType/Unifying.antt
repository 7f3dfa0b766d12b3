-- ===== src/Types/ValueType/Unifying.antt =====
-- `GetUnifyingType` gives a least type that takes both.
use quickstep_streaming.Prelude.{
  ℕ, ◌+◌, ◌≡◌, refl, sym, ◌∙◌, Bool, true, false, ◌&&◌, ◌||◌, not, ◌==◌, leb, Option, none, some,
  arith, Bool-cases, inl, inr, subst,
}
use quickstep_streaming.Types.ValueType.{
  ValueType, TypeId, k_double, get_nullable_version, instance_of,
}
use quickstep_streaming.Types.ValueType.Coercible.{
  are_long_and_float, is_safely_coercible_from, get_most_specific_type, get_unifying_type,
  or_double,
}
use quickstep_streaming.Types.ValueType.Ids.{for_all-elim, for_all-elim₂}
use quickstep_streaming.Types.ValueType.Keys.{
  IsInstance, group, width, fraction, safely-takes, null-group, nullable_instance,
}

-- The two types of a group neither of which takes the other are `long` and `float`.
abbrev separate : ℕ → ℕ → TypeId → TypeId → Bool
separate n m i j =
    not (group i == group j)
    || (group i == 1)
    || leb (width j m) (width i n) && leb (fraction j) (fraction i)
    || leb (width i n) (width j m) && leb (fraction i) (fraction j)
    || are_long_and_float i j

separate-all : (n m : ℕ) (i j : TypeId) → separate n m i j ≡ true
separate-all n m i j = for_all-elim₂ (separate n m) refl i j

no_fraction : (i : TypeId) → (not (group i == 1) || (fraction i == 0)) ≡ true
no_fraction i = for_all-elim (λ i. not (group i == 1) || (fraction i == 0)) refl i

abbrev long_or_float : ℕ → ℕ → TypeId → TypeId → Bool
long_or_float n m i j =
    not (are_long_and_float i j)
    || (group i == 0)
      && (group j == 0)
      && (width i n + width j m == 1)
      && (fraction i + fraction j == 1)

long_or_float-all : (n m : ℕ) (i j : TypeId) → long_or_float n m i j ≡ true
long_or_float-all n m i j = for_all-elim₂ (long_or_float n m) refl i j

-- The type `u` takes both, and each type that takes both takes it.
pub record IsLeast (first second u : ValueType) : Type 0 where
  pub is_instance : IsInstance u
  pub takes_first : is_safely_coercible_from u first ≡ true
  pub takes_second : is_safely_coercible_from u second ≡ true
  pub least :
      (c : ValueType)
      → IsInstance c
      → is_safely_coercible_from c first ≡ true
      → is_safely_coercible_from c second ≡ true
      → is_safely_coercible_from c u ≡ true

-- What `GetUnifyingType` answers: such a type, or none where no type takes both.
abbrev pub Unifies : ValueType → ValueType → Option ValueType → Type 0
Unifies first second (some u) = IsLeast first second u
Unifies first second none =
    (c : ValueType)
    → IsInstance c
    → is_safely_coercible_from c first ≡ true
    → is_safely_coercible_from c second ≡ true
    → ⊥

double_instance : (b : Bool) → IsInstance (instance_of k_double b)
double_instance b = record { fits = ground arith; null_is_nullable = λ e. absurd (ground arith) }

-- Two types, both nullable or both not.
module _ (t u : ValueType) (ht : IsInstance t) (hu : IsInstance u) where
  first_is_least : is_safely_coercible_from t u ≡ true → IsLeast t u t
  first_is_least h = record {
    is_instance = ht;
    takes_first = ground (arith, safely-takes t t ht ht, null-group t.type_id);
    takes_second = h;
    least = λ c hc f g. f;
  }

  second_is_least : is_safely_coercible_from u t ≡ true → IsLeast t u u
  second_is_least h = record {
    is_instance = hu;
    takes_first = h;
    takes_second = ground (arith, safely-takes u u hu hu, null-group u.type_id);
    least = λ c hc f g. g;
  }

  module _ (level : t.nullable ≡ u.nullable) (f : is_safely_coercible_from t u ≡ false)
      (g : is_safely_coercible_from u t ≡ false) where
    double_is_least :
        are_long_and_float t.type_id u.type_id ≡ true
        → IsLeast t u (instance_of k_double t.nullable)
    double_is_least h =
        let d : ValueType = instance_of k_double t.nullable in
        let hd = double_instance t.nullable in
        let keys = long_or_float-all t.string_length u.string_length t.type_id u.type_id in
        record {
          is_instance = hd;
          takes_first = ground (arith, safely-takes d t hd ht, keys);
          takes_second = ground (arith, safely-takes d u hd hu, keys);
          least = λ c hc k l.
              ground (
                arith,
                safely-takes c t hc ht,
                safely-takes c u hc hu,
                safely-takes c d hc hd,
                keys,
              );
        }

    none_takes_both : are_long_and_float t.type_id u.type_id ≡ false → Unifies t u none
    none_takes_both h c hc k l = ground (
      arith,
      safely-takes c t hc ht,
      safely-takes c u hc hu,
      safely-takes t u ht hu,
      safely-takes u t hu ht,
      separate-all t.string_length u.string_length t.type_id u.type_id,
      no_fraction t.type_id,
      no_fraction u.type_id,
      null-group t.type_id,
      null-group u.type_id,
      ht.null_is_nullable,
      hu.null_is_nullable,
    )

  most_specific-Unifies :
      t.nullable ≡ u.nullable
      → Unifies t u (or_double (get_most_specific_type t u) t.type_id u.type_id t.nullable)
  unfolding get_most_specific_type or_double
  most_specific-Unifies level = elim (Bool-cases (is_safely_coercible_from t u)) [
    | inl f ↦ rw f (first_is_least f)
    | inr f ↦ elim (Bool-cases (is_safely_coercible_from u t)) [
      | inl g ↦ rw (f, g) (second_is_least g)
      | inr g ↦ elim (Bool-cases (are_long_and_float t.type_id u.type_id)) [
        | inl h ↦ rw (f, g, h) (double_is_least level f g h)
        | inr h ↦ rw (f, g, h) (none_takes_both level f g h)
      ]
    ]
  ]

-- What takes the nullable version of a type takes the type.
from_version :
    (v t : ValueType)
    → IsInstance v
    → IsInstance t
    → is_safely_coercible_from v (get_nullable_version t) ≡ true
    → is_safely_coercible_from v t ≡ true
unfolding get_nullable_version
from_version v t hv ht h = ground (
  arith,
  safely-takes v t hv ht,
  safely-takes v (get_nullable_version t) hv (nullable_instance t ht),
)

module _ (t u : ValueType) (ht : IsInstance t) (hu : IsInstance u)
    (either : (t.nullable || u.nullable) ≡ true) where
  -- A type that takes both takes their nullable versions, since one of them is nullable itself.
  takes_nullable :
      (c : ValueType)
      → IsInstance c
      → is_safely_coercible_from c t ≡ true
      → is_safely_coercible_from c u ≡ true
      → (is_safely_coercible_from c (get_nullable_version t) ≡ true)
        × (is_safely_coercible_from c (get_nullable_version u) ≡ true)
  unfolding get_nullable_version
  takes_nullable c hc k l =
      let nt = nullable_instance t ht in
      let nu = nullable_instance u hu in
      (
        ground (
          arith,
          safely-takes c t hc ht,
          safely-takes c u hc hu,
          safely-takes c (get_nullable_version t) hc nt,
        ),
        ground (
          arith,
          safely-takes c t hc ht,
          safely-takes c u hc hu,
          safely-takes c (get_nullable_version u) hc nu,
        ),
      )

  from_nullable :
      (o : Option ValueType)
      → Unifies (get_nullable_version t) (get_nullable_version u) o
      → Unifies t u o
  from_nullable none h = λ c hc k l. let (nk, nl) = takes_nullable c hc k l in h c hc nk nl
  from_nullable (some v) h = record {
    is_instance = h.is_instance;
    takes_first = from_version v t h.is_instance ht h.takes_first;
    takes_second = from_version v u h.is_instance hu h.takes_second;
    least = λ c hc k l. let (nk, nl) = takes_nullable c hc k l in h.least c hc nk nl;
  }

-- `get_unifying_type` of two types gives one that takes both safely, and that each type that takes
-- both safely takes as well; it gives none only where no type takes both safely. The lengths of all
-- strings are below 2 ^ 64 - 1.
pub get_unifying_type-Unifies :
    (first second : ValueType)
    → IsInstance first
    → IsInstance second
    → Unifies first second (get_unifying_type first second)
unfolding get_unifying_type get_nullable_version or_double
get_unifying_type-Unifies first second h k = elim (Bool-cases (first.nullable || second.nullable)) [
  | inl e ↦ rw e (
      from_nullable first second h k e
        (or_double
          (get_most_specific_type (get_nullable_version first) (get_nullable_version second))
          first.type_id second.type_id true)
        (most_specific-Unifies (get_nullable_version first) (get_nullable_version second)
          (nullable_instance first h) (nullable_instance second k) refl))
  | inr e ↦
      let not_first : first.nullable ≡ false = ground arith in
      let not_second : second.nullable ≡ false = ground arith in
      let both = most_specific-Unifies first second h k (not_first ∙ sym not_second) in
      rw e (
        subst
          (λ b.
            Unifies first second
              (or_double (get_most_specific_type first second) first.type_id second.type_id b))
          not_first both)
]
