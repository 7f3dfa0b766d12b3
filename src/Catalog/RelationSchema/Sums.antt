-- ===== src/Catalog/RelationSchema/Sums.antt =====
-- Sums over the attributes before a position, and lists that grow with the attributes.
use quickstep_streaming.Prelude.{
  ℕ, zero, suc, ◌+◌, ◌-◌, ◌≤◌, ◌<◌, ◌≡◌, refl, ◌⊎◌, Bool, true, false, inl, inr, Option, none, some,
  List, [], ◌∷◌, ◌++◌, if◌then◌else◌, ltb, length, get_elem?, get_or, take, arith, length-replicate,
  get_or-append, get_or-replicate_lt,
}
use quickstep_streaming.Catalog.RelationSchema.{resize}
use quickstep_streaming.Types.ValueType.{ValueType, is_variable_length, maximum_bytes}

-- The sum of a measure over the attributes before a position.
abbrev pub sum_before : (ValueType → ℕ) → List ValueType → ℕ → ℕ
sum_before f [] i = 0
sum_before f (t ∷ ts) zero = 0
sum_before f (t ∷ ts) (suc i) = f t + sum_before f ts i

-- The bytes that an attribute takes in the fixed-length part of a tuple.
abbrev pub fixed_bytes : ValueType → ℕ
fixed_bytes t = if is_variable_length t then 0 else maximum_bytes t

abbrev pub one_if : Bool → ℕ
one_if b = if b then 1 else 0

pub sum_before-append :
    (f : ValueType → ℕ) (ts : List ValueType) (t : ValueType) (i : ℕ)
    → sum_before f (ts ++ t ∷ []) i
      ≡ (if ltb (length ts) i then sum_before f ts (length ts) + f t else sum_before f ts i)
sum_before-append f [] t zero = ground arith
sum_before-append f [] t (suc i) = ground arith
sum_before-append f (u ∷ ts) t zero = ground arith
sum_before-append f (u ∷ ts) t (suc i) = ground (arith, sum_before-append f ts t i)

-- `some n` for the attributes that have the property, with `n` the number of those before, and
-- `none` for the others.
abbrev pub numbered : (ValueType → Bool) → List ValueType → ℕ → ValueType → Option ℕ
numbered has ts i t = if has t then some (sum_before (λ u. one_if (has u)) ts i) else none

pub snoc_cases :
    (ts : List ValueType) (t u : ValueType) (i : ℕ)
    → get_elem? (ts ++ t ∷ []) i ≡ some u
    → ((i < length ts) × (get_elem? ts i ≡ some u)) ⊎ ((i ≡ length ts) × (u ≡ t))
snoc_cases [] t u zero h = inr (refl, ground arith)
snoc_cases [] t u (suc i) h = absurd (ground arith)
snoc_cases (x ∷ ts) t u zero h = inl (omega arith, h)
snoc_cases (x ∷ ts) t u (suc i) h = elim (snoc_cases ts t u i h) [
  | inl (l, e) ↦ inl (omega arith, e)
  | inr (e, q) ↦ inr (omega arith, q)
]

-- One more attribute with its number.
pub numbered-append :
    (has : ValueType → Bool) (ts : List ValueType) (t : ValueType) (xs : List (Option ℕ)) (next : ℕ)
    → length xs ≡ length ts
    → next ≡ sum_before (λ u. one_if (has u)) ts (length ts)
    → ((i : ℕ) (u : ValueType) → get_elem? ts i ≡ some u → get_or xs i none ≡ numbered has ts i u)
    → (i : ℕ) (u : ValueType) → get_elem? (ts ++ t ∷ []) i ≡ some u
    → get_or (xs ++ (if has t then some next else none) ∷ []) i none
      ≡ numbered has (ts ++ t ∷ []) i u
numbered-append has ts t xs next size total old i u h =
    let at = get_or-append xs ((if has t then some next else none) ∷ []) i none in
    let sums = sum_before-append (λ u. one_if (has u)) ts t i in
    elim (snoc_cases ts t u i h) [
      | inl (l, e) ↦
          let before : ltb i (length xs) ≡ true = ground arith in
          let same : ltb (length ts) i ≡ false = ground arith in
          rw (at, before, sums, same) (old i u e)
      | inr (e, q) ↦
          let before : ltb i (length xs) ≡ false = ground arith in
          let same : ltb (length ts) i ≡ false = ground arith in
          let first : i - length xs ≡ 0 = omega arith in
          rw (at, before, sums, same, first, q, e, total) refl
    ]

take_nil : (n : ℕ) → take {A = ℕ} n [] ≡ []
take_nil zero = refl
take_nil (suc n) = refl

pub get_or-resize :
    (xs : List ℕ) (n v i : ℕ)
    → length xs ≤ n
    → i < n
    → get_or (resize xs n v) i 0 ≡ (if ltb i (length xs) then get_or xs i 0 else v)
unfolding resize
get_or-resize [] n v i h l =
    let same : n - 0 ≡ n = omega arith in
    rw (take_nil n, same) (ground (arith, get_or-replicate_lt {A = ℕ} n i v 0 l))
get_or-resize (x ∷ xs) zero v i h l = absurd (omega arith)
get_or-resize (x ∷ xs) (suc n) v zero h l = ground arith
get_or-resize (x ∷ xs) (suc n) v (suc i) h l = ground (arith, get_or-resize xs n v i)

pub length-resize : (xs : List ℕ) (n v : ℕ) → length xs ≤ n → length (resize xs n v) ≡ n
unfolding resize
length-resize [] n v h =
    let same : n - 0 ≡ n = omega arith in rw (take_nil n, same) (length-replicate {A = ℕ} n v)
length-resize (x ∷ xs) zero v h = absurd (omega arith)
length-resize (x ∷ xs) (suc n) v h = ground (arith, length-resize xs n v)
