-- ===== src/Utility/PtrVector.antt =====
-- utility/PtrVector.hpp with null pointers allowed: the vector is a list of options, and an iterator
-- is its position.
pub mod Skipping
use mathlib.Core.Option
use quickstep_streaming.Prelude.{
  ℕ, zero, suc, ◌+◌, ◌-◌, ◌≤◌, ◌<◌, ◌≡◌, refl, ap, ◌∙◌, Bool, true, false, ◌&&◌, not, Option, none,
  some, List, [], ◌∷◌, ◌++◌, ◌==◌, ltb, if◌then◌else◌, length, get_elem?, get_or, modify, drop,
  arith,
}

abbrev pub PtrVector {ℓ} : Type ℓ → Type ℓ
PtrVector T = List (Option T)

module _ {ℓ} {T : Type ℓ} where
  unfoldable pub push_back : PtrVector T → Option T → PtrVector T
  push_back v p = v ++ p ∷ []

  unfoldable pub is_null : Option T → Bool
  is_null none = true
  is_null (some x) = false

  unfoldable pub element_is_null : PtrVector T → ℕ → Bool
  unfolding is_null
  element_is_null v n = is_null (get_or v n none)

  unfoldable pub empty_null_check : PtrVector T → Bool
  unfolding is_null
  empty_null_check [] = true
  empty_null_check (p ∷ v) = if is_null p then empty_null_check v else false

  unfoldable pub delete_element : PtrVector T → ℕ → PtrVector T
  delete_element v n = modify v n (λ _. none)

  -- The loop of a skip iterator over null pointers, from position `i` of the vector with what is left
  -- of it from there.
  unfoldable pub skip_nulls : PtrVector T → ℕ → ℕ
  skip_nulls [] i = i
  skip_nulls (none ∷ v) i = skip_nulls v (suc i)
  skip_nulls (some x ∷ v) i = i

  unfoldable pub begin_skip : PtrVector T → ℕ
  unfolding skip_nulls
  begin_skip v = skip_nulls v 0

  unfoldable pub end_skip : PtrVector T → ℕ
  end_skip v = length v

  -- `operator++` of a skip iterator.
  unfoldable pub next_skip : PtrVector T → ℕ → ℕ
  unfolding skip_nulls
  next_skip v i = skip_nulls (drop (suc i) v) (suc i)

  -- What a loop with skip iterators sees, with fuel for its rounds; `none` means that it ran out, or
  -- that a null pointer was followed.
  unfoldable pub skip_loop : ℕ → PtrVector T → ℕ → Option (List T)
  unfolding end_skip next_skip
  skip_loop zero v i = if i == end_skip v then some [] else none
  skip_loop (suc fuel) v i =
      let rest = skip_loop fuel v (next_skip v i) in
      if i == end_skip v
      then some []
      else elim (get_or v i none) [ none ↦ none | some x ↦ Option.map (λ xs. x ∷ xs) rest ]

  -- The elements that are there.
  abbrev pub elements : PtrVector T → List T
  elements [] = []
  elements (none ∷ v) = elements v
  elements (some x ∷ v) = x ∷ elements v
