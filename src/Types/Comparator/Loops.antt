-- ===== src/Types/Comparator/Loops.antt =====
-- The loops that fill a result: over the ids of a sequence, over a range, and with a column.
use quickstep_streaming.Prelude.{
  ℕ, zero, suc, ◌+◌, ◌-◌, ◌<◌, ◌≡◌, refl, sym, ap, ap₂, ◌∙◌, subst, List, [], ◌∷◌, ◌++◌, map, Bool,
  true, false, ◌&&◌, leb, ◌==◌, if◌then◌else◌, length, get_or, range, arith, inl, inr, Bool-cases,
  get_or-append, get_or-map_lt, length-append,
}
use quickstep_streaming.Utility.BitVector.Bits.{bit_at}
use quickstep_streaming.Common.TupleIdSequence.{TupleIdSequence, set}
use quickstep_streaming.Common.TupleIdSequence.Iteration.{members}
use quickstep_streaming.Common.TupleIdSequence.Sets.{Holds, Holds-ext, set-Holds}
use quickstep_streaming.Types.Values.{TypedValue, null}
use quickstep_streaming.Types.Comparator.{set_each, set_aligned, set_counted}

-- The bits after a loop over the ids of `t` from `i` on.
pub set_each-members :
    (count i n : ℕ) (result t : TupleIdSequence) (p φ test : ℕ → Bool)
    → Holds t n φ
    → i + count ≡ n
    → Holds result n p
    → Holds
        (set_each result (members t count i) test)
        n
        (λ j. if leb i j && φ j then test j else p j)
unfolding set_each members
set_each-members zero i n result t p φ test ht h hr =
    Holds-ext result n p (λ j. if leb i j && φ j then test j else p j) (λ j lt. ground arith) hr
set_each-members (suc count) i n result t p φ test ht h hr = elim (Bool-cases (bit_at t i)) [
  | inl member ↦
      let φi : φ i ≡ true = sym (ht.bits i (omega arith)) ∙ member in
      let step = set-Holds result n p i (test i) hr (omega arith) in
      rw member (
        Holds-ext _ n _ (λ j. if leb i j && φ j then test j else p j) (λ j lt. split j φi)
          (set_each-members count (suc i) n (set result i (test i)) t
            (λ j. if j == i then test i else p j) φ test ht (omega arith) step))
  | inr other ↦
      let φi : φ i ≡ false = sym (ht.bits i (omega arith)) ∙ other in
      rw other (
        Holds-ext _ n _ (λ j. if leb i j && φ j then test j else p j) (λ j lt. skip j φi)
          (set_each-members count (suc i) n result t p φ test ht (omega arith) hr))
]
  where
    split :
        (j : ℕ)
        → φ i ≡ true
        → (if leb (suc i) j && φ j then test j else (if j == i then test i else p j))
          ≡ (if leb i j && φ j then test j else p j)
    split j e = elim (Bool-cases (j == i)) [
      | inl same ↦ let q : j ≡ i = ground arith in rw q (ground arith)
      | inr apart ↦ ground arith
    ]

    skip :
        (j : ℕ)
        → φ i ≡ false
        → (if leb (suc i) j && φ j then test j else p j) ≡ (if leb i j && φ j then test j else p j)
    skip j e = elim (Bool-cases (j == i)) [
      | inl same ↦ let q : j ≡ i = ground arith in rw q (ground arith)
      | inr apart ↦ ground arith
    ]

pub set_each-range :
    (count i n : ℕ) (result : TupleIdSequence) (p test : ℕ → Bool)
    → i + count ≡ n
    → Holds result n p
    → Holds (set_each result (range count i) test) n (λ j. if leb i j then test j else p j)
unfolding set_each
set_each-range zero i n result p test h hr =
    Holds-ext result n p (λ j. if leb i j then test j else p j) (λ j lt. ground arith) hr
set_each-range (suc count) i n result p test h hr =
    Holds-ext _ n _ (λ j. if leb i j then test j else p j) (λ j lt. split j)
      (set_each-range count (suc i) n (set result i (test i)) (λ j. if j == i then test i else p j)
        test (omega arith) (set-Holds result n p i (test i) hr (omega arith)))
  where
    split :
        (j : ℕ)
        → (if leb (suc i) j then test j else (if j == i then test i else p j))
          ≡ (if leb i j then test j else p j)
    split j = elim (Bool-cases (j == i)) [
      | inl same ↦ let q : j ≡ i = ground arith in rw q (ground arith)
      | inr apart ↦ ground arith
    ]

-- The loop that counts along positions `i`, `i + 1`, … writes where it reads.
pub set_counted-range :
    (count i : ℕ) (result : TupleIdSequence) (test : ℕ → ℕ → Bool)
    → set_counted result (range count i) i test ≡ set_each result (range count i) (λ j. test j j)
unfolding set_counted set_each
set_counted-range zero i result test = refl
set_counted-range (suc count) i result test =
    set_counted-range count (suc i) (set result i (test i i)) test

module _ {V : Type 0} where
  -- The values of a column from `pos` on are those of `g` at the ids.
  abbrev pub Aligned : List (TypedValue V) → ℕ → List ℕ → (ℕ → TypedValue V) → Type 0
  Aligned cv pos [] g = Unit {0}
  Aligned cv pos (id ∷ rest) g = (get_or cv pos null ≡ g id) × Aligned cv (suc pos) rest g

  Aligned-append :
      (before : List (TypedValue V)) (ids : List ℕ) (g : ℕ → TypedValue V) (pos : ℕ)
      → length before ≡ pos
      → Aligned (before ++ map g ids) pos ids g
  Aligned-append before [] g pos h = tt
  Aligned-append before (id ∷ rest) g pos h =
      let next : before ++ map g (id ∷ rest) ≡ (before ++ g id ∷ []) ++ map g rest =
        sym (append_one before (map g rest)) in
      (
        head_at,
        subst (λ cv. Aligned cv (suc pos) rest g) (sym next)
            (Aligned-append (before ++ g id ∷ []) rest g (suc pos)
              (omega (arith, length-append before (g id ∷ [])))),
      )
    where
      append_one : (xs ys : List (TypedValue V)) → (xs ++ g id ∷ []) ++ ys ≡ xs ++ g id ∷ ys
      append_one [] ys = refl
      append_one (x ∷ xs) ys = ap (◌∷◌ x) (append_one xs ys)

      head_at : get_or (before ++ g id ∷ map g rest) pos null ≡ g id
      head_at =
          get_or-append before (g id ∷ map g rest) pos null
          ∙ rw h (let z : pos - pos ≡ zero = omega arith in rw z (ground arith))

  pub Aligned-map : (ids : List ℕ) (g : ℕ → TypedValue V) → Aligned (map g ids) 0 ids g
  Aligned-map ids g = Aligned-append [] ids g 0 refl

-- Two tests agree along the ids, of which the first sees the place too.
abbrev pub Agree : (ℕ → ℕ → Bool) → (ℕ → Bool) → ℕ → List ℕ → Type 0
Agree test test' pos [] = Unit {0}
Agree test test' pos (id ∷ rest) = (test id pos ≡ test' id) × Agree test test' (suc pos) rest

-- With an aligned column the loop in lockstep is the loop over the ids.
pub set_aligned-set_each :
    (ids : List ℕ) (result : TupleIdSequence) (pos : ℕ) (test : ℕ → ℕ → Bool) (test' : ℕ → Bool)
    → Agree test test' pos ids
    → set_aligned result ids pos (length ids) test ≡ set_each result ids test'
unfolding set_aligned set_each
set_aligned-set_each [] result pos test test' a = refl
set_aligned-set_each (id ∷ rest) result pos test test' a =
    set_aligned-set_each rest (set result id (test id pos)) (suc pos) test test' a.1
    ∙ ap (λ v. set_each (set result id v) rest test') a.0

get_or-range : (count i j : ℕ) → j < count → get_or (range count i) j 0 ≡ i + j
get_or-range zero i j h = absurd (omega arith)
get_or-range (suc count) i zero h = omega arith
get_or-range (suc count) i (suc j) h = get_or-range count (suc i) j (omega arith) ∙ omega arith

pub length-range : (count i : ℕ) → length (range count i) ≡ count
length-range zero i = refl
length-range (suc count) i = omega (arith, length-range count (suc i))

module _ {V : Type 0} where
  pub Agree-column :
      (ids : List ℕ) (pos : ℕ) (cv : List (TypedValue V)) (g : ℕ → TypedValue V)
      (T : ℕ → TypedValue V → Bool)
      → Aligned cv pos ids g
      → Agree (λ id k. T id (get_or cv k null)) (λ id. T id (g id)) pos ids
  Agree-column [] pos cv g T a = tt
  Agree-column (id ∷ rest) pos cv g T a = (ap (T id) a.0, Agree-column rest (suc pos) cv g T a.1)

  pub Agree-two_columns :
      (ids : List ℕ) (pos : ℕ) (cv dv : List (TypedValue V)) (g h : ℕ → TypedValue V)
      (T : TypedValue V → TypedValue V → Bool)
      → Aligned cv pos ids g
      → Aligned dv pos ids h
      → Agree (λ id k. T (get_or cv k null) (get_or dv k null)) (λ id. T (g id) (h id)) pos ids
  Agree-two_columns [] pos cv dv g h T a b = tt
  Agree-two_columns (id ∷ rest) pos cv dv g h T a b =
      (ap₂ T a.0 b.0, Agree-two_columns rest (suc pos) cv dv g h T a.1 b.1)

  -- The column of the values at 0, 1, … has at place `j` the value at `j`.
  pub get_or-map-range :
      (n j : ℕ) (g : ℕ → TypedValue V) → j < n → get_or (map g (range n 0)) j null ≡ g j
  get_or-map-range n j g h =
      get_or-map_lt g (range n 0) j 0 null (omega (arith, length-range n 0))
      ∙ ap g (get_or-range n 0 j h ∙ omega arith)
