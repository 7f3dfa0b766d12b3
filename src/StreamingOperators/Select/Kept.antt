-- ===== src/StreamingOperators/Select/Kept.antt =====
-- What a select means tuple by tuple, and the positions that are left after its predicates.
use quickstep_streaming.Prelude.{
  ℕ, suc, ◌+◌, ◌<◌, ◌≡◌, refl, sym, ap, ap₂, ◌∙◌, List, [], ◌∷◌, map, Bool, true, not, ◌&&◌, Option,
  none, some, if◌then◌else◌, length, get_or, range, arith, inl, inr, Bool-cases,
}
use quickstep_streaming.Common.TupleIdSequence.{
  TupleIdSequence, tuple_id_limit, to_tuple_id, to_tuple_id_small,
}
use quickstep_streaming.Common.TupleIdSequence.Iteration.{members}
use quickstep_streaming.Common.TupleIdSequence.Sets.{Holds-ext}
use quickstep_streaming.Utility.BitVector.Bits.{bit_at}
use quickstep_streaming.Types.Values.{TypedValue, Tuple}
use quickstep_streaming.Types.Accessor.{
  tuple_vector, positions, create_shared_tuple_id_sequence_adapter,
}
use quickstep_streaming.Types.Accessor.Iterate.{
  positions-tuple_vector, positions-id_sequence_adapter,
}
use quickstep_streaming.Types.Comparator.Laws.{Filters}
use quickstep_streaming.Expressions.Scalar.{
  Scalar, attribute, literal_value, expression, value_for_single_tuple,
}
use quickstep_streaming.Expressions.Predicate.{
  Predicate, Predicates, true_predicate, false_predicate, comparison, negation, conjunction,
  disjunction, nil, cons, get_all_matches,
}
use quickstep_streaming.Expressions.Predicate.Meaning.{
  meaning, every_meaning, some_meaning, IsBuilt,
}
use quickstep_streaming.Expressions.Predicate.All.{get_all_matches-meaning}
use quickstep_streaming.StreamingOperators.Select.{filter_input, selected_accessor}

module _ {V : Type 0} where
  -- A scalar and a predicate on one tuple, with no accessor around it.
  unfoldable pub value_on : Scalar V → Tuple V → TypedValue V
  value_on e t = value_for_single_tuple e (tuple_vector (t ∷ [])) 0

  unfoldable pub meaning_on : Predicate V → Tuple V → Bool
  meaning_on p t = meaning p (tuple_vector (t ∷ [])) 0

  unfoldable pub accepts : List (Predicate V) → Tuple V → Bool
  accepts [] t = true
  accepts (p ∷ ps) t = meaning_on p t && accepts ps t

  pub value-on :
      (e : Scalar V) (ts : List (Tuple V)) (j : ℕ)
      → value_for_single_tuple e (tuple_vector ts) j ≡ value_on e (get_or ts (to_tuple_id j) [])
  unfolding value_for_single_tuple value_on to_tuple_id
  value-on (attribute attr) ts j = refl
  value-on (literal_value v) ts j = refl
  value-on (expression f) ts j = refl

mutual
  unfolding meaning every_meaning some_meaning value_on to_tuple_id

  on_tuple :
      {V : Type 0} (p : Predicate V) (ts : List (Tuple V)) (j : ℕ)
      → meaning p (tuple_vector ts) j
        ≡ meaning p (tuple_vector (get_or ts (to_tuple_id j) [] ∷ [])) 0
  on_tuple true_predicate ts j = refl
  on_tuple false_predicate ts j = refl
  on_tuple (comparison c) ts j =
      rw (value-on c.left_operand ts j, value-on c.right_operand ts j) refl
  on_tuple (negation p has b) ts j = ap not (on_tuple p ts j)
  on_tuple (conjunction s d has b) ts j = rw (every_on_tuple s ts j, every_on_tuple d ts j) refl
  on_tuple (disjunction s d has b fresh) ts j = rw (some_on_tuple s ts j, some_on_tuple d ts j) refl

  every_on_tuple :
      {V : Type 0} (ps : Predicates V) (ts : List (Tuple V)) (j : ℕ)
      → every_meaning ps (tuple_vector ts) j
        ≡ every_meaning ps (tuple_vector (get_or ts (to_tuple_id j) [] ∷ [])) 0
  every_on_tuple nil ts j = refl
  every_on_tuple (cons p ps) ts j = rw (on_tuple p ts j, every_on_tuple ps ts j) refl

  some_on_tuple :
      {V : Type 0} (ps : Predicates V) (ts : List (Tuple V)) (j : ℕ)
      → some_meaning ps (tuple_vector ts) j
        ≡ some_meaning ps (tuple_vector (get_or ts (to_tuple_id j) [] ∷ [])) 0
  some_on_tuple nil ts j = refl
  some_on_tuple (cons p ps) ts j = rw (on_tuple p ts j, some_on_tuple ps ts j) refl

-- Each of a list of predicates is built.
unfoldable pub AllBuilt : {V : Type 0} → List (Predicate V) → Type 0
AllBuilt [] = Unit
AllBuilt (p ∷ ps) = IsBuilt p × AllBuilt ps

Filters-ext :
    (r : Option TupleIdSequence) (n : ℕ) (φ ψ : ℕ → Bool)
    → ((j : ℕ) → φ j ≡ ψ j)
    → Filters r n φ
    → Filters r n ψ
Filters-ext none n φ ψ e h = λ i. sym (e i) ∙ h i
Filters-ext (some f) n φ ψ e h = Holds-ext f n φ ψ (λ j lt. e j) h

module _ {V : Type 0} (ts : List (Tuple V)) (small : length ts < tuple_id_limit) where
  -- The filter left by the loop over the predicates.
  pub filter_input-Filters :
      (ps : List (Predicate V)) (r : Option TupleIdSequence) (φ : ℕ → Bool)
      → AllBuilt ps
      → Filters r (length ts) φ
      → Filters
          (filter_input ps (tuple_vector ts) r)
          (length ts)
          (λ j. φ j && accepts ps (get_or ts (to_tuple_id j) []))
  unfolding filter_input accepts AllBuilt meaning_on
  filter_input-Filters [] none φ built h = λ i. ground (arith, h i)
  filter_input-Filters [] (some f) φ built h = Holds-ext f (length ts) φ _ (λ j lt. ground arith) h
  filter_input-Filters (p ∷ ps) r φ (bp, bs) h =
      Filters-ext _ (length ts)
        (λ j. (φ j && meaning p (tuple_vector ts) j) && accepts ps (get_or ts (to_tuple_id j) [])) _
        (λ j. ground (arith, on_tuple p ts j))
        (filter_input-Filters ps (some (get_all_matches p (tuple_vector ts) r none))
          (λ j. φ j && meaning p (tuple_vector ts) j) bs
          (get_all_matches-meaning p ts r φ small bp h))

-- The elements that a test keeps.
unfoldable pub keep : {A : Type 0} → (A → Bool) → List A → List A
keep q [] = []
keep q (x ∷ xs) = if q x then x ∷ keep q xs else keep q xs

module _ {A B : Type 0} (g : A → B) (q : A → Bool) (d : A) where
  -- A scan of positions against the list of what stands there.
  map-members :
      (xs : List A) (k : ℕ → B) (s : TupleIdSequence) (i : ℕ)
      → ((j m : ℕ) → j ≡ m + i → m < length xs → k j ≡ g (get_or xs m d))
      → ((j m : ℕ) → j ≡ m + i → m < length xs → bit_at s j ≡ q (get_or xs m d))
      → map k (members s (length xs) i) ≡ map g (keep q xs)
  unfolding members keep
  map-members [] k s i h h' = refl
  map-members (x ∷ xs) k s i h h' =
      let here : k i ≡ g x = h i 0 (omega arith) (omega arith) in
      let here' : bit_at s i ≡ q x = h' i 0 (omega arith) (omega arith) in
      let rest =
        map-members xs k s (suc i) (λ j m e lt. h j (suc m) (omega arith) (omega arith))
          (λ j m e lt. h' j (suc m) (omega arith) (omega arith)) in
      elim (Bool-cases (q x)) [
        | inl e ↦ rw (here', e) (ap₂ (λ a b. a ∷ b) here rest)
        | inr e ↦ rw (here', e) rest
      ]

  map-range :
      (xs : List A) (k : ℕ → B) (i : ℕ)
      → ((j m : ℕ) → j ≡ m + i → m < length xs → k j ≡ g (get_or xs m d))
      → ((m : ℕ) → m < length xs → q (get_or xs m d) ≡ true)
      → map k (range (length xs) i) ≡ map g (keep q xs)
  unfolding keep
  map-range [] k i h h' = refl
  map-range (x ∷ xs) k i h h' =
      let here : k i ≡ g x = h i 0 (omega arith) (omega arith) in
      let rest =
        map-range xs k (suc i) (λ j m e lt. h j (suc m) (omega arith) (omega arith))
          (λ m lt. h' (suc m) (omega arith)) in
      rw (h' 0 (omega arith)) (ap₂ (λ a b. a ∷ b) here rest)

module _ {V : Type 0} (ts : List (Tuple V)) (small : length ts < tuple_id_limit) where
  -- On a stream shorter than 2 ^ 31, with well-formed predicates, a loop over the accessor that the
  -- predicates leave reads just the tuples that all predicates accept, in order.
  pub selected_positions :
      {B : Type 0} (ps : List (Predicate V)) (g : Tuple V → B)
      → AllBuilt ps
      → map
          (λ j. g (get_or ts (to_tuple_id j) []))
          (positions (selected_accessor (tuple_vector ts) (filter_input ps (tuple_vector ts) none)))
        ≡ map g (keep (accepts ps) ts)
  unfolding selected_accessor create_shared_tuple_id_sequence_adapter members
  selected_positions ps g built =
      by (filter_input ps (tuple_vector ts) none)
        (filter_input-Filters ts small ps none (λ j. true) built (λ i. refl))
    where
      read_at : (j m : ℕ) → j ≡ m → m < length ts → to_tuple_id j ≡ m
      read_at j m e lt = to_tuple_id_small j (omega arith) ∙ e

      by :
          (r : Option TupleIdSequence)
          → Filters r (length ts) (λ j. true && accepts ps (get_or ts (to_tuple_id j) []))
          → map
              (λ j. g (get_or ts (to_tuple_id j) []))
              (positions (selected_accessor (tuple_vector ts) r))
            ≡ map g (keep (accepts ps) ts)
      by none h = rw (positions-tuple_vector ts (omega arith)) (
          map-range g (accepts ps) [] ts (λ j. g (get_or ts (to_tuple_id j) [])) 0
            (λ j m e lt. ap (λ i. g (get_or ts i [])) (read_at j m (omega arith) lt))
            (λ m lt. ap (λ i. accepts ps (get_or ts i [])) (sym (read_at m m refl lt)) ∙ h m))
      by (some f) h =
          let inside : f.num_bits < tuple_id_limit = omega (arith, h.size) in
          rw (positions-id_sequence_adapter ts f h.valid (omega (arith, inside)), h.size)
            (map-members g (accepts ps) [] ts (λ j. g (get_or ts (to_tuple_id j) [])) f 0
              (λ j m e lt. ap (λ i. g (get_or ts i [])) (read_at j m (omega arith) lt))
              (λ j m e lt.
                let same : j ≡ m = omega arith in
                ap (bit_at f) same
                ∙ h.bits m lt
                ∙ ap (λ i. accepts ps (get_or ts i [])) (read_at m m refl lt)))
