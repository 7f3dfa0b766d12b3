-- ===== src/StreamingOperators/Select/Columns.antt =====
-- The rows read from the columns of the select expressions.
use quickstep_streaming.Prelude.{
  ℕ, zero, suc, ◌+◌, ◌%◌, ◌≤◌, ◌<◌, ◌≡◌, refl, sym, ap, ap₂, ◌∙◌, List, [], ◌∷◌, map, Bool, Option,
  none, some, length, get_or, replicate, range, arith, length-map, get_or-map_lt,
}
use quickstep_streaming.Common.TupleIdSequence.{
  TupleIdSequence, size_t_mod, tuple_id_limit, to_tuple_id, to_tuple_id_small,
  num_tuples as ids_count, before_begin,
}
use quickstep_streaming.Common.TupleIdSequence.Iteration.{num_tuples-members, ids_count-le}
use quickstep_streaming.Types.Values.{TypedValue, null, Tuple}
use quickstep_streaming.Types.Accessor.{
  tuple_vector, num_tuples, positions, create_shared_tuple_id_sequence_adapter,
}
use quickstep_streaming.Types.Accessor.Iterate.{
  positions-tuple_vector, positions-id_sequence_adapter,
}
use quickstep_streaming.Types.Comparator.Loops.{length-range}
use quickstep_streaming.Types.Comparator.Laws.{Filters}
use quickstep_streaming.Expressions.Scalar.{
  Scalar, attribute, literal_value, expression, value_for_single_tuple, all_values,
}
use quickstep_streaming.StreamingOperators.Select.{
  selected_accessor, column_length, column_positions, column_tuples,
}

column_positions-range :
    (count fuel len i position : ℕ)
    → len < size_t_mod
    → i + count ≡ len
    → suc count ≤ fuel
    → (position + 1) % size_t_mod ≡ i
    → column_positions fuel len position ≡ range count i
unfolding column_positions
column_positions-range count zero len i position small h enough at = absurd (omega arith)
column_positions-range zero (suc fuel) len i position small h enough at = ground arith
column_positions-range (suc count) (suc fuel) len i position small h enough at =
    let rest =
      column_positions-range count fuel len (suc i) i small (omega arith) (omega arith)
        (omega arith) in
    rw at (ground (arith, rest))

module _ {A B : Type 0} (h : A → B) (d : A) where
  map-get_or-range :
      (xs : List A) (k : ℕ → B) (i : ℕ)
      → ((j m : ℕ) → j ≡ m + i → m < length xs → k j ≡ h (get_or xs m d))
      → map k (range (length xs) i) ≡ map h xs
  map-get_or-range [] k i e = refl
  map-get_or-range (x ∷ xs) k i e =
      ap₂ (λ a b. a ∷ b) (e i 0 (omega arith) (omega arith))
        (map-get_or-range xs k (suc i) (λ j m e' lt. e j (suc m) (omega arith) (omega arith)))

-- The columns that the functions `fs` make over the same positions.
unfoldable pub columns :
    {V A : Type 0} → List A → List (A → TypedValue V) → List (List (TypedValue V))
columns P fs = map (λ f. map f P) fs

module _ {V A : Type 0} (d : A) (P : List A) (small : length P < tuple_id_limit) where
  column_length-columns :
      (f : A → TypedValue V) (fs : List (A → TypedValue V))
      → column_length (columns P (f ∷ fs)) ≡ length P
  unfolding column_length columns
  column_length-columns f [] = length-map f P
  column_length-columns f (f' ∷ fs) = column_length-columns f' fs

  row-columns :
      (fs : List (A → TypedValue V)) (m : ℕ)
      → m < length P
      → map (λ c. get_or c m null) (columns P fs) ≡ map (λ f. f (get_or P m d)) fs
  unfolding columns
  row-columns [] m lt = refl
  row-columns (f ∷ fs) m lt =
      ap₂ (λ a b. a ∷ b) (get_or-map_lt f P m d null lt) (row-columns fs m lt)

  pub column_tuples-rows :
      (f : A → TypedValue V) (fs : List (A → TypedValue V))
      → column_tuples (columns P (f ∷ fs)) ≡ map (λ a. map (λ g. g a) (f ∷ fs)) P
  unfolding column_tuples
  column_tuples-rows f fs =
      let n = column_length-columns f fs in
      let at =
        column_positions-range (length P) (suc (length P)) (length P) 0 before_begin (omega arith)
          (omega arith) (omega arith) refl in
      rw (n, at)
        (map-get_or-range (λ a. map (λ g. g a) (f ∷ fs)) d P _ 0
          (λ j m e lt.
            let same : to_tuple_id j ≡ m = to_tuple_id_small j (omega arith) ∙ omega arith in
            ap (λ i. map (λ c. get_or c i null) (columns P (f ∷ fs))) same
            ∙ row-columns (f ∷ fs) m lt))

map-constant :
    {V : Type 0} (v : TypedValue V) (xs : List ℕ) → replicate (length xs) v ≡ map (λ j. v) xs
map-constant v [] = refl
map-constant v (x ∷ xs) = ap (λ r. v ∷ r) (map-constant v xs)

module _ {V : Type 0} (ts : List (Tuple V)) (small : length ts < tuple_id_limit) where
  -- `num_tuples` of the accessor that is left is the length of its iteration.
  num_tuples-positions :
      (r : Option TupleIdSequence) (φ : ℕ → Bool)
      → Filters r (length ts) φ
      → num_tuples (selected_accessor (tuple_vector ts) r)
        ≡ length (positions (selected_accessor (tuple_vector ts) r))
  unfolding num_tuples selected_accessor create_shared_tuple_id_sequence_adapter
  num_tuples-positions none φ h =
      rw (positions-tuple_vector ts (omega arith))
        (to_tuple_id_small (length ts) small ∙ sym (length-range (length ts) 0))
  num_tuples-positions (some f) φ h =
      let inside : f.num_bits < size_t_mod = omega (arith, h.size) in
      to_tuple_id_small (ids_count f) (omega (arith, h.size, ids_count-le f h.valid))
      ∙ num_tuples-members f h.valid
      ∙ ap length (sym (positions-id_sequence_adapter ts f h.valid (omega (arith, inside))))

  -- `all_values` over the accessor that is left has one value for each position of its iteration.
  pub all_values-map :
      (e : Scalar V) (r : Option TupleIdSequence) (φ : ℕ → Bool)
      → Filters r (length ts) φ
      → all_values e (selected_accessor (tuple_vector ts) r)
        ≡ map
            (λ j. value_for_single_tuple e (tuple_vector ts) j)
            (positions (selected_accessor (tuple_vector ts) r))
  unfolding all_values value_for_single_tuple selected_accessor
      create_shared_tuple_id_sequence_adapter
  all_values-map (attribute attr) none φ h = refl
  all_values-map (attribute attr) (some f) φ h = refl
  all_values-map (expression g) none φ h = refl
  all_values-map (expression g) (some f) φ h = refl
  all_values-map (literal_value v) none φ h = rw (num_tuples-positions none φ h) (map-constant v _)
  all_values-map (literal_value v) (some f) φ h =
      rw (num_tuples-positions (some f) φ h) (map-constant v _)
