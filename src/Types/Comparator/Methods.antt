-- ===== src/Types/Comparator/Methods.antt =====
-- The comparator's methods on the tuples of a stream: what each result holds.
use quickstep_streaming.Prelude.{
  ℕ, ◌<◌, ◌≡◌, refl, sym, ap, ◌∙◌, subst, List, map, Bool, true, false, not, ◌&&◌, Option, none,
  length, get_or, range, arith, length-map, if_both,
}
use quickstep_streaming.Common.TupleIdSequence.{TupleIdSequence, tuple_id_limit, create}
use quickstep_streaming.Common.TupleIdSequence.Sets.{Holds, Holds-ext, create-Holds}
use quickstep_streaming.Types.Values.{TypedValue, null, is_null, Tuple}
use quickstep_streaming.Types.Accessor.{tuple_vector, positions, typed_value_at_absolute_position}
use quickstep_streaming.Types.Accessor.Iterate.{end_position_small, positions-tuple_vector}
use quickstep_streaming.Types.Comparator.{
  Comparator, ColumnVector, compare_typed_values, side_nullable, test_static, test_pair, set_each,
  set_counted, compare_column_vectors, column_static_loop, result_length,
  compare_column_vector_and_static_value, compare_single_value_accessor,
  compare_value_accessor_and_static_value, compare_column_vector_and_value_accessor,
}
use quickstep_streaming.Types.Comparator.Loops.{
  set_each-range, set_counted-range, length-range, get_or-map-range,
}
use quickstep_streaming.Types.Comparator.Laws.{
  Filters, ordered, test_pair-ordered, test_static-ordered, ordered_null, visited-Holds,
}

module _ {V : Type 0} (c : Comparator V) (ts : List (Tuple V))
    (small : length ts < tuple_id_limit) where
  -- Where the static side is NULL no id matches.
  pub none_match :
      (on_left : Bool) (v : TypedValue V) (k : ℕ) (φ : ℕ → Bool) (g : ℕ → TypedValue V)
      → k ≡ length ts
      → (side_nullable c (not on_left) && is_null v) ≡ true
      → Holds (create k) (length ts) (λ j. φ j && ordered c on_left (g j) v)
  none_match on_left v k φ g e h = rw e (
      Holds-ext (create (length ts)) (length ts) (λ j. false)
        (λ j. φ j && ordered c on_left (g j) v)
        (λ j lt. ground (arith, ordered_null c on_left (g j) v h)) (create-Holds (length ts) small))

  pub value_accessor_static-Holds :
      (on_left : Bool) (attr : ℕ) (v : TypedValue V) (filter : Option TupleIdSequence)
      (φ : ℕ → Bool)
      → Filters filter (length ts) φ
      → Holds
          (compare_value_accessor_and_static_value c on_left (tuple_vector ts) attr v filter)
          (length ts)
          (λ j.
            φ j && ordered c on_left (typed_value_at_absolute_position (tuple_vector ts) attr j) v)
  unfolding compare_value_accessor_and_static_value
  value_accessor_static-Holds on_left attr v filter φ h =
      let g = typed_value_at_absolute_position (tuple_vector ts) attr in
      rw (end_position_small ts small) (
        if_both (λ r. Holds r (length ts) (λ j. φ j && ordered c on_left (g j) v))
          (side_nullable c (not on_left) && is_null v) _ _
          (none_match on_left v (length ts) φ g refl)
          λ known.
            Holds-ext _ (length ts) _ (λ j. φ j && ordered c on_left (g j) v)
              (λ j lt. ap (λ b. φ j && b) (test_static-ordered c on_left (g j) v known))
              (visited-Holds ts small filter φ (λ j. test_static c on_left (g j) v) h))

  pub single_value_accessor-Holds :
      (l r : ℕ) (filter : Option TupleIdSequence) (φ : ℕ → Bool)
      → Filters filter (length ts) φ
      → Holds (compare_single_value_accessor c (tuple_vector ts) l r filter) (length ts) (λ j.
        φ j
        && compare_typed_values c
            (typed_value_at_absolute_position (tuple_vector ts) l j)
            (typed_value_at_absolute_position (tuple_vector ts) r j))
  unfolding compare_single_value_accessor
  single_value_accessor-Holds l r filter φ h =
      let g = typed_value_at_absolute_position (tuple_vector ts) l in
      let g' = typed_value_at_absolute_position (tuple_vector ts) r in
      rw (end_position_small ts small) (
        Holds-ext _ (length ts) _ (λ j. φ j && compare_typed_values c (g j) (g' j))
          (λ j lt. ap (λ b. φ j && b) (test_pair-ordered c true (g j) (g' j)))
          (visited-Holds ts small filter φ (λ j. test_pair c true (g j) (g' j)) h))

  -- The column of `g` at all tuples of the stream.
  column : (ℕ → TypedValue V) → ColumnVector V
  column g = map g (positions (tuple_vector ts))

  column-range : (g : ℕ → TypedValue V) → column g ≡ map g (range (length ts) 0)
  unfolding column
  column-range g = ap (map g) (positions-tuple_vector ts (omega arith))

  length-column : (g : ℕ → TypedValue V) → length (column g) ≡ length ts
  length-column g =
      ap length (column-range g) ∙ length-map g (range (length ts) 0) ∙ length-range (length ts) 0

  column_at : (g : ℕ → TypedValue V) (j : ℕ) → j < length ts → get_or (column g) j null ≡ g j
  column_at g j h =
      ap (λ cv. get_or cv j null) (column-range g) ∙ get_or-map-range (length ts) j g h

  every-Holds :
      (k : ℕ) (test test' : ℕ → Bool)
      → k ≡ length ts
      → ((j : ℕ) → j < length ts → test j ≡ test' j)
      → Holds (set_each (create k) (range k 0) test) (length ts) test'
  every-Holds k test test' e h = rw e (
      Holds-ext _ (length ts) _ test' (λ j lt. ground (arith, h j lt))
        (set_each-range (length ts) 0 (length ts) (create (length ts)) (λ j. false) test
          (omega arith) (create-Holds (length ts) small)))

  pub column_static-Holds :
      (on_left : Bool) (v : TypedValue V) (g : ℕ → TypedValue V)
      → Holds
          (compare_column_vector_and_static_value c on_left
            (map g (positions (tuple_vector ts)))
            v
            none
            none)
          (length ts)
          (λ j. true && ordered c on_left (g j) v)
  unfolding compare_column_vector_and_static_value column_static_loop result_length column
  column_static-Holds on_left v g =
      if_both (λ r. Holds r (length ts) (λ j. true && ordered c on_left (g j) v))
        (side_nullable c (not on_left) && is_null v) _ _
        (none_match on_left v (length (column g)) (λ j. true) g (length-column g))
        λ known.
          every-Holds (length (column g)) (λ j. test_static c on_left (get_or (column g) j null) v)
            (λ j. ordered c on_left (g j) v) (length-column g)
            (λ j lt.
              ap (λ u. test_static c on_left u v) (column_at g j lt)
              ∙ test_static-ordered c on_left (g j) v known)

  pub column_value_accessor-Holds :
      (on_left : Bool) (attr : ℕ) (g : ℕ → TypedValue V)
      → Holds
          (compare_column_vector_and_value_accessor c on_left
            (map g (positions (tuple_vector ts)))
            (tuple_vector ts)
            attr
            none
            none)
          (length ts)
          (λ j.
            true
            && ordered c on_left (g j) (typed_value_at_absolute_position (tuple_vector ts) attr j))
  unfolding compare_column_vector_and_value_accessor column
  column_value_accessor-Holds on_left attr g =
      let g' = typed_value_at_absolute_position (tuple_vector ts) attr in
      let test = λ (id pos : ℕ). test_pair c on_left (get_or (column g) pos null) (g' id) in
      let made : length (column g) ≡ length ts = length-column g in
      subst (λ r. Holds r (length ts) (λ j. true && ordered c on_left (g j) (g' j)))
        (sym (
          ap (λ ps. set_counted (create (length (column g))) ps 0 test)
            (positions-tuple_vector ts (omega arith))
          ∙ set_counted-range (length ts) 0 (create (length (column g))) test
          ∙ ap (λ k. set_each (create (length (column g))) (range k 0) (λ j. test j j)) (sym made)))
        (every-Holds (length (column g)) (λ j. test j j) (λ j. ordered c on_left (g j) (g' j)) made
          (λ j lt.
            ap (λ u. test_pair c on_left u (g' j)) (column_at g j lt)
            ∙ test_pair-ordered c on_left (g j) (g' j)))

  pub columns-Holds :
      (g g' : ℕ → TypedValue V)
      → Holds
          (compare_column_vectors c
            (map g (positions (tuple_vector ts)))
            (map g' (positions (tuple_vector ts)))
            none
            none)
          (length ts)
          (λ j. true && compare_typed_values c (g j) (g' j))
  unfolding compare_column_vectors column
  columns-Holds g g' =
      every-Holds (length (column g))
        (λ j. compare_typed_values c (get_or (column g) j null) (get_or (column g') j null))
        (λ j. compare_typed_values c (g j) (g' j)) (length-column g)
        (λ j lt.
          ap (λ u. compare_typed_values c u (get_or (column g') j null)) (column_at g j lt)
          ∙ ap (compare_typed_values c (g j)) (column_at g' j lt))
