-- ===== src/Types/Comparator/Filtered.antt =====
-- The comparator's methods on columns that hold the values of the tuples in a filter alone.
use quickstep_streaming.Prelude.{
  ℕ, ◌<◌, ◌≡◌, sym, ap, ◌∙◌, subst, List, map, Bool, not, ◌&&◌, none, some, length, get_or,
  length-map, if_both,
}
use quickstep_streaming.Common.TupleIdSequence.{TupleIdSequence, tuple_id_limit, ids}
use quickstep_streaming.Common.TupleIdSequence.Sets.{Holds, Holds-ext}
use quickstep_streaming.Types.Values.{TypedValue, null, is_null, Tuple}
use quickstep_streaming.Types.Accessor.{
  tuple_vector, id_sequence_adapter, positions, typed_value_at_absolute_position,
}
use quickstep_streaming.Types.Comparator.{
  Comparator, ColumnVector, compare_typed_values, side_nullable, test_static, test_pair,
  compare_column_vectors, column_static_loop, result_length, compare_column_vector_and_static_value,
  compare_column_vector_and_value_accessor,
}
use quickstep_streaming.Types.Comparator.Loops.{
  Aligned, Aligned-map, Agree-column, Agree-two_columns,
}
use quickstep_streaming.Types.Comparator.Laws.{
  ordered, test_pair-ordered, test_static-ordered, positions-ids, aligned-Holds,
}
use quickstep_streaming.Types.Comparator.Methods.{none_match}

module _ {V : Type 0} (c : Comparator V) (ts : List (Tuple V)) (small : length ts < tuple_id_limit)
    (f : TupleIdSequence) (φ : ℕ → Bool) (h : Holds f (length ts) φ) where
  -- The column of `g` over the filter.
  column : (ℕ → TypedValue V) → ColumnVector V
  column g = map g (positions (id_sequence_adapter ts f))

  column-ids : (g : ℕ → TypedValue V) → column g ≡ map g (ids f)
  unfolding column
  column-ids g = ap (map g) (positions-ids ts small f φ h)

  length-column : (g : ℕ → TypedValue V) → length (column g) ≡ length (ids f)
  length-column g = ap length (column-ids g) ∙ length-map g (ids f)

  Aligned-column : (g : ℕ → TypedValue V) → Aligned (column g) 0 (ids f) g
  Aligned-column g =
      subst (λ cv. Aligned cv 0 (ids f) g) (sym (column-ids g)) (Aligned-map (ids f) g)

  pub filtered_static-Holds :
      (on_left : Bool) (v : TypedValue V) (g : ℕ → TypedValue V)
      → Holds
          (compare_column_vector_and_static_value c on_left
            (map g (positions (id_sequence_adapter ts f)))
            v
            none
            (some f))
          (length ts)
          (λ j. φ j && ordered c on_left (g j) v)
  unfolding compare_column_vector_and_static_value column_static_loop result_length column
  filtered_static-Holds on_left v g =
      if_both (λ r. Holds r (length ts) (λ j. φ j && ordered c on_left (g j) v))
        (side_nullable c (not on_left) && is_null v) _ _
        (none_match c ts small on_left v f.num_bits φ g h.size)
        λ known.
          Holds-ext _ (length ts) _ (λ j. φ j && ordered c on_left (g j) v)
            (λ j lt. ap (λ b. φ j && b) (test_static-ordered c on_left (g j) v known))
            (aligned-Holds ts small f φ h (length (column g))
              (λ id k. test_static c on_left (get_or (column g) k null) v)
              (λ id. test_static c on_left (g id) v) (length-column g)
              (Agree-column (ids f) 0 (column g) g (λ id u. test_static c on_left u v)
                (Aligned-column g)))

  pub filtered_value_accessor-Holds :
      (on_left : Bool) (attr : ℕ) (g : ℕ → TypedValue V)
      → Holds
          (compare_column_vector_and_value_accessor c on_left
            (map g (positions (id_sequence_adapter ts f)))
            (id_sequence_adapter ts f)
            attr
            none
            (some f))
          (length ts)
          (λ j.
            φ j
            && ordered c on_left (g j) (typed_value_at_absolute_position (tuple_vector ts) attr j))
  unfolding compare_column_vector_and_value_accessor column
  filtered_value_accessor-Holds on_left attr g =
      let g' = typed_value_at_absolute_position (tuple_vector ts) attr in
      Holds-ext _ (length ts) _ (λ j. φ j && ordered c on_left (g j) (g' j))
        (λ j lt. ap (λ b. φ j && b) (test_pair-ordered c on_left (g j) (g' j)))
        (aligned-Holds ts small f φ h (length (column g))
          (λ id k. test_pair c on_left (get_or (column g) k null) (g' id))
          (λ id. test_pair c on_left (g id) (g' id)) (length-column g)
          (Agree-column (ids f) 0 (column g) g (λ id u. test_pair c on_left u (g' id))
            (Aligned-column g)))

  pub filtered_columns-Holds :
      (g g' : ℕ → TypedValue V)
      → Holds
          (compare_column_vectors c
            (map g (positions (id_sequence_adapter ts f)))
            (map g' (positions (id_sequence_adapter ts f)))
            none
            (some f))
          (length ts)
          (λ j. φ j && compare_typed_values c (g j) (g' j))
  unfolding compare_column_vectors column
  filtered_columns-Holds g g' =
      aligned-Holds ts small f φ h (length (column g))
        (λ id k. compare_typed_values c (get_or (column g) k null) (get_or (column g') k null))
        (λ id. compare_typed_values c (g id) (g' id)) (length-column g)
        (Agree-two_columns (ids f) 0 (column g) (column g') g g' (compare_typed_values c)
          (Aligned-column g) (Aligned-column g'))
