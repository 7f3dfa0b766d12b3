-- ===== src/Expressions/Comparison/Matches.antt =====
-- `getAllMatches` of a comparison finds the tuples for which `matchesForSingleTuple` holds.
use quickstep_streaming.Prelude.{
  ℕ, ◌<◌, ◌≡◌, refl, sym, subst, List, Bool, true, false, ◌&&◌, Option, none, some, length, arith,
}
use mathlib.Core.Option.{some-injective}
use quickstep_streaming.Common.TupleIdSequence.{TupleIdSequence, tuple_id_limit, create, set_range}
use quickstep_streaming.Common.TupleIdSequence.Sets.{
  Holds, Holds-ext, create-Holds, set_range-Holds, assign_from-Holds,
}
use quickstep_streaming.Types.Values.{TypedValue, Tuple}
use quickstep_streaming.Types.Accessor.{
  tuple_vector, tuple_at, typed_value_at_absolute_position, create_shared_tuple_id_sequence_adapter,
}
use quickstep_streaming.Types.Accessor.Iterate.{end_position_small}
use quickstep_streaming.Types.Comparator.{Comparator, compare_typed_values}
use quickstep_streaming.Types.Comparator.Laws.{Filters, ordered}
use quickstep_streaming.Types.Comparator.Methods.{
  value_accessor_static-Holds, single_value_accessor-Holds, column_static-Holds,
  column_value_accessor-Holds, columns-Holds,
}
use quickstep_streaming.Types.Comparator.Filtered.{
  filtered_static-Holds, filtered_value_accessor-Holds, filtered_columns-Holds,
}
use quickstep_streaming.Expressions.Scalar.{
  Scalar, attribute, literal_value, expression, static_value, value_for_single_tuple, all_values,
}
use quickstep_streaming.Expressions.Comparison.{
  Comparison, make_comparison, init_static_result, single_tuple_by, all_matches_by,
  generate_sequence_for_static_result, matches_for_single_tuple, get_all_matches,
  compare_with_static, compare_with_attribute, compare_two_columns, compare_dynamic,
}

module _ {V : Type 0} (ts : List (Tuple V)) (small : length ts < tuple_id_limit) where
  -- A static result gives all of the filter, or nothing.
  pub static_result-Holds :
      (filter : Option TupleIdSequence) (φ : ℕ → Bool) (b : Bool)
      → Filters filter (length ts) φ
      → Holds
          (generate_sequence_for_static_result (tuple_vector ts) filter none b)
          (length ts)
          (λ j. φ j && b)
  unfolding generate_sequence_for_static_result
  static_result-Holds filter φ false h = rw (end_position_small ts small) (
      Holds-ext (create (length ts)) (length ts) (λ j. false) (λ j. φ j && false)
        (λ j lt. ground arith) (create-Holds (length ts) small))
  static_result-Holds (some f) φ true h = rw (end_position_small ts small) (
      Holds-ext _ (length ts) φ (λ j. φ j && true) (λ j lt. ground arith)
        (assign_from-Holds (create (length ts)) f (length ts) (λ j. false) φ
          (create-Holds (length ts) small) h))
  static_result-Holds none φ true h =
      let made = create-Holds (length ts) small in
      rw (end_position_small ts small) (
        subst (λ k. Holds (set_range (create (length ts)) 0 k true) (length ts) (λ j. φ j && true))
          (sym made.size)
          (Holds-ext _ (length ts) (λ j. true) (λ j. φ j && true) (λ j lt. ground (arith, h j))
            (set_range-Holds (create (length ts)) (length ts) (λ j. false) made)))

module _ {V : Type 0} (c : Comparator V) (ts : List (Tuple V))
    (small : length ts < tuple_id_limit) where
  val : Scalar V → ℕ → TypedValue V
  val s j = value_for_single_tuple s (tuple_vector ts) j

  -- With no filter the conclusions read `true && …`.
  unfiltered :
      (r : TupleIdSequence) (φ test : ℕ → Bool)
      → ((i : ℕ) → φ i ≡ true)
      → Holds r (length ts) (λ j. true && test j)
      → Holds r (length ts) (λ j. φ j && test j)
  unfiltered r φ test all h =
      Holds-ext r (length ts) _ (λ j. φ j && test j) (λ j lt. ground (arith, all j)) h

  with_static-Holds :
      (on_left : Bool) (s : Scalar V) (v : TypedValue V) (filter : Option TupleIdSequence)
      (φ : ℕ → Bool)
      → static_value s ≡ none
      → Filters filter (length ts) φ
      → Holds
          (compare_with_static c on_left s v (tuple_vector ts) filter none)
          (length ts)
          (λ j. φ j && ordered c on_left (val s j) v)
  unfolding compare_with_static all_values val value_for_single_tuple
      create_shared_tuple_id_sequence_adapter
  with_static-Holds on_left (attribute attr) v filter φ e h =
      value_accessor_static-Holds c ts small on_left attr v filter φ h
  with_static-Holds on_left (literal_value u) v filter φ e h = cc
  with_static-Holds on_left (expression g) v (some f) φ e h =
      filtered_static-Holds c ts small f φ h on_left v (λ j. g (tuple_at (tuple_vector ts) j))
  with_static-Holds on_left (expression g) v none φ e h =
      unfiltered _ φ (λ j. ordered c on_left (g (tuple_at (tuple_vector ts) j)) v) h
        (column_static-Holds c ts small on_left v (λ j. g (tuple_at (tuple_vector ts) j)))

  with_attribute-Holds :
      (on_left : Bool) (g : Tuple V → TypedValue V) (attr : ℕ) (filter : Option TupleIdSequence)
      (φ : ℕ → Bool)
      → Filters filter (length ts) φ
      → Holds
          (compare_with_attribute c on_left (expression g) attr (tuple_vector ts) filter none)
          (length ts)
          (λ j. φ j && ordered c on_left (val (expression g) j) (val (attribute attr) j))
  unfolding compare_with_attribute all_values val value_for_single_tuple
      create_shared_tuple_id_sequence_adapter
  with_attribute-Holds on_left g attr (some f) φ h =
      filtered_value_accessor-Holds c ts small f φ h on_left attr
        (λ j. g (tuple_at (tuple_vector ts) j))
  with_attribute-Holds on_left g attr none φ h =
      unfiltered _ φ
        (λ j.
          ordered c on_left (g (tuple_at (tuple_vector ts) j))
            (typed_value_at_absolute_position (tuple_vector ts) attr j))
        h
        (column_value_accessor-Holds c ts small on_left attr
          (λ j. g (tuple_at (tuple_vector ts) j)))

  two_columns-Holds :
      (g g' : Tuple V → TypedValue V) (filter : Option TupleIdSequence) (φ : ℕ → Bool)
      → Filters filter (length ts) φ
      → Holds
          (compare_two_columns c (expression g) (expression g') (tuple_vector ts) filter none)
          (length ts)
          (λ j. φ j && compare_typed_values c (val (expression g) j) (val (expression g') j))
  unfolding compare_two_columns all_values val value_for_single_tuple
      create_shared_tuple_id_sequence_adapter
  two_columns-Holds g g' (some f) φ h =
      filtered_columns-Holds c ts small f φ h (λ j. g (tuple_at (tuple_vector ts) j))
        (λ j. g' (tuple_at (tuple_vector ts) j))
  two_columns-Holds g g' none φ h =
      unfiltered _ φ
        (λ j.
          compare_typed_values c (g (tuple_at (tuple_vector ts) j))
            (g' (tuple_at (tuple_vector ts) j)))
        h
        (columns-Holds c ts small (λ j. g (tuple_at (tuple_vector ts) j))
          (λ j. g' (tuple_at (tuple_vector ts) j)))

  dynamic-Holds :
      (l r : Scalar V) (filter : Option TupleIdSequence) (φ : ℕ → Bool)
      → static_value l ≡ none
      → static_value r ≡ none
      → Filters filter (length ts) φ
      → Holds
          (compare_dynamic c l r (tuple_vector ts) filter none)
          (length ts)
          (λ j. φ j && compare_typed_values c (val l j) (val r j))
  unfolding compare_dynamic val value_for_single_tuple
  dynamic-Holds (attribute l) (attribute r) filter φ e e' h =
      single_value_accessor-Holds c ts small l r filter φ h
  dynamic-Holds (attribute l) (expression g) filter φ e e' h =
      with_attribute-Holds false g l filter φ h
  dynamic-Holds (expression g) (attribute r) filter φ e e' h =
      with_attribute-Holds true g r filter φ h
  dynamic-Holds (expression g) (expression g') filter φ e e' h = two_columns-Holds g g' filter φ h
  dynamic-Holds (literal_value v) r filter φ e e' h = cc
  dynamic-Holds (attribute l) (literal_value v) filter φ e e' h = cc
  dynamic-Holds (expression g) (literal_value v) filter φ e e' h = cc

  by-Holds :
      (sr : Option Bool) (l r : Scalar V) (filter : Option TupleIdSequence) (φ : ℕ → Bool)
      → sr ≡ init_static_result c l r
      → Filters filter (length ts) φ
      → Holds
          (all_matches_by sr c l r (tuple_vector ts) filter none)
          (length ts)
          (λ j. φ j && single_tuple_by sr c l r (tuple_vector ts) j)
  unfolding all_matches_by single_tuple_by init_static_result val value_for_single_tuple
  by-Holds (some b) l r filter φ e h = static_result-Holds ts small filter φ b h
  by-Holds none (literal_value v) (literal_value u) filter φ e h = cc
  by-Holds none (literal_value v) (attribute r) filter φ e h =
      with_static-Holds false (attribute r) v filter φ refl h
  by-Holds none (literal_value v) (expression g) filter φ e h =
      with_static-Holds false (expression g) v filter φ refl h
  by-Holds none (attribute l) (literal_value u) filter φ e h =
      with_static-Holds true (attribute l) u filter φ refl h
  by-Holds none (expression g) (literal_value u) filter φ e h =
      with_static-Holds true (expression g) u filter φ refl h
  by-Holds none (attribute l) (attribute r) filter φ e h =
      dynamic-Holds (attribute l) (attribute r) filter φ refl refl h
  by-Holds none (attribute l) (expression g) filter φ e h =
      dynamic-Holds (attribute l) (expression g) filter φ refl refl h
  by-Holds none (expression g) (attribute r) filter φ e h =
      dynamic-Holds (expression g) (attribute r) filter φ refl refl h
  by-Holds none (expression g) (expression g') filter φ e h =
      dynamic-Holds (expression g) (expression g') filter φ refl refl h

-- The static result is the one that `initHelper` sets.
abbrev pub IsMade : {V : Type 0} → Comparison V → Type 0
IsMade p = p.static_result ≡ init_static_result p.comparator p.left_operand p.right_operand

pub make_comparison-IsMade :
    {V : Type 0} (b : Bool) (c : Comparator V) (l r : Scalar V) (p : Comparison V)
    → make_comparison b c l r ≡ some p
    → IsMade p
unfolding make_comparison
make_comparison-IsMade true c l r p e = subst IsMade (some-injective _ _ e) refl
make_comparison-IsMade false c l r p e = cc

-- On a stream shorter than 2 ^ 31, with no filter or with one of the length of the stream, and with
-- no existence map, `get_all_matches` of a comparison whose static result is the one that its
-- constructor sets answers just the ids that the filter lets through and for which
-- `matches_for_single_tuple` holds, for any kinds of operands.
pub get_all_matches-Holds :
    {V : Type 0} (p : Comparison V) (ts : List (Tuple V)) (filter : Option TupleIdSequence)
    (φ : ℕ → Bool)
    → length ts < tuple_id_limit
    → IsMade p
    → Filters filter (length ts) φ
    → Holds
        (get_all_matches p (tuple_vector ts) filter none)
        (length ts)
        (λ j. φ j && matches_for_single_tuple p (tuple_vector ts) j)
unfolding get_all_matches matches_for_single_tuple
get_all_matches-Holds p ts filter φ small made h =
    by-Holds p.comparator ts small p.static_result p.left_operand p.right_operand filter φ made h
