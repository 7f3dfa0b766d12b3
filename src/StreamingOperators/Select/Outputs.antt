-- ===== src/StreamingOperators/Select/Outputs.antt =====
-- What `next` outputs: for each input, the projection of the tuples that all predicates accept.
use quickstep_streaming.Prelude.{
  ℕ, ◌≤◌, ◌<◌, ◌≡◌, refl, sym, ap, ap₂, ◌∙◌, fun_ext, List, [], ◌∷◌, map, Bool, true, false, ◌&&◌,
  Option, none, some, if◌then◌else◌, length, get_or, arith, length-map,
}
use quickstep_streaming.Common.TupleIdSequence.{TupleIdSequence, tuple_id_limit, to_tuple_id}
use quickstep_streaming.Types.Values.{TypedValue, Tuple, get_attribute_value}
use quickstep_streaming.Types.Accessor.{
  ValueAccessor, tuple_vector, positions, create_shared_tuple_id_sequence_adapter,
}
use quickstep_streaming.Types.Comparator.Laws.{Filters}
use quickstep_streaming.Expressions.Scalar.{Scalar, value_for_single_tuple, all_values}
use quickstep_streaming.Expressions.Predicate.{Predicate}
use quickstep_streaming.StreamingOperators.Select.{
  SelectSpec, filter_input, selected_accessor, project_attributes, column_tuples, column_positions,
  column_length, select_tuples, process_input, next,
}
use quickstep_streaming.StreamingOperators.Select.Kept.{
  value_on, accepts, value-on, AllBuilt, keep, filter_input-Filters, selected_positions,
}
use quickstep_streaming.StreamingOperators.Select.Columns.{
  columns, column_tuples-rows, all_values-map,
}

module _ {V : Type 0} where
  -- The row that a select makes of a tuple.
  unfoldable pub project : SelectSpec V → Tuple V → Tuple V
  project spec t =
      if spec.simple_projection
      then map (λ attr. get_attribute_value t attr) spec.select_attributes
      else map (λ e. value_on e t) spec.select_expressions

  -- With no expressions there is no column, and no row.
  unfoldable pub has_columns : SelectSpec V → Bool
  has_columns spec =
      if spec.simple_projection
      then true
      else elim spec.select_expressions [ [] ↦ false | e ∷ es ↦ true ]

  -- What a select promises of an input.
  unfoldable pub selected : SelectSpec V → List (Tuple V) → List (Tuple V)
  selected spec input =
      if has_columns spec then map (project spec) (keep (accepts spec.predicates) input) else []

length-keep : {A : Type 0} (q : A → Bool) (xs : List A) → length (keep q xs) ≤ length xs
unfolding keep
length-keep q [] = omega arith
length-keep q (x ∷ xs) = ground (arith, length-keep q xs)

module _ {V : Type 0} (ts : List (Tuple V)) (small : length ts < tuple_id_limit)
    (ps : List (Predicate V)) (built : AllBuilt ps) where
  left : ValueAccessor V
  left = selected_accessor (tuple_vector ts) (filter_input ps (tuple_vector ts) none)

  filtered :
      Filters
        (filter_input ps (tuple_vector ts) none)
        (length ts)
        (λ j. true && accepts ps (get_or ts (to_tuple_id j) []))
  filtered = filter_input-Filters ts small ps none (λ j. true) built (λ i. refl)

  few_positions : length (positions left) < tuple_id_limit
  unfolding left
  few_positions =
      let same = selected_positions ts small ps (λ t. t) built in
      let e : length (positions left) ≡ length (map (λ t. t) (keep (accepts ps) ts)) =
        sym (length-map (λ j. get_or ts (to_tuple_id j) []) (positions left)) ∙ ap length same in
      omega (arith, e, length-map (λ t. t) (keep (accepts ps) ts), length-keep (accepts ps) ts)

  attributes-selected :
      (attributes : List ℕ)
      → project_attributes attributes left
        ≡ map (λ t. map (λ attr. get_attribute_value t attr) attributes) (keep (accepts ps) ts)
  unfolding project_attributes left selected_accessor create_shared_tuple_id_sequence_adapter
  attributes-selected attributes = by (filter_input ps (tuple_vector ts) none) (
      selected_positions ts small ps (λ t. map (λ attr. get_attribute_value t attr) attributes)
        built)
    where
      by :
          (r : Option TupleIdSequence)
          → map
              (λ j.
                map (λ attr. get_attribute_value (get_or ts (to_tuple_id j) []) attr) attributes)
              (positions (selected_accessor (tuple_vector ts) r))
            ≡ map (λ t. map (λ attr. get_attribute_value t attr) attributes) (keep (accepts ps) ts)
          → project_attributes attributes (selected_accessor (tuple_vector ts) r)
            ≡ map (λ t. map (λ attr. get_attribute_value t attr) attributes) (keep (accepts ps) ts)
      by none h = h
      by (some f) h = h

  value_at : Scalar V → ℕ → TypedValue V
  value_at e j = value_for_single_tuple e (tuple_vector ts) j

  columns-values :
      (es : List (Scalar V))
      → map (λ e. all_values e left) es ≡ columns (positions left) (map value_at es)
  unfolding left value_at columns
  columns-values [] = refl
  columns-values (e ∷ es) =
      ap₂ (λ a b. a ∷ b)
        (all_values-map ts small e (filter_input ps (tuple_vector ts) none) _ filtered)
        (columns-values es)

  row-values :
      (es : List (Scalar V)) (j : ℕ)
      → map (λ g. g j) (map value_at es) ≡ map (λ e. value_on e (get_or ts (to_tuple_id j) [])) es
  unfolding value_at
  row-values [] j = refl
  row-values (e ∷ es) j = ap₂ (λ a b. a ∷ b) (value-on e ts j) (row-values es j)

  expressions-selected :
      (e : Scalar V) (es : List (Scalar V))
      → column_tuples (map (λ e. all_values e left) (e ∷ es))
        ≡ map (λ t. map (λ e. value_on e t) (e ∷ es)) (keep (accepts ps) ts)
  unfolding left
  expressions-selected e es =
      ap column_tuples (columns-values (e ∷ es))
      ∙ column_tuples-rows 0 (positions left) few_positions (value_at e) (map value_at es)
      ∙ ap (λ k. map k (positions left)) (fun_ext (λ j. row-values (e ∷ es) j))
      ∙ selected_positions ts small ps (λ t. map (λ e. value_on e t) (e ∷ es)) built

  by_columns :
      (has : Bool) (es : List (Scalar V)) (attributes : List ℕ)
      → (if has
          then project_attributes attributes left
          else column_tuples (map (λ e. all_values e left) es))
        ≡ (if if has then true else elim es [ [] ↦ false | e ∷ es ↦ true ]
            then map
                (λ t.
                  if has
                  then map (λ attr. get_attribute_value t attr) attributes
                  else map (λ e. value_on e t) es)
                (keep (accepts ps) ts)
            else [])
  unfolding column_tuples column_positions column_length
  by_columns true es attributes = attributes-selected attributes
  by_columns false [] attributes = refl
  by_columns false (e ∷ es) attributes = expressions-selected e es

-- Every input is shorter than the ids of tuples can count.
unfoldable pub AllSmall : {V : Type 0} → List (List (Tuple V)) → Type 0
AllSmall [] = Unit
AllSmall (input ∷ inputs) = (length input < tuple_id_limit) × AllSmall inputs

module _ {V : Type 0} (spec : SelectSpec V) (built : AllBuilt spec.predicates) where
  process_input-selected :
      (input : List (Tuple V))
      → length input < tuple_id_limit
      → process_input spec input ≡ selected spec input
  unfolding process_input select_tuples selected has_columns project left
  process_input-selected input small =
      by_columns input small spec.predicates built spec.simple_projection spec.select_expressions
        spec.select_attributes

  all-selected :
      (inputs : List (List (Tuple V)))
      → AllSmall inputs
      → map (process_input spec) inputs ≡ map (selected spec) inputs
  unfolding AllSmall
  all-selected [] small = refl
  all-selected (input ∷ inputs) (small, rest) =
      ap₂ (λ a b. a ∷ b) (process_input-selected input small) (all-selected inputs rest)

  -- With a specification whose predicates are well formed, and inputs shorter than 2 ^ 31, `next`
  -- gives for each input, in order, the projections of just the tuples that all predicates accept,
  -- in the order of the input.
  pub next-selected :
      (inputs : List (List (Tuple V)))
      → AllSmall inputs
      → next (some spec) inputs ≡ some (map (selected spec) inputs)
  unfolding next
  next-selected [] small = refl
  next-selected (input ∷ inputs) small = ap some (all-selected (input ∷ inputs) small)
