-- ===== src/Expressions/WindowAggregation/Aggregate.antt =====
-- A whole run of a handle with an emission duration: its outputs, and its state at the end.
use quickstep_streaming.Prelude.{
  ℕ, zero, suc, ◌+◌, ◌%◌, ◌≤◌, ◌<◌, ◌≡◌, refl, ap, ◌∙◌, List, [], ◌∷◌, ◌++◌, map, false, some, ◌==◌,
  if◌then◌else◌, length, arith, inl, inr, Bool-cases, length-append,
}
use quickstep_streaming.Common.TupleIdSequence.{size_t_mod, tuple_id_limit}
use quickstep_streaming.Types.Values.{TypedValue, null, is_null, Tuple, get_attribute_value}
use quickstep_streaming.Types.Accessor.Iterate.{map-tuple_at}
use quickstep_streaming.Expressions.Scalar.{attribute_id_for_value_accessor}
use quickstep_streaming.Expressions.WindowAggregation.{
  Handle, State, average, add_argument, emit_outputs, in_window, process_row, process_rows,
  read_tuples, calculate,
}
use quickstep_streaming.Expressions.WindowAggregation.Emission.{
  Emissions, coerced, aggregation, process_row-Emissions,
}

module _ {V : Type 0} (h : Handle V) (argument_id : ℕ) where
  -- The arguments of tuples that are not NULL.
  unfoldable pub arguments : List (Tuple V) → List (TypedValue V)
  arguments [] = []
  arguments (t ∷ ts) =
      let value = get_attribute_value t argument_id in
      if is_null value then arguments ts else value ∷ arguments ts

  -- Their sum, from `s` on, in their order.
  unfoldable pub sum_from : TypedValue V → List (TypedValue V) → TypedValue V
  sum_from s [] = s
  sum_from s (v ∷ vs) = sum_from (h.operators.fast_add s v) vs

  -- The average of the arguments of `ts`: NULL if there is none.
  unfoldable pub average_of : TypedValue V → List (Tuple V) → TypedValue V
  average_of zero_value ts =
      if length (arguments ts) == 0
      then null
      else h.operators.divide (sum_from zero_value (arguments ts)) (length (arguments ts))

  -- `Passes v rows vss v'`: from value to value the tuples in turn make the window pass `vss`.
  pub data Passes (fuel : ℕ)
      : TypedValue V → List (Tuple V) → List (List (TypedValue V)) → TypedValue V → Type 0 where
    nothing : {v : TypedValue V} → Passes fuel v [] [] v
    tuple :
        {v v' v'' : TypedValue V} {row : Tuple V} {rows : List (Tuple V)} {vs : List (TypedValue V)}
        {vss : List (List (TypedValue V))}
        → Emissions h (coerced h row) v vs v'
        → length vs < fuel
        → Passes fuel v' rows vss v''
        → Passes fuel v (row ∷ rows) (vs ∷ vss) v''

  -- The outputs that `calculate` gives after the tuples `seen`: for each value passed, the value and
  -- the average of all tuples so far.
  unfoldable pub averages :
      TypedValue V
      → List (Tuple V)
      → List (Tuple V)
      → List (List (TypedValue V))
      → List (List (TypedValue V))
  averages zero_value seen [] vss = []
  averages zero_value seen (row ∷ rows) [] = []
  averages zero_value seen (row ∷ rows) (vs ∷ vss) =
      map (λ v. v ∷ average_of zero_value seen ∷ []) vs
      ++ averages zero_value (seen ++ row ∷ []) rows vss

  -- The state after the tuples `seen`, at the value `v`.
  abbrev pub after : TypedValue V → List (Tuple V) → TypedValue V → State V
  after zero_value seen v =
      aggregation seen v (sum_from zero_value (arguments seen)) (length (arguments seen))

  arguments-append :
      (ts : List (Tuple V)) (t : Tuple V)
      → arguments (ts ++ t ∷ [])
        ≡ arguments ts
          ++ (if is_null (get_attribute_value t argument_id)
              then []
              else get_attribute_value t argument_id ∷ [])
  unfolding arguments
  arguments-append [] t = refl
  arguments-append (t' ∷ ts) t = elim (Bool-cases (is_null (get_attribute_value t' argument_id))) [
    | inl e ↦ rw e (arguments-append ts t)
    | inr e ↦ rw e (ap (λ r. get_attribute_value t' argument_id ∷ r) (arguments-append ts t))
  ]

  sum_from-append :
      (s v : TypedValue V) (vs : List (TypedValue V))
      → sum_from s (vs ++ v ∷ []) ≡ h.operators.fast_add (sum_from s vs) v
  unfolding sum_from
  sum_from-append s v [] = refl
  sum_from-append s v (v' ∷ vs) = sum_from-append (h.operators.fast_add s v') v vs

  append_nil : {A : Type 0} (xs : List A) → xs ++ [] ≡ xs
  append_nil [] = refl
  append_nil (x ∷ xs) = ap (λ r. x ∷ r) (append_nil xs)

  length-arguments : (ts : List (Tuple V)) → length (arguments ts) ≤ length ts
  unfolding arguments
  length-arguments [] = omega arith
  length-arguments (t ∷ ts) = ground (arith, length-arguments ts)

  add_argument-after :
      (zero_value v : TypedValue V) (seen : List (Tuple V)) (row : Tuple V)
      → suc (length seen) < size_t_mod
      → add_argument h argument_id row (
          aggregation
            (seen ++ row ∷ [])
            v
            (sum_from zero_value (arguments seen))
            (length (arguments seen)))
        ≡ after zero_value (seen ++ row ∷ []) v
  unfolding add_argument
  add_argument-after zero_value v seen row small =
      elim (Bool-cases (is_null (get_attribute_value row argument_id))) [
        | inl e ↦ rw (arguments-append seen row, e, append_nil (arguments seen)) refl
        | inr e ↦
            let next : (length (arguments seen) + 1) % size_t_mod ≡ length (arguments seen) + 1 =
              omega (arith, length-arguments seen) in
            rw
              (
                arguments-append seen row,
                e,
                sum_from-append zero_value (get_attribute_value row argument_id) (arguments seen),
                length-append (arguments seen) (get_attribute_value row argument_id ∷ []),
                next,
              )
              refl
      ]

  append_one : {A : Type 0} (xs ys : List A) (x : A) → (xs ++ x ∷ []) ++ ys ≡ xs ++ x ∷ ys
  append_one [] ys x = refl
  append_one (y ∷ xs) ys x = ap (λ r. y ∷ r) (append_one xs ys x)

  -- The first tuple is the current one, so it is in the window.
  first_emit :
      (fuel : ℕ) (v s : TypedValue V) (row : Tuple V)
      → 0 < fuel
      → emit_outputs h argument_id fuel (aggregation (row ∷ []) v s 0)
        ≡ some ([], aggregation (row ∷ []) v s 0)
  unfolding emit_outputs in_window
  first_emit zero v s row enough = absurd (omega arith)
  first_emit (suc fuel) v s row enough = refl

  module _ (emits : is_null h.emit_duration ≡ false) (ranges : h.is_row ≡ false) (fuel : ℕ) where
    process_row-averages :
        (zero_value v v' : TypedValue V) (seen : List (Tuple V)) (row : Tuple V)
        (vs : List (TypedValue V))
        → 0 < length seen
        → suc (length seen) < size_t_mod
        → Emissions h (coerced h row) v vs v'
        → length vs < fuel
        → process_row h argument_id fuel row (after zero_value seen v)
          ≡ some (
            map (λ u. u ∷ average_of zero_value seen ∷ []) vs,
            after zero_value (seen ++ row ∷ []) v',
          )
    unfolding average_of average
    process_row-averages zero_value v v' seen row vs some_tuple small em lt =
        process_row-Emissions h emits ranges argument_id seen some_tuple row _ _ fuel v v' vs em lt
        ∙ ap (λ st. some (map (λ u. u ∷ average_of zero_value seen ∷ []) vs, st))
            (add_argument-after zero_value v' seen row small)

    process_rows-averages :
        (zero_value v v' : TypedValue V) (seen rows : List (Tuple V))
        (vss : List (List (TypedValue V)))
        → 0 < length seen
        → length seen + length rows < size_t_mod
        → Passes fuel v rows vss v'
        → process_rows h argument_id fuel rows (after zero_value seen v)
          ≡ some (averages zero_value seen rows vss, after zero_value (seen ++ rows) v')
    unfolding process_rows averages
    process_rows-averages zero_value v v' seen [] vss some_tuple small nothing =
        rw (append_nil seen) refl
    process_rows-averages zero_value v v' seen (row ∷ rows) (vs ∷ vss) some_tuple small
          (tuple {v' = v1} em lt rest) =
        let len = length-append seen (row ∷ []) in
        let first =
          process_row-averages zero_value v v1 seen row vs some_tuple (omega arith) em lt in
        let others =
          process_rows-averages zero_value v1 v' (seen ++ row ∷ []) rows vss (omega (arith, len))
            (omega (arith, len)) rest in
        rw (process_rows, first, others, append_one seen rows row) refl
    process_rows-averages zero_value v v' seen (row ∷ rows) [] some_tuple small x4 = elim x4 [ ]

    first_row :
        (zero_value v : TypedValue V) (row : Tuple V)
        → 0 < fuel
        → process_row h argument_id fuel row (after zero_value [] v)
          ≡ some ([], after zero_value (row ∷ []) v)
    unfolding process_row arguments sum_from
    first_row zero_value v row enough =
        rw (process_row, first_emit fuel v zero_value row enough)
          (ap (λ r. some ([], r)) (add_argument-after zero_value v [] row (omega arith)))

    -- A handle with an emission duration and a RANGE window, as it was constructed, with an
    -- attribute as its argument and more fuel for each tuple than the values that the tuple makes
    -- the window pass, returns: it gives for each value passed the value and the average of all
    -- tuples that came before, and at the end has all tuples in its window. None is ever dropped,
    -- whatever the bounds of the window. There are fewer than 2 ^ 31 tuples.
    pub calculate-averages :
        (zero_value v v' : TypedValue V) (row : Tuple V) (rows : List (Tuple V))
        (vss : List (List (TypedValue V)))
        → attribute_id_for_value_accessor h.argument ≡ some argument_id
        → 0 < fuel
        → suc (length rows) < tuple_id_limit
        → Passes fuel v rows vss v'
        → calculate h fuel (row ∷ rows) (after zero_value [] v)
          ≡ some (averages zero_value (row ∷ []) rows vss, after zero_value (row ∷ rows) v')
    unfolding calculate process_rows read_tuples
    calculate-averages zero_value v v' row rows vss e enough small passes =
        rw
          (
            calculate,
            e,
            map-tuple_at (row ∷ rows) small,
            process_rows,
            first_row zero_value v row enough,
            process_rows-averages zero_value v v' (row ∷ []) rows vss (omega arith) (omega arith)
                passes,
          )
          refl
