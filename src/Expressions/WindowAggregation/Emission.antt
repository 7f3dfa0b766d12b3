-- ===== src/Expressions/WindowAggregation/Emission.antt =====
-- A handle with an emission duration: the outputs that a new tuple brings about.
use quickstep_streaming.Prelude.{
  ℕ, zero, suc, ◌-◌, ◌<◌, ◌≡◌, refl, List, [], ◌∷◌, ◌++◌, map, true, false, some, ◌==◌, length,
  get_elem?, arith, length-append,
}
use quickstep_streaming.Types.Values.{TypedValue, is_null, Tuple}
use quickstep_streaming.Expressions.WindowAggregation.{
  Handle, State, in_range, streaming_value, current, in_window, move_forward, average, get_output,
  add_argument, drop_front, emit_outputs, process_row,
}

module _ {V : Type 0} (h : Handle V) where
  -- `Emissions test v vs v'`: the window's value goes on from `v`, by the emission duration, and
  -- passes `vs` before it comes to `v'`, the first value whose window has `test` in it.
  pub data Emissions (test : TypedValue V)
      : TypedValue V → List (TypedValue V) → TypedValue V → Type 0 where
    inside :
        {v : TypedValue V} → is_null v ≡ false → in_range h v test ≡ true → Emissions test v [] v
    outside :
        {v v' : TypedValue V} {vs : List (TypedValue V)}
        → is_null v ≡ false
        → in_range h v test ≡ false
        → Emissions test (h.operators.range_add v h.emit_duration) vs v'
        → Emissions test v (v ∷ vs) v'

  -- The state with another current value.
  abbrev pub with_current : State V → TypedValue V → State V
  with_current st v = record {
    window = st.window;
    current_tuple_index = st.current_tuple_index;
    current_value = v;
    sum = st.sum;
    count = st.count;
  }

-- The value of a tuple that the window is checked for.
abbrev pub coerced : {V : Type 0} → Handle V → Tuple V → TypedValue V
coerced h row = h.operators.coerce_value (streaming_value h row)

get_elem?-last : {A : Type 0} (xs : List A) (x : A) → get_elem? (xs ++ x ∷ []) (length xs) ≡ some x
get_elem?-last [] x = refl
get_elem?-last (y ∷ xs) x = get_elem?-last xs x

-- The state of an aggregation: its current tuple is the first one throughout.
abbrev pub aggregation : {V : Type 0} → List (Tuple V) → TypedValue V → TypedValue V → ℕ → State V
aggregation window value sum count = record {
  window = window;
  current_tuple_index = 0;
  current_value = value;
  sum = sum;
  count = count;
}

module _ {V : Type 0} (h : Handle V) (emits : is_null h.emit_duration ≡ false)
    (ranges : h.is_row ≡ false) (argument_id : ℕ) (w : List (Tuple V)) (some_tuple : 0 < length w)
    (row : Tuple V) (s : TypedValue V) (c : ℕ) where
  abbrev at : TypedValue V → State V
  at v = aggregation (w ++ row ∷ []) v s c

  last_index : length (w ++ row ∷ []) - 1 ≡ length w
  last_index = omega (arith, length-append w (row ∷ []))

  in_window-last :
      (v : TypedValue V)
      → is_null v ≡ false
      → in_window h (at v) (length (w ++ row ∷ []) - 1) ≡ some (in_range h v (coerced h row))
  unfolding in_window current
  in_window-last v e =
      let other : (length w == 0) ≡ false = ground arith in
      simp (last_index, other, ranges, e, get_elem?-last w row)

  drop_front-first :
      (fuel : ℕ) (v : TypedValue V) → 0 < fuel → drop_front h argument_id fuel (at v) ≡ some (at v)
  unfolding drop_front in_window
  drop_front-first zero v lt = absurd (omega arith)
  drop_front-first (suc fuel) v lt = refl

  move_forward-at :
      (v : TypedValue V) → move_forward h (at v) ≡ at (h.operators.range_add v h.emit_duration)
  unfolding move_forward
  move_forward-at v = rw emits refl

  get_output-at : (v : TypedValue V) → get_output h (at v) ≡ some (v ∷ average h (at v) ∷ [])
  unfolding get_output average
  get_output-at v = rw emits refl

  pub emit_outputs-Emissions :
      (fuel : ℕ) (v v' : TypedValue V) (vs : List (TypedValue V))
      → Emissions h (coerced h row) v vs v'
      → length vs < fuel
      → emit_outputs h argument_id fuel (at v)
        ≡ some (map (λ u. u ∷ average h (at u) ∷ []) vs, at v')
  unfolding emit_outputs in_window
  emit_outputs-Emissions zero v v' vs em lt = absurd (omega arith)
  emit_outputs-Emissions (suc fuel) v v' vs (inside e r) lt =
      rw (emit_outputs, in_window-last v e, r) refl
  emit_outputs-Emissions (suc fuel) v v' (_ ∷ vs) (outside e r em) lt =
      let rest = emit_outputs-Emissions fuel _ v' vs em (omega arith) in
      rw
        (
          emit_outputs,
          in_window-last v e,
          r,
          get_output-at v,
          move_forward-at v,
          drop_front-first fuel (h.operators.range_add v h.emit_duration) (omega arith),
          rest,
        )
        refl

  -- For an aggregation with an emission duration and a RANGE window that has some tuple, and for
  -- more fuel than the values that a new tuple makes the window pass, `process_row` returns one
  -- output for each value passed, with the average of what was there before the tuple, and adds the
  -- argument of the tuple.
  pub process_row-Emissions :
      (fuel : ℕ) (v v' : TypedValue V) (vs : List (TypedValue V))
      → Emissions h (coerced h row) v vs v'
      → length vs < fuel
      → process_row h argument_id fuel row (aggregation w v s c)
        ≡ some (
          map (λ u. u ∷ average h (at u) ∷ []) vs,
          add_argument h argument_id row (aggregation (w ++ row ∷ []) v' s c),
        )
  unfolding process_row
  process_row-Emissions fuel v v' vs em lt =
      rw (process_row, emit_outputs-Emissions fuel v v' vs em lt, last_index, get_elem?-last w row)
        refl
