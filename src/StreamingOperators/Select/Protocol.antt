-- ===== src/StreamingOperators/Select/Protocol.antt =====
-- The operator as a state machine: the calls of `open`, `next` and `close` that return true.
use quickstep_streaming.Prelude.{
  ℕ, suc, ◌+◌, ◌≡◌, refl, sym, ap, subst, List, map, true, none, some, arith,
}
use quickstep_streaming.Types.Values.{Tuple}
use quickstep_streaming.StreamingOperators.Select.{
  SelectSpec, QuerySpec, select_spec, select_window_spec, State, open_operator, close, next,
}
use quickstep_streaming.StreamingOperators.Select.Kept.{AllBuilt}
use quickstep_streaming.StreamingOperators.Select.Outputs.{selected, AllSmall, next-selected}

-- The specification is one whose predicates are well formed.
abbrev pub IsBuiltSpec : {V : Type 0} → QuerySpec V → Type 0
IsBuiltSpec (select_spec spec) = AllBuilt spec.predicates
IsBuiltSpec select_window_spec = Unit

-- One call that returns true.
pub data Step {V : Type 0} : State V → State V → Type 0 where
  opened :
      {st st' : State V} (plan_specs : QuerySpec V)
      → IsBuiltSpec plan_specs
      → open_operator st plan_specs ≡ (st', true)
      → Step st st'
  processed :
      {st : State V} (inputs outputs : List (List (Tuple V)))
      → next st inputs ≡ some outputs
      → Step st st
  closed : {st st' : State V} → close st ≡ (st', true) → Step st st'

-- The calls from a state to a state, in order.
pub data Steps {V : Type 0} : State V → State V → Type 0 where
  done : {st : State V} → Steps st st
  call : {st st' st'' : State V} → Step st st' → Steps st' st'' → Steps st st''

module _ {V : Type 0} where
  abbrev IsRunnable : State V → Type 0
  IsRunnable none = Unit
  IsRunnable (some spec) = AllBuilt spec.predicates

  open_operator-IsRunnable :
      (st st' : State V) (plan_specs : QuerySpec V)
      → IsBuiltSpec plan_specs
      → open_operator st plan_specs ≡ (st', true)
      → IsRunnable st'
  unfolding open_operator
  open_operator-IsRunnable (some spec) st' plan_specs built e = absurd cc
  open_operator-IsRunnable none st' select_window_spec built e = absurd cc
  open_operator-IsRunnable none st' (select_spec spec) built e =
      subst IsRunnable (ap (λ r. r.0) e) built

  close-IsRunnable : (st st' : State V) → close st ≡ (st', true) → IsRunnable st'
  unfolding close
  close-IsRunnable none st' e = absurd cc
  close-IsRunnable (some spec) st' e = subst IsRunnable (ap (λ r. r.0) e) tt

  Step-IsRunnable : {st st' : State V} → Step st st' → IsRunnable st → IsRunnable st'
  Step-IsRunnable {st = st} {st' = st'} (opened plan_specs built e) h =
      open_operator-IsRunnable st st' plan_specs built e
  Step-IsRunnable (processed inputs outputs e) h = h
  Step-IsRunnable {st = st} {st' = st'} (closed e) h = close-IsRunnable st st' e

  Steps-IsRunnable : {st st' : State V} → Steps st st' → IsRunnable st → IsRunnable st'
  Steps-IsRunnable done h = h
  Steps-IsRunnable (call s rest) h = Steps-IsRunnable rest (Step-IsRunnable s h)

  -- Whatever calls of `open_operator`, `next` and `close` were made since the operator was
  -- constructed, if each specification that it was opened with has well-formed predicates and it
  -- holds one now, then `next` gives for each input, in order, the projections of just the tuples
  -- that all predicates accept. Each input is shorter than 2 ^ 31, so that its positions are
  -- `tuple_id`s. A specification of no expressions and no simple projection leaves no columns, and
  -- its output is empty.
  pub next_after_calls :
      (spec : SelectSpec V) (inputs : List (List (Tuple V)))
      → Steps none (some spec)
      → AllSmall inputs
      → next (some spec) inputs ≡ some (map (selected spec) inputs)
  unfolding AllBuilt
  next_after_calls spec inputs calls small =
      next-selected spec (Steps-IsRunnable calls tt) inputs small

  abbrev pub is_open : State V → ℕ
  is_open none = 0
  is_open (some spec) = 1

  -- How many of the calls were to `open`, and to `close`.
  unfoldable pub open_count : {st st' : State V} → Steps st st' → ℕ
  open_count done = 0
  open_count (call (opened plan_specs built e) rest) = suc (open_count rest)
  open_count (call (processed inputs outputs e) rest) = open_count rest
  open_count (call (closed e) rest) = open_count rest

  unfoldable pub close_count : {st st' : State V} → Steps st st' → ℕ
  close_count done = 0
  close_count (call (opened plan_specs built e) rest) = close_count rest
  close_count (call (processed inputs outputs e) rest) = close_count rest
  close_count (call (closed e) rest) = suc (close_count rest)

  open_operator-is_open :
      (st st' : State V) (plan_specs : QuerySpec V)
      → open_operator st plan_specs ≡ (st', true)
      → (is_open st ≡ 0) × (is_open st' ≡ 1)
  unfolding open_operator
  open_operator-is_open (some spec) st' plan_specs e = absurd cc
  open_operator-is_open none st' select_window_spec e = absurd cc
  open_operator-is_open none st' (select_spec spec) e = (refl, sym (ap (λ r. is_open r.0) e))

  close-is_open : (st st' : State V) → close st ≡ (st', true) → (is_open st ≡ 1) × (is_open st' ≡ 0)
  unfolding close
  close-is_open none st' e = absurd cc
  close-is_open (some spec) st' e = (refl, sym (ap (λ r. is_open r.0) e))

  balance :
      {st st' : State V} (calls : Steps st st')
      → is_open st + open_count calls ≡ is_open st' + close_count calls
  unfolding open_count close_count
  balance done = refl
  balance {st = st} (call {st' = mid} (opened plan_specs built e) rest) =
      let (before, after) = open_operator-is_open st mid plan_specs e in
      omega (arith, balance rest, before, after)
  balance (call (processed inputs outputs e) rest) = balance rest
  balance {st = st} (call {st' = mid} (closed e) rest) =
      let (before, after) = close-is_open st mid e in omega (arith, balance rest, before, after)

  -- Of the calls that returned true since the operator was constructed, as many were to
  -- `open_operator` as to `close` while it holds no specification, and one more to `open_operator`
  -- while it holds one. Each specification that it was opened with has well-formed predicates.
  pub open_count-close_count :
      (st : State V) (calls : Steps none st) → open_count calls ≡ is_open st + close_count calls
  open_count-close_count st calls = omega (arith, balance calls)
