-- ===== src/Utility/Dag/Stages.antt =====
-- utility/DAG.hpp, `computeStageSequence`: for each stage the nodes that may start in it and those
-- that have to finish in it.
pub mod Levels
pub mod Finishing
pub mod Offsets
pub mod Pushes
pub mod Order
use mathlib.Core.Option
use quickstep_streaming.Prelude.{
  ℕ, zero, suc, ◌+◌, ◌-◌, Bool, true, false, Option, none, some, List, [], ◌∷◌, ◌++◌, map, ltb,
  if◌then◌else◌, length, get_or, modify, replicate, range,
}
use quickstep_streaming.Utility.Dag.{Dag, insert, get_dependents, get_dependencies}

-- The first pass of `computeStageSequence`. The offset of a node counts from the end of the stages.
pub record Finish : Type 0 where
  pub offsets : List ℕ
  pub stage : List ℕ

-- The inner loop: the dependencies of one node finish in stage `num`.
unfoldable pub finish_dependencies : ℕ → List ℕ → Finish → Finish
finish_dependencies num [] s = s
finish_dependencies num (d ∷ ds) s =
    finish_dependencies num ds
      (record { offsets = modify s.offsets d (λ _. num); stage = insert s.stage d })

-- A size of a vector of pairs of lists, and the two writes of the last loop.
abbrev pub Stages : Type 0
Stages = List (List ℕ × List ℕ)

unfoldable pub push_first : ℕ → List ℕ × List ℕ → List ℕ × List ℕ
push_first n (starts, finishes) = (starts ++ n ∷ [], finishes)

unfoldable pub push_second : ℕ → List ℕ × List ℕ → List ℕ × List ℕ
push_second n (starts, finishes) = (starts, finishes ++ n ∷ [])

module _ {T L : Type 0} (g : Dag T L) where
  pub is_sink : ℕ → Bool
  is_sink n = elim (get_dependents g n) [ [] ↦ true | _ ∷ _ ↦ false ]

  -- The loop over the nodes from `n` on, `count` of them, which finds those without dependents.
  pub finish_sinks : ℕ → ℕ → Finish → Finish
  unfolding is_sink
  finish_sinks zero n s = s
  finish_sinks (suc count) n s = finish_sinks count (suc n) (
      if is_sink n
      then record { offsets = modify s.offsets n (λ _. 1); stage = insert s.stage n }
      else s)

  -- The loop over the nodes of the current stage.
  pub finish_stage : ℕ → List ℕ → Finish → Finish
  unfolding finish_dependencies
  finish_stage num [] s = s
  finish_stage num (n ∷ ns) s =
      finish_stage num ns (finish_dependencies num (get_dependencies g n) s)

  -- The `while` loop, with fuel for its rounds; `none` means that the fuel ran out. The last round
  -- makes no stage.
  pub finish_loop : ℕ → ℕ → Finish → Option (List ℕ × ℕ)
  unfolding finish_stage
  finish_loop zero num s = elim s.stage [ [] ↦ some (s.offsets, num - 1) | _ ∷ _ ↦ none ]
  finish_loop (suc fuel) num s = elim s.stage [
    | [] ↦ some (s.offsets, num - 1)
    | _ ∷ _ ↦
        finish_loop fuel (suc num)
          (finish_stage (suc num) s.stage (record { offsets = s.offsets; stage = [] }))
  ]

-- The loop over the dependencies in the second pass: the greatest candidate.
pub start_stage : List ℕ → ℕ → List ℕ → ℕ → ℕ
start_stage offsets num [] start = start
start_stage offsets num (d ∷ ds) start =
    let candidate = num - get_or offsets d 0 + 1 in
    start_stage offsets num ds (if ltb start candidate then candidate else start)

-- The last loop, over the nodes from `n` on, `count` of them.
pub push_nodes : List ℕ → List ℕ → ℕ → ℕ → ℕ → Stages → Stages
unfolding push_first push_second
push_nodes offsets starts num zero n stages = stages
push_nodes offsets starts num (suc count) n stages = push_nodes offsets starts num count (suc n) (
    modify (modify stages (get_or starts n 0) (push_first n)) (num - get_or offsets n 0)
      (push_second n))

module _ {T L : Type 0} (g : Dag T L) where
  pub first_finish : Finish
  unfolding finish_sinks
  first_finish =
      finish_sinks g (length g) 0 (record { offsets = replicate (length g) 0; stage = [] })

  pub node_start_stages : List ℕ → ℕ → List ℕ
  unfolding start_stage
  node_start_stages offsets num =
      map (λ n. start_stage offsets num (get_dependencies g n) 0) (range (length g) 0)

  stages_of : List ℕ × ℕ → Stages
  unfolding node_start_stages push_nodes
  stages_of (offsets, num) =
      push_nodes offsets (node_start_stages offsets num) num (length g) 0 (replicate num ([], []))

  unfoldable pub compute_stage_sequence : ℕ → Option Stages
  unfolding first_finish finish_loop stages_of
  compute_stage_sequence fuel = Option.map stages_of (finish_loop g fuel 1 first_finish)
