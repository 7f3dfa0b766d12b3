-- ===== src/Tests/Dags.antt =====
-- A diamond of four nodes, and two nodes in a circle.
use mathlib.Core.List.Memᴰ
use quickstep_streaming.Prelude.{
  ℕ, ◌≡◌, ◌≤◌, ◌↔◌, refl, Bool, true, false, some, [], ◌∷◌, length, arith,
}
use quickstep_streaming.Utility.Dag.{
  Dag, insert, emplace, add_dependent, add_dependency, create_node, create_link, has_cycle,
  get_dependents, get_dependencies,
}
use quickstep_streaming.Utility.Dag.Search.{HasCycle}
use quickstep_streaming.Utility.Dag.Mirror.{IsLinked, create_node-IsLinked, create_link-IsLinked}
use quickstep_streaming.Utility.Dag.Cycles.{has_cycle-HasCycle}
use quickstep_streaming.Utility.Dag.Stages.{Stages, compute_stage_sequence}
use quickstep_streaming.Utility.Dag.Stages.Order.{IsSchedule, compute_stage_sequence-IsSchedule}

abbrev grow : Dag ℕ Bool → Dag ℕ Bool
grow g = (create_node g (length g)).0

abbrev nodes : Dag ℕ Bool
nodes = grow (grow (grow (grow [])))

abbrev diamond : Dag ℕ Bool
diamond =
    create_link (create_link (create_link (create_link nodes 0 1 true) 0 2 true) 1 3 true) 2 3 false

abbrev circle : Dag ℕ Bool
circle = create_link diamond 3 1 true

no_nodes-IsLinked : IsLinked {T = ℕ} {L = Bool} []
unfolding get_dependents get_dependencies
no_nodes-IsLinked = record {
  in_range = λ n d m. absurd (Memᴰ.not-nil m);
  mirror = λ n d. (λ m. absurd (Memᴰ.not-nil m), λ m. absurd (Memᴰ.not-nil m));
}

nodes-IsLinked : IsLinked nodes
unfolding create_node
nodes-IsLinked = create_node-IsLinked _ 3 (
    create_node-IsLinked _ 2
      (create_node-IsLinked _ 1 (create_node-IsLinked _ 0 no_nodes-IsLinked)))

diamond-IsLinked : IsLinked diamond
unfolding create_node create_link
diamond-IsLinked = create_link-IsLinked _ 2 3 false (omega arith) (omega arith) (
    create_link-IsLinked _ 1 3 true (omega arith) (omega arith) (
      create_link-IsLinked _ 0 2 true (omega arith) (omega arith)
        (create_link-IsLinked nodes 0 1 true (omega arith) (omega arith) nodes-IsLinked)))

circle-IsLinked : IsLinked circle
unfolding create_node create_link
circle-IsLinked = create_link-IsLinked diamond 3 1 true (omega arith) (omega arith) diamond-IsLinked

diamond_runs : has_cycle diamond 4 ≡ false
unfolding has_cycle create_node create_link get_dependents add_dependent emplace add_dependency
    insert
diamond_runs = refl

circle_runs : has_cycle circle 4 ≡ true
unfolding has_cycle create_node create_link get_dependents add_dependent emplace add_dependency
    insert
circle_runs = refl

diamond_stages :
    compute_stage_sequence diamond 4
    ≡ some ((0 ∷ [], 0 ∷ []) ∷ (1 ∷ 2 ∷ [], 1 ∷ 2 ∷ []) ∷ (3 ∷ [], 3 ∷ []) ∷ [])
unfolding compute_stage_sequence create_node create_link get_dependents get_dependencies
    add_dependent emplace add_dependency insert
diamond_stages = refl

size_circle : length circle ≤ 4
unfolding create_node create_link
size_circle = omega arith

size_diamond : length diamond ≤ 4
unfolding create_node create_link
size_diamond = omega arith

has_cycle-HasCycle_example : (has_cycle circle 4 ≡ true) ↔ HasCycle circle
has_cycle-HasCycle_example = has_cycle-HasCycle circle 4 circle-IsLinked.in_range size_circle

diamond_acyclic : HasCycle diamond → ⊥
diamond_acyclic h =
    ground (
      arith,
      (has_cycle-HasCycle diamond 4 diamond-IsLinked.in_range size_diamond).1 h,
      diamond_runs,
    )

compute_stage_sequence-IsSchedule_example :
    (stages : Stages) × (start : ℕ → ℕ) × (finish : ℕ → ℕ) × (compute_stage_sequence diamond 4
      ≡ some stages)
    × IsSchedule diamond stages start finish
compute_stage_sequence-IsSchedule_example =
    compute_stage_sequence-IsSchedule diamond 4 diamond-IsLinked diamond_acyclic size_diamond

create_link-IsLinked_example : IsLinked (create_link diamond 0 3 true)
unfolding create_node create_link
create_link-IsLinked_example =
    create_link-IsLinked diamond 0 3 true (omega arith) (omega arith) diamond-IsLinked
