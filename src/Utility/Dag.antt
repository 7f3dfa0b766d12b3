-- ===== src/Utility/Dag.antt =====
-- utility/DAG.hpp: nodes with links, and the search for a cycle. An unordered set or map
-- is the list of its entries in the order in which its iterators go, which is any order.
pub mod Links
pub mod Mirror
pub mod Walks
pub mod Stages
pub mod Search
pub mod Visits
pub mod Marking
pub mod Cycles
use quickstep_streaming.Prelude.{
  ℕ, zero, suc, ◌+◌, ◌-◌, Bool, true, false, ◌||◌, Option, none, some, List, [], ◌∷◌, ◌++◌, map,
  ltb, ◌==◌, if◌then◌else◌, length, get_elem?, get_or, modify, replicate,
}

pub record DagNode (T L : Type 0) : Type 0 where
  pub payload : T
  pub dependencies : List ℕ
  pub dependents_with_metadata : List (ℕ × L)

abbrev pub Dag : Type 0 → Type 0 → Type 0
Dag T L = List (DagNode T L)

module _ {L : Type 0} where
  -- `find` of the unordered map.
  unfoldable pub find : List (ℕ × L) → ℕ → Option L
  find [] n = none
  find ((m, l) ∷ rest) n = if m == n then some l else find rest n

  -- `emplace` of the unordered map: an entry that is there stays.
  unfoldable pub emplace : List (ℕ × L) → ℕ → L → List (ℕ × L)
  emplace [] n l = (n, l) ∷ []
  emplace ((m, k) ∷ rest) n l = if m == n then (m, k) ∷ rest else (m, k) ∷ emplace rest n l

  -- Assignment through `operator[]`, which makes an entry that is not there.
  unfoldable pub assign : List (ℕ × L) → ℕ → L → List (ℕ × L)
  assign [] n l = (n, l) ∷ []
  assign ((m, k) ∷ rest) n l = if m == n then (m, l) ∷ rest else (m, k) ∷ assign rest n l

  -- The keys of the unordered map.
  dependent_indices : List (ℕ × L) → List ℕ
  dependent_indices entries = map (λ e. e.0) entries

-- `insert` of the unordered set.
unfoldable pub insert : List ℕ → ℕ → List ℕ
insert [] n = n ∷ []
insert (m ∷ rest) n = if m == n then m ∷ rest else m ∷ insert rest n

module _ {T L : Type 0} where
  unfoldable pub add_dependent : ℕ → L → DagNode T L → DagNode T L
  add_dependent n l node = record node {
    dependents_with_metadata = emplace node.dependents_with_metadata n l;
  }

  unfoldable pub add_dependency : ℕ → DagNode T L → DagNode T L
  add_dependency n node = record node { dependencies = insert node.dependencies n }

  unfoldable pub create_node : Dag T L → T → Dag T L × ℕ
  create_node g payload =
      let nodes : Dag T L =
        g ++ record { payload = payload; dependencies = []; dependents_with_metadata = [] } ∷ [] in
      (nodes, length nodes - 1)

  unfoldable pub create_link : Dag T L → ℕ → ℕ → L → Dag T L
  create_link g dependency dependent l =
      modify (modify g dependency (add_dependent dependent l)) dependent (add_dependency dependency)

  unfoldable pub set_link_metadata : Dag T L → ℕ → ℕ → L → Dag T L
  set_link_metadata g dependency dependent l = modify g dependency (λ node. record node {
    dependents_with_metadata = assign node.dependents_with_metadata dependent l;
  })

  -- `getLinkMetadata` of a node, and none past the end.
  unfoldable pub find_in : Option (DagNode T L) → ℕ → Option L
  find_in none d = none
  find_in (some node) d = find node.dependents_with_metadata d

  unfoldable pub get_link_metadata : Dag T L → ℕ → ℕ → Option L
  unfolding find_in
  get_link_metadata g dependency dependent = find_in (get_elem? g dependency) dependent

  -- `getDependents` and `getDependencies` of a node, and none past the end.
  unfoldable pub dependents_of : Option (DagNode T L) → List ℕ
  unfolding dependent_indices
  dependents_of none = []
  dependents_of (some node) = dependent_indices node.dependents_with_metadata

  unfoldable pub dependencies_of : Option (DagNode T L) → List ℕ
  dependencies_of none = []
  dependencies_of (some node) = node.dependencies

  unfoldable pub get_dependents : Dag T L → ℕ → List ℕ
  unfolding dependents_of
  get_dependents g n = dependents_of (get_elem? g n)

  unfoldable pub get_dependencies : Dag T L → ℕ → List ℕ
  unfolding dependencies_of
  get_dependencies g n = dependencies_of (get_elem? g n)

-- The two vectors of flags that `hasCycleHelper` writes.
pub record Marks : Type 0 where
  pub visited : List Bool
  pub on_stack : List Bool

pub is_visited : Marks → ℕ → Bool
is_visited s n = get_or s.visited n false

pub is_on_stack : Marks → ℕ → Bool
is_on_stack s n = get_or s.on_stack n false

pub enter : Marks → ℕ → Marks
enter s n = record {
  visited = modify s.visited n (λ _. true);
  on_stack = modify s.on_stack n (λ _. true);
}

pub leave : Marks → ℕ → Marks
leave s n = record s { on_stack = modify s.on_stack n (λ _. false) }

-- `visited` and `on_stack` resized for `n` nodes.
pub no_marks : ℕ → Marks
no_marks n = record { visited = replicate n false; on_stack = replicate n false }

-- The loop over the dependents; `visit` is the call of the helper on one that is not yet visited.
pub visit_dependents : (ℕ → Marks → Bool × Marks) → List ℕ → Marks → Bool × Marks
unfolding is_visited is_on_stack
visit_dependents visit [] s = (false, s)
visit_dependents visit (d ∷ ds) s =
    let r : Bool × Marks = if is_visited s d then (false, s) else visit d s in
    let rest = visit_dependents visit ds r.1 in
    if r.0 || is_on_stack r.1 d then (true, r.1) else rest

-- The end of `hasCycleHelper`: an early return leaves the stack as it is.
pub leave_unless_found : ℕ → Bool × Marks → Bool × Marks
unfolding leave
leave_unless_found n (true, s) = (true, s)
leave_unless_found n (false, s) = (false, leave s n)

module _ {T L : Type 0} (g : Dag T L) where
  -- With fuel for the depth of the recursion.
  pub has_cycle_helper : ℕ → ℕ → Marks → Bool × Marks
  unfolding is_visited enter leave leave_unless_found visit_dependents
  has_cycle_helper zero n s = (false, leave s n)
  has_cycle_helper (suc fuel) n s =
      let found = visit_dependents (has_cycle_helper fuel) (get_dependents g n) (enter s n) in
      if is_visited s n then (false, leave s n) else leave_unless_found n found

  -- The loop over the nodes from `n` on, `count` of them.
  pub check_nodes : ℕ → ℕ → ℕ → Marks → Bool
  unfolding has_cycle_helper
  check_nodes fuel zero n s = false
  check_nodes fuel (suc count) n s =
      let r = has_cycle_helper fuel n s in
      let rest = check_nodes fuel count (suc n) r.1 in if r.0 then true else rest

  unfoldable pub has_cycle : ℕ → Bool
  unfolding check_nodes no_marks
  has_cycle fuel = check_nodes fuel (length g) 0 (no_marks (length g))
