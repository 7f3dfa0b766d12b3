-- ===== src/Utility/Dag/Mirror.antt =====
-- What `createNode` and `createLink` keep: the two ends of each link know of it.
use mathlib.Core.List.{Memᴰ}
use quickstep_streaming.Prelude.{
  ℕ, zero, suc, ◌+◌, ◌-◌, ◌<◌, ◌≡◌, ◌↔◌, ◌⊎◌, inl, inr, refl, sym, ◌∙◌, subst, Bool, true, false,
  none, List, [], ◌∷◌, if◌then◌else◌, ◌==◌, ltb, length, get_elem?, modify, arith, Bool-cases,
  length-append, length-modify, get_elem?-append, get_elem?-past,
}
use quickstep_streaming.Utility.Dag.{
  DagNode, Dag, insert, dependent_indices, dependents_of, dependencies_of, create_node, create_link,
  get_dependents, get_dependencies,
}
use quickstep_streaming.Utility.Dag.Search.{Link, InRange}
use quickstep_streaming.Utility.Dag.Links.{
  mem-insert, get_dependents-eq, get_dependencies-eq, get_dependents-create_link,
  get_dependencies-create_link,
}

mem-insert_if :
    (t : Bool) (ns : List ℕ) (k x : ℕ)
    → Memᴰ x (if t then insert ns k else ns) ↔ (Memᴰ x ns ⊎ (t ≡ true) × (x ≡ k))
mem-insert_if true ns k x = (
  λ h. elim ((mem-insert ns k x).0 h) [ inl m ↦ inl m | inr e ↦ inr (refl, e) ],
  λ h. (mem-insert ns k x).1 (elim h [ inl m ↦ inl m | inr (_, e) ↦ inr e ]),
)
mem-insert_if false ns k x = (inl, λ h. elim h [ inl m ↦ m | inr (e, _) ↦ absurd (ground arith) ])

-- Links lead to nodes, and the dependents of a node are those that have it as a dependency.
pub record IsLinked {T L : Type 0} (g : Dag T L) : Type 0 where
  pub in_range : InRange g
  pub mirror : (n d : ℕ) → Link g n d ↔ Memᴰ n (get_dependencies g d)

module _ {T L : Type 0} (g : Dag T L) where
  module _ (a b : ℕ) (l : L) (bound_a : a < length g) (bound_b : b < length g) where
    length-create_link : length (create_link g a b l) ≡ length g
    unfolding create_link
    length-create_link = length-modify (modify g a _) b _ ∙ length-modify g a _

    -- `create_link` adds the one link.
    pub Link-create_link :
        (n d : ℕ) → Link (create_link g a b l) n d ↔ (Link g n d ⊎ (n ≡ a) × (d ≡ b))
    Link-create_link n d = rw (get_dependents-create_link g a b l bound_a bound_b n) (
        let added = mem-insert_if (a == n) (get_dependents g n) b d in
        (
          λ h. elim (added.0 h) [ inl m ↦ inl m | inr (t, e) ↦ inr (ground arith, e) ],
          λ h. added.1 (elim h [ inl m ↦ inl m | inr (t, e) ↦ inr (ground arith, e) ]),
        ))

    mem-dependencies :
        (n d : ℕ)
        → Memᴰ n (get_dependencies (create_link g a b l) d)
          ↔ (Memᴰ n (get_dependencies g d) ⊎ (n ≡ a) × (d ≡ b))
    mem-dependencies n d = rw (get_dependencies-create_link g a b l bound_a bound_b d) (
        let added = mem-insert_if (b == d) (get_dependencies g d) a n in
        (
          λ h. elim (added.0 h) [ inl m ↦ inl m | inr (t, e) ↦ inr (e, ground arith) ],
          λ h. added.1 (elim h [ inl m ↦ inl m | inr (e, t) ↦ inr (ground arith, e) ]),
        ))

    -- If links lead to nodes, and the dependents of a node are those that have it as a dependency,
    -- then both hold after `create_link` between two nodes.
    pub create_link-IsLinked : IsLinked g → IsLinked (create_link g a b l)
    create_link-IsLinked h = record {
      in_range = λ n d m. elim ((Link-create_link n d).0 m) [
        | inl old ↦ rw length-create_link (h.in_range n d old)
        | inr (_, e) ↦ rw (length-create_link, e) bound_b
      ];
      mirror = λ n d. (
        λ m. (mem-dependencies n d).1 (elim ((Link-create_link n d).0 m) [
          | inl old ↦ inl ((h.mirror n d).0 old)
          | inr new ↦ inr new
        ]),
        λ m. (Link-create_link n d).1 (elim ((mem-dependencies n d).0 m) [
          | inl old ↦ inl ((h.mirror n d).1 old)
          | inr new ↦ inr new
        ]),
      );
    }

  new_node : T → DagNode T L
  new_node p = record { payload = p; dependencies = []; dependents_with_metadata = [] }

  new_node-blank :
      (p : T) (i : ℕ)
      → (dependents_of (get_elem? (new_node p ∷ []) i) ≡ dependents_of {T = T} {L = L} none)
        × (dependencies_of (get_elem? (new_node p ∷ []) i) ≡ dependencies_of {T = T} {L = L} none)
  unfolding new_node dependents_of dependencies_of dependent_indices
  new_node-blank p zero = (refl, refl)
  new_node-blank p (suc i) = (refl, refl)

  -- A new node has no links.
  get_elem?-create_node :
      (p : T) (n : ℕ)
      → (dependents_of (get_elem? (create_node g p).0 n) ≡ dependents_of (get_elem? g n))
        × (dependencies_of (get_elem? (create_node g p).0 n) ≡ dependencies_of (get_elem? g n))
  unfolding create_node new_node
  get_elem?-create_node p n =
      let node : DagNode T L = new_node p in
      elim (Bool-cases (ltb n (length g))) [
        | inl e ↦ rw (get_elem?-append g (node ∷ []) n, e) (refl, refl)
        | inr e ↦
            rw (get_elem?-append g (node ∷ []) n, e, get_elem?-past g n (ground arith))
              (new_node-blank p (n - length g))
      ]

  get_dependents-create_node :
      (p : T) (n : ℕ) → get_dependents (create_node g p).0 n ≡ get_dependents g n
  get_dependents-create_node p n =
      get_dependents-eq (create_node g p).0 n
      ∙ (get_elem?-create_node p n).0
      ∙ sym (get_dependents-eq g n)

  get_dependencies-create_node :
      (p : T) (n : ℕ) → get_dependencies (create_node g p).0 n ≡ get_dependencies g n
  get_dependencies-create_node p n =
      get_dependencies-eq (create_node g p).0 n
      ∙ (get_elem?-create_node p n).1
      ∙ sym (get_dependencies-eq g n)

  length-create_node : (p : T) → length (create_node g p).0 ≡ length g + 1
  unfolding create_node
  length-create_node p = length-append g _

  pub create_node-IsLinked : (p : T) → IsLinked g → IsLinked (create_node g p).0
  create_node-IsLinked p h = record {
    in_range = λ n d m.
        let old : Link g n d = subst (Memᴰ d) (get_dependents-create_node p n) m in
        omega (arith, length-create_node p, h.in_range n d old);
    mirror =
        λ n d. rw (get_dependents-create_node p n, get_dependencies-create_node p d) (h.mirror n d);
  }
