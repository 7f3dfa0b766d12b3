-- ===== src/Utility/Dag/Links.antt =====
-- Links: `createLink` records a link at both of its ends.
use mathlib.Core.Option
use mathlib.Core.List.{Memᴰ}
use mathlib.Core.List.Memᴰ
use quickstep_streaming.Prelude.{
  ℕ, ◌<◌, ◌≡◌, ◌↔◌, ◌⊎◌, inl, inr, refl, sym, ap, ◌∙◌, subst, Option, none, some, List, [], ◌∷◌,
  if◌then◌else◌, ◌==◌, ltb, length, get_elem?, modify, arith, Bool-cases, length-modify,
  get_elem?-modify, get_elem?-lt, get_elem?-past,
}
use quickstep_streaming.Utility.Dag.{
  DagNode, Dag, find, emplace, assign, insert, add_dependent, add_dependency, create_link, find_in,
  get_link_metadata, dependent_indices, dependents_of, dependencies_of, get_dependents,
  get_dependencies,
}
use quickstep_streaming.Utility.Dag.Search.{Link}

pub mem-insert : (ns : List ℕ) (n m : ℕ) → Memᴰ m (insert ns n) ↔ (Memᴰ m ns ⊎ (m ≡ n))
unfolding insert
mem-insert [] n m = (
  λ h. elim h [ Memᴰ.head e ↦ inr e | Memᴰ.tail k ↦ inl k ],
  λ h. elim h [ inl k ↦ Memᴰ.tail k | inr e ↦ Memᴰ.head e ],
)
mem-insert (k ∷ ns) n m = elim (Bool-cases (k == n)) [
  | inl same ↦
      let e : n ≡ k = ground arith in
      rw same (inl, λ h. elim h [ inl k ↦ k | inr q ↦ Memᴰ.head (q ∙ e) ])
  | inr other ↦ rw other (
    λ h. elim h [
      | Memᴰ.head e ↦ inl (Memᴰ.head e)
      | Memᴰ.tail t ↦ elim ((mem-insert ns n m).0 t) [ inl l ↦ inl (Memᴰ.tail l) | inr e ↦ inr e ]
    ],
    λ h. elim h [
      | inl k ↦ elim k [
        | Memᴰ.head e ↦ Memᴰ.head e
        | Memᴰ.tail t ↦ Memᴰ.tail ((mem-insert ns n m).1 (inl t))
      ]
      | inr e ↦ Memᴰ.tail ((mem-insert ns n m).1 (inr e))
    ],
  )
]

module _ {L : Type 0} where
  -- The keys of the map grow as a set does.
  dependent_indices-emplace :
      (es : List (ℕ × L)) (n : ℕ) (l : L)
      → dependent_indices (emplace es n l) ≡ insert (dependent_indices es) n
  unfolding dependent_indices emplace insert
  dependent_indices-emplace [] n l = refl
  dependent_indices-emplace ((m, k) ∷ es) n l = ground (arith, dependent_indices-emplace es n l)

  pub find-emplace :
      (es : List (ℕ × L)) (n : ℕ) (l : L) → find es n ≡ none → find (emplace es n l) n ≡ some l
  unfolding find emplace
  find-emplace [] n l h = ground arith
  find-emplace ((m, k) ∷ es) n l h = ground (arith, find-emplace es n l)

  pub find-assign :
      (es : List (ℕ × L)) (n m : ℕ) (l : L)
      → find (assign es n l) m ≡ (if n == m then some l else find es m)
  unfolding find assign
  find-assign [] n m l = ground arith
  find-assign ((k, v) ∷ es) n m l = ground (arith, find-assign es n m l)

module _ {T L : Type 0} where
  pub get_dependents-eq : (g : Dag T L) (n : ℕ) → get_dependents g n ≡ dependents_of (get_elem? g n)
  unfolding get_dependents
  get_dependents-eq g n = refl

  pub get_dependencies-eq :
      (g : Dag T L) (n : ℕ) → get_dependencies g n ≡ dependencies_of (get_elem? g n)
  unfolding get_dependencies
  get_dependencies-eq g n = refl

  -- How the changes of a node show.
  dependents_of-add_dependency :
      (a : ℕ) (o : Option (DagNode T L))
      → dependents_of (Option.map (add_dependency a) o) ≡ dependents_of o
  unfolding dependents_of add_dependency
  dependents_of-add_dependency a none = refl
  dependents_of-add_dependency a (some node) = refl

  dependencies_of-add_dependent :
      (b : ℕ) (l : L) (o : Option (DagNode T L))
      → dependencies_of (Option.map (add_dependent b l) o) ≡ dependencies_of o
  unfolding dependencies_of add_dependent
  dependencies_of-add_dependent b l none = refl
  dependencies_of-add_dependent b l (some node) = refl

  dependents_of-add_dependent :
      (b : ℕ) (l : L) (node : DagNode T L)
      → dependents_of (some (add_dependent b l node)) ≡ insert (dependents_of (some node)) b
  unfolding dependents_of add_dependent
  dependents_of-add_dependent b l node = dependent_indices-emplace node.dependents_with_metadata b l

  dependencies_of-add_dependency :
      (a : ℕ) (node : DagNode T L)
      → dependencies_of (some (add_dependency a node)) ≡ insert (dependencies_of (some node)) a
  unfolding dependencies_of add_dependency
  dependencies_of-add_dependency a node = refl

  modify-dependents :
      (g : Dag T L) (a n : ℕ) (f : DagNode T L → DagNode T L)
      → get_dependents (modify g a f) n ≡ (
          if a == n
          then dependents_of (Option.map f (get_elem? g n))
          else dependents_of (get_elem? g n))
  modify-dependents g a n f = elim (Bool-cases (a == n)) [
    | inl e ↦ rw (get_dependents-eq, get_elem?-modify g a n f, e) refl
    | inr e ↦ rw (get_dependents-eq, get_elem?-modify g a n f, e) refl
  ]

  modify-dependencies :
      (g : Dag T L) (a n : ℕ) (f : DagNode T L → DagNode T L)
      → get_dependencies (modify g a f) n ≡ (
          if a == n
          then dependencies_of (Option.map f (get_elem? g n))
          else dependencies_of (get_elem? g n))
  modify-dependencies g a n f = elim (Bool-cases (a == n)) [
    | inl e ↦ rw (get_dependencies-eq, get_elem?-modify g a n f, e) refl
    | inr e ↦ rw (get_dependencies-eq, get_elem?-modify g a n f, e) refl
  ]

  module _ (g : Dag T L) (a b : ℕ) (l : L) (bound_a : a < length g) (bound_b : b < length g) where
    pub get_dependents-create_link :
        (n : ℕ)
        → get_dependents (create_link g a b l) n
          ≡ (if a == n then insert (get_dependents g n) b else get_dependents g n)
    unfolding create_link
    get_dependents-create_link n =
        let first : Dag T L = modify g a (add_dependent b l) in
        let same : get_dependents (modify first b (add_dependency a)) n ≡ get_dependents first n =
          modify-dependents first b n (add_dependency a) ∙ elim (Bool-cases (b == n)) [
            | inl e ↦
                rw (e, dependents_of-add_dependency a (get_elem? first n))
                  (sym (get_dependents-eq first n))
            | inr e ↦ rw e (sym (get_dependents-eq first n))
          ] in
        same ∙ modify-dependents g a n (add_dependent b l) ∙ elim (Bool-cases (a == n)) [
          | inl e ↦
              let (node, q) = get_elem?-lt g n (ground arith) in
              rw (e, get_dependents-eq, q) (dependents_of-add_dependent b l node)
          | inr e ↦ rw e (sym (get_dependents-eq g n))
        ]

    pub get_dependencies-create_link :
        (n : ℕ)
        → get_dependencies (create_link g a b l) n
          ≡ (if b == n then insert (get_dependencies g n) a else get_dependencies g n)
    unfolding create_link
    get_dependencies-create_link n =
        let first : Dag T L = modify g a (add_dependent b l) in
        let same : get_dependencies first n ≡ get_dependencies g n =
          modify-dependencies g a n (add_dependent b l) ∙ elim (Bool-cases (a == n)) [
            | inl e ↦
                rw (e, dependencies_of-add_dependent b l (get_elem? g n))
                  (sym (get_dependencies-eq g n))
            | inr e ↦ rw e (sym (get_dependencies-eq g n))
          ] in
        modify-dependencies first b n (add_dependency a) ∙ elim (Bool-cases (b == n)) [
          | inl e ↦
              let (node, q) =
                get_elem?-lt first n (ground (arith, length-modify g a (add_dependent b l))) in
              let here : dependencies_of (some node) ≡ get_dependencies g n =
                ap dependencies_of (sym q) ∙ sym (get_dependencies-eq first n) ∙ same in
              rw (e, q) (dependencies_of-add_dependency a node ∙ ap (λ ns. insert ns a) here)
          | inr e ↦ rw e (sym (get_dependencies-eq first n) ∙ same)
        ]

  -- Only nodes have links.
  pub Link-lt : (g : Dag T L) (n d : ℕ) → Link g n d → n < length g
  unfolding get_dependents
  Link-lt g n d l = elim (Bool-cases (ltb n (length g))) [
    | inl e ↦ ground arith
    | inr e ↦
        let past : get_elem? g n ≡ none = get_elem?-past g n (ground arith) in
        absurd (Memᴰ.not-nil (subst (λ o. Memᴰ d (dependents_of o)) past l))
  ]

  get_link_metadata-eq :
      (g : Dag T L) (n d : ℕ) → get_link_metadata g n d ≡ find_in (get_elem? g n) d
  unfolding get_link_metadata
  get_link_metadata-eq g n d = refl

  -- `create_link` from a node, where there is no link yet, gives the link its metadata.
  pub get_link_metadata-create_link :
      (g : Dag T L) (a b : ℕ) (l : L)
      → a < length g
      → get_link_metadata g a b ≡ none
      → get_link_metadata (create_link g a b l) a b ≡ some l
  unfolding create_link find_in add_dependent add_dependency
  get_link_metadata-create_link g a b l bound fresh =
      let (node, q) = get_elem?-lt g a bound in
      let new : find node.dependents_with_metadata b ≡ none =
        sym (get_link_metadata-eq g a b ∙ ap (λ o. find_in o b) q) ∙ fresh in
      let first : Dag T L = modify g a (add_dependent b l) in
      let first_at : get_elem? first a ≡ some (add_dependent b l node) =
        get_elem?-modify g a a _ ∙ rw (q) (ground arith) in
      get_link_metadata-eq (create_link g a b l) a b ∙ elim (Bool-cases (b == a)) [
        | inl e ↦
            rw (get_elem?-modify first b a (add_dependency a), e, first_at)
              (find-emplace node.dependents_with_metadata b l new)
        | inr e ↦
            rw (get_elem?-modify first b a (add_dependency a), e, first_at)
              (find-emplace node.dependents_with_metadata b l new)
      ]
