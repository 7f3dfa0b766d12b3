-- ===== src/Catalog/Database/Naming.antt =====
-- A database is a map from names, in lower case, to relations.
use quickstep_streaming.Prelude.{
  ℕ, ◌≤◌, ◌<◌, ◌≡◌, refl, sym, ap, ◌∙◌, true, false, ◌⊎◌, inl, inr, Option, none, some,
  if◌then◌else◌, ltb, ◌==◌, length, arith, Bool-cases,
}
use quickstep_streaming.Utility.StringUtil.{Name, to_lower, same_name, to_lower-to_lower}
use quickstep_streaming.Utility.NameMap.{find, find-put, find-erase}
use quickstep_streaming.Utility.PtrVector.{element_is_null, is_null}
use quickstep_streaming.Catalog.RelationSchema.{Schema, max_id}
use quickstep_streaming.Catalog.Database.{
  Database, ok, throw, pos, relation_name_collision, relation_name_not_found, relation_id_not_found,
  id_overflow, with_id, add_relation, relation_at, has_relation_with_name, has_relation_with_id,
  get_relation_by_name, drop_at, drop_relation_by_name, drop_relation_by_id, drop_found, id_of,
  name_of,
}
use quickstep_streaming.Catalog.Database.Consistent.{
  IsConsistent, relation_at-lt, taken, relation_at-taken, taken-IsConsistent, dropped,
  relation_at-dropped, dropped-IsConsistent,
}

-- What a pointer leads to.
unfoldable pub at_pointer : Database → Option ℕ → Option Schema
at_pointer db none = none
at_pointer db (some i) = relation_at db i

-- The relation that `get_relation_by_name` gives.
unfoldable pub named : Database → Name → Option Schema
unfolding at_pointer
named db n = at_pointer db (get_relation_by_name db n)

Option-cases {ℓ} : {A : Type ℓ} (o : Option A) → (o ≡ none) ⊎ (a : A) × (o ≡ some a)
Option-cases none = inl refl
Option-cases (some a) = inr (a, refl)

pub named-find :
    (db : Database) (n : Name) → named db n ≡ at_pointer db (find db.rel_map (to_lower n))
unfolding named get_relation_by_name
named-find db n = refl

-- In a consistent database no pointer of the map is null.
find-none :
    (db : Database) (n : Name)
    → IsConsistent db
    → named db n ≡ none
    → find db.rel_map (to_lower n) ≡ none
unfolding at_pointer
find-none db n h e = elim (Option-cases (find db.rel_map (to_lower n))) [
  | inl f ↦ f
  | inr (i, f) ↦
      let (r, at, name) = h.present (to_lower n) i f in
      absurd (ground (arith, named-find db n ∙ ap (at_pointer db) f))
]

find-some :
    (db : Database) (n : Name) (r : Schema)
    → named db n ≡ some r
    → (i : ℕ) × (find db.rel_map (to_lower n) ≡ some i) × (relation_at db i ≡ some r)
unfolding at_pointer
find-some db n r e = elim (Option-cases (find db.rel_map (to_lower n))) [
  | inl f ↦ absurd (ground (arith, named-find db n ∙ ap (at_pointer db) f))
  | inr (i, f) ↦ (i, f, sym (named-find db n ∙ ap (at_pointer db) f) ∙ e)
]

named-taken :
    (db : Database) (r : Schema) (n : Name)
    → IsConsistent db
    → named (taken db r) n ≡ (
        if same_name (to_lower r.name) (to_lower n)
        then some (with_id r (length db.rel_vec))
        else named db n)
unfolding at_pointer
named-taken db r n h =
    let t : Database = taken db r in
    let len : ℕ = length db.rel_vec in
    let f = find-put db.rel_map (to_lower r.name) (to_lower n) len in
    elim (Bool-cases (same_name (to_lower r.name) (to_lower n))) [
      | inl e ↦
          let k : find t.rel_map (to_lower n) ≡ some len = f ∙ rw e refl in
          named-find t n ∙ ap (at_pointer t) k ∙ ground (arith, relation_at-taken db r len)
      | inr e ↦
          let k : find t.rel_map (to_lower n) ≡ find db.rel_map (to_lower n) = f ∙ rw e refl in
          named-find t n
          ∙ ap (at_pointer t) k
          ∙ rw e (elim (Option-cases (find db.rel_map (to_lower n))) [
            | inl g ↦ rw (g, named-find db n, g) refl
            | inr (i, g) ↦
                let (q, at, name) = h.present (to_lower n) i g in
                let small = relation_at-lt db i q at in
                ap (at_pointer t) g
                ∙ relation_at-taken db r i
                ∙ ground (arith, named-find db n ∙ ap (at_pointer db) g)
          ])
    ]

named-dropped :
    (db : Database) (k : Name) (i : ℕ) (n : Name)
    → IsConsistent db
    → find db.rel_map k ≡ some i
    → named (dropped db k i) n ≡ (if same_name k (to_lower n) then none else named db n)
unfolding at_pointer
named-dropped db k i n h there =
    let t : Database = dropped db k i in
    let f = find-erase db.rel_map k (to_lower n) h.distinct in
    elim (Bool-cases (same_name k (to_lower n))) [
      | inl e ↦
          let g : find t.rel_map (to_lower n) ≡ none = f ∙ rw e refl in
          named-find t n ∙ ap (at_pointer t) g ∙ rw e refl
      | inr e ↦
          let g : find t.rel_map (to_lower n) ≡ find db.rel_map (to_lower n) = f ∙ rw e refl in
          named-find t n
          ∙ ap (at_pointer t) g
          ∙ rw e (elim (Option-cases (find db.rel_map (to_lower n))) [
            | inl m ↦ rw (m, named-find db n, m) refl
            | inr (j, m) ↦
                let still : find t.rel_map (to_lower n) ≡ some j = g ∙ m in
                let (q, at, name) =
                  (dropped-IsConsistent db k i h there).present (to_lower n) j still in
                let before = relation_at-dropped db k i j in
                ap (at_pointer t) m ∙ elim (Bool-cases (i == j)) [
                  | inl w ↦ absurd (ground arith)
                  | inr w ↦ before ∙ rw w (sym (named-find db n ∙ ap (at_pointer db) m))
                ]
          ])
    ]

-- Each outcome of adding a relation, with when it comes about and what it does to the names.
abbrev pub Adds : Database → Schema → Type 0
Adds db r =
    ((q : Schema) × (named db r.name ≡ some q)
      × (add_relation db r ≡ throw relation_name_collision))
    ⊎ ((named db r.name ≡ none)
        × (max_id < length db.rel_vec)
        × (add_relation db r ≡ throw id_overflow))
    ⊎ (t : Database) × (named db r.name ≡ none)
      × (length db.rel_vec ≤ max_id)
      × (add_relation db r ≡ ok (t, length db.rel_vec))
      × IsConsistent t
      × ((n : Name)
          → named t n ≡ (
              if same_name (to_lower r.name) (to_lower n)
              then some (with_id r (length db.rel_vec))
              else named db n))

-- Each outcome of dropping by name.
abbrev pub DropsByName : Database → Name → Type 0
DropsByName db n =
    ((named db n ≡ none) × (drop_relation_by_name db n ≡ throw relation_name_not_found))
    ⊎ (r : Schema) × (t : Database) × (named db n ≡ some r)
      × (drop_relation_by_name db n ≡ ok t)
      × IsConsistent t
      × ((m : Name)
          → named t m ≡ (if same_name (to_lower n) (to_lower m) then none else named db m))

-- Each outcome of dropping by id.
abbrev pub DropsById : Database → ℕ → Type 0
DropsById db i =
    ((relation_at db i ≡ none) × (drop_relation_by_id db (pos i) ≡ throw relation_id_not_found))
    ⊎ (r : Schema) × (relation_at db i ≡ some r)
      × (drop_relation_by_id db (pos i) ≡ drop_relation_by_name db r.name)

module _ (db : Database) (h : IsConsistent db) where
  has_name : (n : Name) → has_relation_with_name db (to_lower n) ≡ has_relation_with_name db n
  unfolding has_relation_with_name
  has_name n = rw (to_lower-to_lower n) refl

  has_none : (n : Name) → find db.rel_map (to_lower n) ≡ none → has_relation_with_name db n ≡ false
  unfolding has_relation_with_name
  has_none n e = rw e refl

  has_some :
      (n : Name) (i : ℕ)
      → find db.rel_map (to_lower n) ≡ some i
      → has_relation_with_name db n ≡ true
  unfolding has_relation_with_name
  has_some n i e = rw e refl

  pub add_taken :
      (r : Schema)
      → find db.rel_map (to_lower r.name) ≡ none
      → length db.rel_vec ≤ max_id
      → add_relation db r ≡ ok (taken db r, length db.rel_vec)
  unfolding add_relation
  add_taken r f small =
      let under : ltb max_id (length db.rel_vec) ≡ false = ground arith in
      rw (has_name r.name, has_none r.name f, under) refl

  drop_some :
      (n : Name) (i : ℕ) (r : Schema)
      → find db.rel_map (to_lower n) ≡ some i
      → relation_at db i ≡ some r
      → drop_relation_by_name db n ≡ ok (dropped db (to_lower n) i)
  unfolding drop_relation_by_name drop_found id_of drop_at
  drop_some n i r f at = rw (f, at, (h.listed i r at).0) refl

  -- Adding a relation to a consistent database throws if there is one of its name, in whatever
  -- case, or else if there are 2 ^ 31 relations and gaps. Else it gives the relation the next id,
  -- the database stays consistent, and the name leads to the new relation and each other name to
  -- what it led to before.
  pub add_relation-named : (r : Schema) → Adds db r
  unfolding add_relation
  add_relation-named r = elim (Option-cases (named db r.name)) [
    | inr (q, e) ↦
        let (i, f, at) = find-some db r.name q e in
        inl (q, e, rw (has_name r.name, has_some r.name i f) refl)
    | inl e ↦
        let f = find-none db r.name h e in
        elim (Bool-cases (ltb max_id (length db.rel_vec))) [
          | inl over ↦
              inr (inl (e, ground arith, rw (has_name r.name, has_none r.name f, over) refl))
          | inr under ↦ inr (
              inr (
                taken db r,
                e,
                ground arith,
                add_taken r f (ground arith),
                taken-IsConsistent db r h f,
                λ n. named-taken db r n h,
              ))
        ]
  ]

  -- Dropping by name from a consistent database throws if no relation has the name, in whatever
  -- case. Else the database stays consistent, the name leads to no relation and each other name to
  -- what it led to before.
  pub drop_relation_by_name-named : (n : Name) → DropsByName db n
  unfolding drop_relation_by_name drop_found
  drop_relation_by_name-named n = elim (Option-cases (named db n)) [
    | inl e ↦ inl (e, rw (find-none db n h e) refl)
    | inr (r, e) ↦
        let (i, f, at) = find-some db n r e in
        inr (
          r,
          dropped db (to_lower n) i,
          e,
          drop_some n i r f at,
          dropped-IsConsistent db (to_lower n) i h f,
          λ m. named-dropped db (to_lower n) i m h f,
        )
  ]

  has_at : (i : ℕ) (r : Schema) → relation_at db i ≡ some r → has_relation_with_id db (pos i) ≡ true
  unfolding has_relation_with_id relation_at element_is_null is_null
  has_at i r at =
      let small = relation_at-lt db i r at in
      let inside : ltb i (length db.rel_vec) ≡ true = ground arith in rw (inside, at) refl

  has_not : (i : ℕ) → relation_at db i ≡ none → has_relation_with_id db (pos i) ≡ false
  unfolding has_relation_with_id relation_at element_is_null is_null
  has_not i at = rw at (ground arith)

  -- In a consistent database, dropping by an id from 0 on throws if no relation has the id, and
  -- else does what dropping by the name of that relation does.
  pub drop_relation_by_id-name : (i : ℕ) → DropsById db i
  unfolding drop_relation_by_id name_of
  drop_relation_by_id-name i = elim (Option-cases (relation_at db i)) [
    | inl at ↦ inl (at, rw (has_not i at) refl)
    | inr (r, at) ↦
        inr (r, at, rw (has_at i r at, at) (sym (drop_some r.name i r (h.listed i r at).1 at)))
  ]
