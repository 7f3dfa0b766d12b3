-- ===== src/Catalog/Database/Same.antt =====
-- A null pointer at the end of the vector, and databases that have the same vector.
use quickstep_streaming.Prelude.{
  ℕ, ◌≡◌, refl, sym, ap, ◌∙◌, subst, ◌⊎◌, inl, inr, Option, none, some, [], ◌∷◌, ◌==◌, length,
  get_or, get_or-past, arith, Bool-cases,
}
use quickstep_streaming.Utility.StringUtil.{Name, to_lower}
use quickstep_streaming.Utility.NameMap.{find}
use quickstep_streaming.Utility.PtrVector.{PtrVector, push_back, elements}
use quickstep_streaming.Catalog.RelationSchema.{Schema}
use quickstep_streaming.Catalog.Database.{Database, relation_at}
use quickstep_streaming.Catalog.Database.Consistent.{IsConsistent, get_or-push_back}
use quickstep_streaming.Catalog.Database.Naming.{named, named-find, at_pointer}

-- A null pointer at the end.
abbrev pub skipped : Database → Database
skipped db = record db { rel_vec = push_back db.rel_vec none }

relation_at-skipped : (db : Database) (i : ℕ) → relation_at (skipped db) i ≡ relation_at db i
unfolding relation_at
relation_at-skipped db i =
    get_or-push_back db.rel_vec none i ∙ elim (Bool-cases (i == length db.rel_vec)) [
      | inl e ↦ rw e (sym (get_or-past db.rel_vec i none (ground arith)))
      | inr e ↦ rw e refl
    ]

elements-skipped : (v : PtrVector Schema) → elements (push_back v none) ≡ elements v
unfolding push_back
elements-skipped [] = refl
elements-skipped (none ∷ v) = elements-skipped v
elements-skipped (some r ∷ v) = ap (λ rs. r ∷ rs) (elements-skipped v)

pub skipped-IsConsistent : (db : Database) → IsConsistent db → IsConsistent (skipped db)
skipped-IsConsistent db h = record {
  distinct = h.distinct;
  listed = λ i r e. h.listed i r (sym (relation_at-skipped db i) ∙ e);
  present =
      λ n i e. let (r, at, name) = h.present n i e in (r, relation_at-skipped db i ∙ at, name);
  counted = h.counted ∙ sym (ap length (elements-skipped db.rel_vec));
}

-- Two consistent databases with one vector have one meaning.
find-same :
    (a b : Database)
    → IsConsistent a
    → IsConsistent b
    → a.rel_vec ≡ b.rel_vec
    → (n : Name) (i : ℕ) → find a.rel_map n ≡ some i
    → find b.rel_map n ≡ some i
unfolding relation_at
find-same a b ha hb e n i f =
    let (r, at, name) = ha.present n i f in
    subst (λ k. find b.rel_map k ≡ some i) name
      (hb.listed i r (ap (λ (v : PtrVector Schema). get_or v i none) (sym e) ∙ at)).1

pub Option-cases : (o : Option ℕ) → (o ≡ none) ⊎ (a : ℕ) × (o ≡ some a)
Option-cases none = inl refl
Option-cases (some a) = inr (a, refl)

pub named-same :
    (a b : Database)
    → IsConsistent a
    → IsConsistent b
    → a.rel_vec ≡ b.rel_vec
    → (n : Name) → named a n ≡ named b n
unfolding at_pointer relation_at
named-same a b ha hb e n = elim (Option-cases (find a.rel_map (to_lower n))) [
  | inr (i, f) ↦
      let g = find-same a b ha hb e (to_lower n) i f in
      named-find a n
      ∙ ap (at_pointer a) f
      ∙ ap (λ (v : PtrVector Schema). get_or v i none) e
      ∙ sym (named-find b n ∙ ap (at_pointer b) g)
  | inl f ↦ elim (Option-cases (find b.rel_map (to_lower n))) [
    | inr (i, g) ↦ let k = find-same b a hb ha (sym e) (to_lower n) i g in absurd (ground arith)
    | inl g ↦ named-find a n ∙ ap (at_pointer a) f ∙ sym (named-find b n ∙ ap (at_pointer b) g)
  ]
]
