-- ===== src/Catalog/Database/Consistent.antt =====
-- The vector and the map of a database agree.
use quickstep_streaming.Prelude.{
  ℕ, zero, suc, ◌<◌, ◌≡◌, refl, sym, ap, ◌∙◌, inl, inr, Option, none, some, [], ◌∷◌, if◌then◌else◌,
  ◌==◌, length, get_or, arith, Bool-cases,
}
use quickstep_streaming.Utility.StringUtil.{Name, to_lower, same_name, same_name_iff}
use quickstep_streaming.Utility.NameMap.{
  find, put, erase, AreDistinct, find-put, put-AreDistinct, find-erase, erase-AreDistinct,
  length-put_new, length-erase,
}
use quickstep_streaming.Utility.PtrVector.{PtrVector, push_back, delete_element, elements}
use quickstep_streaming.Catalog.RelationSchema.{Schema}
use quickstep_streaming.Catalog.Database.{Database, new_database, with_id, relation_at}

module _ {ℓ} {T : Type ℓ} where
  pub get_or-push_back :
      (v : PtrVector T) (x : Option T) (i : ℕ)
      → get_or (push_back v x) i none ≡ (if i == length v then x else get_or v i none)
  unfolding push_back
  get_or-push_back [] x zero = refl
  get_or-push_back [] x (suc i) = ground arith
  get_or-push_back (y ∷ v) x zero = ground arith
  get_or-push_back (y ∷ v) x (suc i) = ground (arith, get_or-push_back v x i)

  pub get_or-delete_element :
      (v : PtrVector T) (n i : ℕ)
      → get_or (delete_element v n) i none ≡ (if n == i then none else get_or v i none)
  unfolding delete_element
  get_or-delete_element [] n i = ground arith
  get_or-delete_element (y ∷ v) zero zero = refl
  get_or-delete_element (y ∷ v) zero (suc i) = ground arith
  get_or-delete_element (y ∷ v) (suc n) zero = ground arith
  get_or-delete_element (y ∷ v) (suc n) (suc i) = ground (arith, get_or-delete_element v n i)

  pub elements-push_back :
      (v : PtrVector T) (x : T)
      → length (elements (push_back v (some x))) ≡ suc (length (elements v))
  unfolding push_back
  elements-push_back [] x = refl
  elements-push_back (none ∷ v) x = elements-push_back v x
  elements-push_back (some y ∷ v) x = ap suc (elements-push_back v x)

  pub elements-delete_element :
      (v : PtrVector T) (n : ℕ) (x : T)
      → get_or v n none ≡ some x
      → suc (length (elements (delete_element v n))) ≡ length (elements v)
  unfolding delete_element
  elements-delete_element [] n x h = cc
  elements-delete_element (none ∷ v) zero x h = cc
  elements-delete_element (some y ∷ v) zero x h = refl
  elements-delete_element (none ∷ v) (suc n) x h = elements-delete_element v n x h
  elements-delete_element (some y ∷ v) (suc n) x h = ap suc (elements-delete_element v n x h)

  pub get_or-lt : (v : PtrVector T) (i : ℕ) (x : T) → get_or v i none ≡ some x → i < length v
  get_or-lt [] i x h = cc
  get_or-lt (y ∷ v) zero x h = omega arith
  get_or-lt (y ∷ v) (suc i) x h = omega (arith, get_or-lt v i x h)

-- Each relation in the vector knows its position and the map has it there under its name, and each
-- entry of the map leads to a relation of that name.
pub record IsConsistent (db : Database) : Type 0 where
  pub distinct : AreDistinct db.rel_map
  pub listed :
      (i : ℕ) (r : Schema)
      → relation_at db i ≡ some r
      → (r.id ≡ some i) × (find db.rel_map (to_lower r.name) ≡ some i)
  pub present :
      (n : Name) (i : ℕ)
      → find db.rel_map n ≡ some i
      → (r : Schema) × (relation_at db i ≡ some r) × (to_lower r.name ≡ n)
  pub counted : length db.rel_map ≡ length (elements db.rel_vec)

pub new_database-IsConsistent : (name : Name) → IsConsistent (new_database name)
unfolding find relation_at
new_database-IsConsistent name = record {
  distinct = tt;
  listed = λ i r e. absurd (cc);
  present = λ n i e. absurd (cc);
  counted = refl;
}

-- What `add_relation` makes where it does not throw.
abbrev pub taken : Database → Schema → Database
taken db r = record db {
  rel_map = put db.rel_map (to_lower r.name) (length db.rel_vec);
  rel_vec = push_back db.rel_vec (some (with_id r (length db.rel_vec)));
}

pub relation_at-taken :
    (db : Database) (r : Schema) (i : ℕ)
    → relation_at (taken db r) i
      ≡ (if i == length db.rel_vec then some (with_id r (length db.rel_vec)) else relation_at db i)
unfolding relation_at
relation_at-taken db r i = get_or-push_back db.rel_vec _ i

pub relation_at-lt :
    (db : Database) (i : ℕ) (r : Schema) → relation_at db i ≡ some r → i < length db.rel_vec
unfolding relation_at
relation_at-lt db i r h = get_or-lt db.rel_vec i r h

module _ (db : Database) (r : Schema) (h : IsConsistent db)
    (new : find db.rel_map (to_lower r.name) ≡ none) where
  taken-listed :
      (i : ℕ) (q : Schema)
      → relation_at (taken db r) i ≡ some q
      → (q.id ≡ some i) × (find (taken db r).rel_map (to_lower q.name) ≡ some i)
  taken-listed i q e =
      let at = relation_at-taken db r i in
      let named = find-put db.rel_map (to_lower r.name) (to_lower q.name) (length db.rel_vec) in
      elim (Bool-cases (i == length db.rel_vec)) [
        | inl last ↦
            let same : with_id r (length db.rel_vec) ≡ q = ground arith in
            let k : i ≡ length db.rel_vec = ground arith in
            let name : to_lower r.name ≡ to_lower q.name =
              ap (λ (x : Schema). to_lower x.name) same in
            (
              sym (ap (λ (x : Schema). x.id) same) ∙ ap some (sym k),
              ground (arith, (same_name_iff (to_lower r.name) (to_lower q.name)).1 name),
            )
        | inr old ↦
            let (id, there) = h.listed i q (ground arith) in
            (
              id,
              ground
                  (arith, same_name_iff (to_lower r.name) (to_lower q.name), ap (find db.rel_map)),
            )
      ]

  taken-present :
      (n : Name) (i : ℕ)
      → find (taken db r).rel_map n ≡ some i
      → (q : Schema) × (relation_at (taken db r) i ≡ some q) × (to_lower q.name ≡ n)
  taken-present n i e =
      let named = find-put db.rel_map (to_lower r.name) n (length db.rel_vec) in
      elim (Bool-cases (same_name (to_lower r.name) n)) [
        | inl same ↦ (
          with_id r (length db.rel_vec),
          ground (arith, relation_at-taken db r i),
          (same_name_iff (to_lower r.name) n).0 same,
        )
        | inr other ↦
            let (q, there, name) = h.present n i (ground arith) in
            (q, ground (arith, relation_at-taken db r i, relation_at-lt db i q there), name)
      ]

  pub taken-IsConsistent : IsConsistent (taken db r)
  taken-IsConsistent = record {
    distinct = put-AreDistinct db.rel_map (to_lower r.name) (length db.rel_vec) h.distinct;
    listed = taken-listed;
    present = taken-present;
    counted = omega (
      arith,
      h.counted,
      length-put_new db.rel_map (to_lower r.name) (length db.rel_vec) new,
      elements-push_back db.rel_vec (with_id r (length db.rel_vec)),
    );
  }

-- What a drop leaves.
abbrev pub dropped : Database → Name → ℕ → Database
dropped db n i = record db { rel_vec = delete_element db.rel_vec i; rel_map = erase db.rel_map n }

pub relation_at-dropped :
    (db : Database) (n : Name) (i j : ℕ)
    → relation_at (dropped db n i) j ≡ (if i == j then none else relation_at db j)
unfolding relation_at
relation_at-dropped db n i j = get_or-delete_element db.rel_vec i j

module _ (db : Database) (n : Name) (i : ℕ) (h : IsConsistent db)
    (there : find db.rel_map n ≡ some i) where
  dropped-listed :
      (j : ℕ) (q : Schema)
      → relation_at (dropped db n i) j ≡ some q
      → (q.id ≡ some j) × (find (dropped db n i).rel_map (to_lower q.name) ≡ some j)
  dropped-listed j q e =
      let at = relation_at-dropped db n i j in
      elim (Bool-cases (i == j)) [
        | inl same ↦ absurd (ground arith)
        | inr other ↦
            let (id, named) = h.listed j q (ground arith) in
            (
              id,
              elim (Bool-cases (same_name n (to_lower q.name))) [
                | inl e' ↦
                    let k : find db.rel_map n ≡ some j =
                      ap (find db.rel_map) ((same_name_iff n (to_lower q.name)).0 e') ∙ named in
                    absurd (ground arith)
                | inr e' ↦ find-erase db.rel_map n (to_lower q.name) h.distinct ∙ rw e' named
              ],
            )
      ]

  dropped-present :
      (m : Name) (j : ℕ)
      → find (dropped db n i).rel_map m ≡ some j
      → (q : Schema) × (relation_at (dropped db n i) j ≡ some q) × (to_lower q.name ≡ m)
  dropped-present m j e =
      let left = find-erase db.rel_map n m h.distinct in
      elim (Bool-cases (same_name n m)) [
        | inl same ↦ absurd (ground arith)
        | inr other ↦
            let found : find db.rel_map m ≡ some j = ground arith in
            let (q, at, name) = h.present m j found in
            let (p, at', name') = h.present n i there in
            (
              q,
              relation_at-dropped db n i j ∙ elim (Bool-cases (i == j)) [
                | inl e' ↦
                    let k : i ≡ j = ground arith in
                    let one : p ≡ q = ground (arith, ap (relation_at db) k) in
                    let same : n ≡ m =
                      sym name' ∙ ap (λ (x : Schema). to_lower x.name) one ∙ name in
                    absurd (ground (arith, (same_name_iff n m).1 same))
                | inr e' ↦ rw e' at
              ],
              name,
            )
      ]

  pub dropped-IsConsistent : IsConsistent (dropped db n i)
  unfolding relation_at
  dropped-IsConsistent =
      let (p, at, name) = h.present n i there in
      record {
        distinct = erase-AreDistinct db.rel_map n h.distinct;
        listed = dropped-listed;
        present = dropped-present;
        counted = omega (
          arith,
          h.counted,
          length-erase db.rel_map n i there,
          elements-delete_element db.rel_vec i p at,
        );
      }
