-- ===== src/Utility/NameMap.antt =====
-- A `std::unordered_map` from names, as far as the catalog uses it: its entries, each name once.
use quickstep_streaming.Prelude.{
  suc, ◌≡◌, refl, sym, ap, ◌∙◌, Bool, true, false, Option, none, some, List, [], ◌∷◌, if◌then◌else◌,
  length, arith, Bool-cases, inl, inr,
}
use quickstep_streaming.Utility.StringUtil.{Name, same_name, same_name_iff}

module _ {ℓ} {V : Type ℓ} where
  unfoldable pub find : List (Name × V) → Name → Option V
  find [] n = none
  find ((m, v) ∷ rest) n = if same_name m n then some v else find rest n

  -- The comparison of an iterator with `end`.
  unfoldable pub is_found : Option V → Bool
  is_found none = false
  is_found (some v) = true

  -- `map[n] = v`.
  unfoldable pub put : List (Name × V) → Name → V → List (Name × V)
  put [] n v = (n, v) ∷ []
  put ((m, w) ∷ rest) n v = if same_name m n then (m, v) ∷ rest else (m, w) ∷ put rest n v

  -- `map.erase(n)`.
  unfoldable pub erase : List (Name × V) → Name → List (Name × V)
  erase [] n = []
  erase ((m, w) ∷ rest) n = if same_name m n then rest else (m, w) ∷ erase rest n

  -- Each name stands once.
  abbrev pub AreDistinct : List (Name × V) → Type ℓ
  AreDistinct [] = Unit
  AreDistinct ((n, v) ∷ rest) = (find rest n ≡ none) × AreDistinct rest

  pub find-put :
      (m : List (Name × V)) (n k : Name) (v : V)
      → find (put m n v) k ≡ (if same_name n k then some v else find m k)
  unfolding find put
  find-put [] n k v = refl
  find-put ((i, w) ∷ m) n k v =
      ground (arith, same_name_iff i n, same_name_iff i k, same_name_iff n k, find-put m n k v)

  pub put-AreDistinct :
      (m : List (Name × V)) (n : Name) (v : V) → AreDistinct m → AreDistinct (put m n v)
  unfolding put find
  put-AreDistinct [] n v d = (refl, tt)
  put-AreDistinct ((i, w) ∷ m) n v d = elim (Bool-cases (same_name i n)) [
    | inl e ↦ rw e d
    | inr e ↦ rw e (
      ground (arith, find-put m n i v, d.0, e, same_name_iff i n, same_name_iff n i),
      put-AreDistinct m n v d.1,
    )
  ]

  pub find-erase_other :
      (m : List (Name × V)) (n k : Name) → same_name n k ≡ false → find (erase m n) k ≡ find m k
  unfolding find erase
  find-erase_other [] n k h = refl
  find-erase_other ((i, w) ∷ m) n k h =
      ground
        (arith, same_name_iff i n, same_name_iff i k, same_name_iff n k, find-erase_other m n k)

  pub find-erase :
      (m : List (Name × V)) (n k : Name)
      → AreDistinct m
      → find (erase m n) k ≡ (if same_name n k then none else find m k)
  unfolding find erase
  find-erase [] n k d = ground arith
  find-erase ((i, w) ∷ m) n k d = elim (Bool-cases (same_name i n)) [
    | inl e ↦ elim (Bool-cases (same_name n k)) [
      | inl f ↦
          let same : i ≡ k = (same_name_iff i n).0 e ∙ (same_name_iff n k).0 f in
          rw (e, f) (ap (find m) (sym same) ∙ d.0)
      | inr f ↦ ground (arith, same_name_iff i n, same_name_iff i k, same_name_iff n k)
    ]
    | inr e ↦
        ground
          (arith, same_name_iff i n, same_name_iff i k, same_name_iff n k, find-erase m n k d.1)
  ]

  pub erase-AreDistinct : (m : List (Name × V)) (n : Name) → AreDistinct m → AreDistinct (erase m n)
  unfolding erase find
  erase-AreDistinct [] n d = d
  erase-AreDistinct ((i, w) ∷ m) n d = elim (Bool-cases (same_name i n)) [
    | inl e ↦ rw e d.1
    | inr e ↦ rw e (ground (arith, find-erase m n i d.1, d.0), erase-AreDistinct m n d.1)
  ]

  pub length-put_new :
      (m : List (Name × V)) (n : Name) (v : V)
      → find m n ≡ none
      → length (put m n v) ≡ suc (length m)
  unfolding put find
  length-put_new [] n v h = refl
  length-put_new ((i, w) ∷ m) n v h = ground (arith, length-put_new m n v)

  pub length-erase :
      (m : List (Name × V)) (n : Name) (v : V)
      → find m n ≡ some v
      → suc (length (erase m n)) ≡ length m
  unfolding erase find
  length-erase [] n v h = cc
  length-erase ((i, w) ∷ m) n v h = ground (arith, length-erase m n v)
