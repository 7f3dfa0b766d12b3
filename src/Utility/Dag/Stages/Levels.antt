-- ===== src/Utility/Dag/Stages/Levels.antt =====
-- One round of the first pass: what it puts in the new stage, and the offsets it writes.
use mathlib.Core.List.{Memᴰ}
use mathlib.Core.List.Memᴰ
use quickstep_streaming.Prelude.{
  ℕ, zero, suc, ◌+◌, ◌≤◌, ◌<◌, ◌≡◌, ◌↔◌, ◌⊎◌, inl, inr, refl, sym, ap, subst, ◌∙◌, Bool, true,
  false, List, [], ◌∷◌, if◌then◌else◌, if_both, ◌==◌, length, get_or, modify, arith, Bool-cases,
  length-modify, get_or-modify_const,
}
use quickstep_streaming.Utility.Dag.{Dag, insert, get_dependencies}
use quickstep_streaming.Utility.Dag.Links.{mem-insert}
use quickstep_streaming.Utility.Dag.Stages.{
  Finish, finish_dependencies, finish_stage, finish_sinks, is_sink,
}

abbrev pub offset : Finish → ℕ → ℕ
offset s m = get_or s.offsets m 0

-- The nodes of the stage have the offset `num`, and the others the one that they had before.
pub record Writes (num : ℕ) (before : List ℕ) (s : Finish) : Type 0 where
  pub size : length s.offsets ≡ length before
  pub written :
      (m : ℕ)
      → (Memᴰ m s.stage × (offset s m ≡ num))
        ⊎ (Memᴰ m s.stage → ⊥) × (offset s m ≡ get_or before m 0)

abbrev pub put : ℕ → ℕ → Finish → Finish
put num d s = record { offsets = modify s.offsets d (λ _. num); stage = insert s.stage d }

pub put-Writes :
    (num : ℕ) (before : List ℕ) (s : Finish) (d : ℕ)
    → d < length before
    → Writes num before s
    → Writes num before (put num d s)
put-Writes num before s d bound w = record {
  size = length-modify s.offsets d _ ∙ w.size;
  written = λ m.
      let at = get_or-modify_const s.offsets d m num 0 (omega (arith, w.size)) in
      elim (Bool-cases (d == m)) [
        | inl e ↦
            let same : m ≡ d = ground arith in
            inl ((mem-insert s.stage d m).1 (inr same), ground arith)
        | inr e ↦ elim (w.written m) [
          | inl (k, q) ↦ inl ((mem-insert s.stage d m).1 (inl k), ground arith)
          | inr (k, q) ↦ inr (
            λ h. elim ((mem-insert s.stage d m).0 h) [ inl j ↦ k j | inr j ↦ ground arith ],
            ground arith,
          )
        ]
      ];
}

pub finish_dependencies-Writes :
    (num : ℕ) (before ds : List ℕ) (s : Finish)
    → ((d : ℕ) → Memᴰ d ds → d < length before)
    → Writes num before s
    → Writes num before (finish_dependencies num ds s)
unfolding finish_dependencies
finish_dependencies-Writes num before [] s bound w = w
finish_dependencies-Writes num before (d ∷ ds) s bound w =
    finish_dependencies-Writes num before ds (put num d s) (λ k m. bound k (Memᴰ.tail m))
      (put-Writes num before s d (bound d (Memᴰ.head refl)) w)

pub mem-finish_dependencies :
    (num : ℕ) (ds : List ℕ) (s : Finish) (m : ℕ)
    → Memᴰ m (finish_dependencies num ds s).stage ↔ (Memᴰ m s.stage ⊎ Memᴰ m ds)
unfolding finish_dependencies
mem-finish_dependencies num [] s m =
    (inl, λ h. elim h [ inl k ↦ k | inr k ↦ absurd (Memᴰ.not-nil k) ])
mem-finish_dependencies num (d ∷ ds) s m =
    let rest = mem-finish_dependencies num ds (put num d s) m in
    let first = mem-insert s.stage d m in
    (
      λ h. elim (rest.0 h) [
        | inl k ↦ elim (first.0 k) [ inl j ↦ inl j | inr e ↦ inr (Memᴰ.head e) ]
        | inr k ↦ inr (Memᴰ.tail k)
      ],
      λ h. rest.1 (elim h [
        | inl k ↦ inl (first.1 (inl k))
        | inr k ↦ elim k [ Memᴰ.head e ↦ inl (first.1 (inr e)) | Memᴰ.tail j ↦ inr j ]
      ]),
    )

module _ {T L : Type 0} (g : Dag T L) where
  pub finish_stage-Writes :
      (num : ℕ) (before ns : List ℕ) (s : Finish)
      → ((n d : ℕ) → Memᴰ d (get_dependencies g n) → d < length before)
      → Writes num before s
      → Writes num before (finish_stage g num ns s)
  unfolding finish_stage
  finish_stage-Writes num before [] s bound w = w
  finish_stage-Writes num before (n ∷ ns) s bound w =
      finish_stage-Writes num before ns _ bound
        (finish_dependencies-Writes num before (get_dependencies g n) s (bound n) w)

  -- The stage gets the dependencies of the nodes.
  pub mem-finish_stage :
      (num : ℕ) (ns : List ℕ) (s : Finish) (m : ℕ)
      → Memᴰ m (finish_stage g num ns s).stage
        ↔ (Memᴰ m s.stage ⊎ (n : ℕ) × Memᴰ n ns × Memᴰ m (get_dependencies g n))
  unfolding finish_stage
  mem-finish_stage num [] s m =
      (inl, λ h. elim h [ inl k ↦ k | inr (n, k, j) ↦ absurd (Memᴰ.not-nil k) ])
  mem-finish_stage num (n ∷ ns) s m =
      let rest = mem-finish_stage num ns (finish_dependencies num (get_dependencies g n) s) m in
      let first = mem-finish_dependencies num (get_dependencies g n) s m in
      (
        λ h. elim (rest.0 h) [
          | inl k ↦ elim (first.0 k) [ inl j ↦ inl j | inr j ↦ inr (n, Memᴰ.head refl, j) ]
          | inr (i, k, j) ↦ inr (i, Memᴰ.tail k, j)
        ],
        λ h. rest.1 (elim h [
          | inl k ↦ inl (first.1 (inl k))
          | inr (i, k, j) ↦ elim k [
            | Memᴰ.head e ↦ inl (first.1 (inr (subst (λ a. Memᴰ m (get_dependencies g a)) e j)))
            | Memᴰ.tail l ↦ inr (i, l, j)
          ]
        ]),
      )

  pub finish_sinks-Writes :
      (before : List ℕ) (count n : ℕ) (s : Finish)
      → n + count ≡ length before
      → Writes 1 before s
      → Writes 1 before (finish_sinks g count n s)
  unfolding finish_sinks
  finish_sinks-Writes before zero n s e w = w
  finish_sinks-Writes before (suc count) n s e w =
      finish_sinks-Writes before count (suc n) _ (omega arith) (
        if_both (Writes 1 before) (is_sink g n) (put 1 n s) s
          (λ _. put-Writes 1 before s n (omega arith) w) (λ _. w))

  mem-put_if :
      (b : Bool) (n : ℕ) (s : Finish) (m : ℕ)
      → Memᴰ m (if b then put 1 n s else s).stage ↔ (Memᴰ m s.stage ⊎ (b ≡ true) × (m ≡ n))
  mem-put_if true n s m = (
    λ h. elim ((mem-insert s.stage n m).0 h) [ inl k ↦ inl k | inr e ↦ inr (refl, e) ],
    λ h. (mem-insert s.stage n m).1 (elim h [ inl k ↦ inl k | inr (t, e) ↦ inr e ]),
  )
  mem-put_if false n s m = (inl, λ h. elim h [ inl k ↦ k | inr (t, e) ↦ absurd (ground arith) ])

  pub mem-finish_sinks :
      (count n : ℕ) (s : Finish) (m : ℕ)
      → Memᴰ m (finish_sinks g count n s).stage
        ↔ (Memᴰ m s.stage ⊎ (n ≤ m) × (m < n + count) × (is_sink g m ≡ true))
  unfolding finish_sinks
  mem-finish_sinks zero n s m =
      (inl, λ h. elim h [ inl k ↦ k | inr (l, r, t) ↦ absurd (omega arith) ])
  mem-finish_sinks (suc count) n s m =
      let rest = mem-finish_sinks count (suc n) (if is_sink g n then put 1 n s else s) m in
      let first = mem-put_if (is_sink g n) n s m in
      (
        λ h. elim (rest.0 h) [
          | inl k ↦ elim (first.0 k) [
            | inl j ↦ inl j
            | inr (t, e) ↦ inr (omega arith, omega arith, ap (is_sink g) e ∙ t)
          ]
          | inr (l, r, t) ↦ inr (omega arith, omega arith, t)
        ],
        λ h. rest.1 (elim h [
          | inl k ↦ inl (first.1 (inl k))
          | inr (l, r, t) ↦ elim (Bool-cases (n == m)) [
            | inl e ↦
                let same : n ≡ m = ground arith in
                inl (first.1 (inr (ap (is_sink g) same ∙ t, sym same)))
            | inr e ↦ inr (ground arith, omega arith, t)
          ]
        ]),
      )
