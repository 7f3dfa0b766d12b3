-- ===== src/Utility/Dag/Stages/Pushes.antt =====
-- The last loop of `computeStageSequence`: which position of the stages gets which nodes.
use mathlib.Core.List.{Memᴰ}
use mathlib.Core.List.Memᴰ
use quickstep_streaming.Prelude.{
  ℕ, zero, suc, ◌+◌, ◌-◌, ◌≤◌, ◌<◌, ◌≡◌, ◌↔◌, ◌⊎◌, inl, inr, refl, sym, ap, subst, ◌∙◌, Bool, true,
  false, List, [], ◌∷◌, ◌++◌, ◌==◌, if◌then◌else◌, length, get_or, modify, arith, get_or-modify_if,
  get_or-modify_keeps, length-modify, Bool-cases,
}
use quickstep_streaming.Utility.Dag.Stages.{Stages, push_first, push_second, push_nodes}

abbrev pub no_stage : List ℕ × List ℕ
no_stage = ([], [])

-- What one node adds to the stages.
push_node : Stages → ℕ → ℕ → ℕ → Stages
unfolding push_first push_second
push_node stages a b n = modify (modify stages a (push_first n)) b (push_second n)

length-push_node : (stages : Stages) (a b n : ℕ) → length (push_node stages a b n) ≡ length stages
unfolding push_node
length-push_node stages a b n = length-modify (modify stages a _) b _ ∙ length-modify stages a _

add_if : Bool → List ℕ → ℕ → List ℕ
add_if b ns n = if b then ns ++ n ∷ [] else ns

first-push_node :
    (stages : Stages) (a b n i : ℕ)
    → a < length stages
    → (get_or (push_node stages a b n) i no_stage).0
      ≡ add_if (a == i) (get_or stages i no_stage).0 n
unfolding push_node add_if
first-push_node stages a b n i h =
    get_or-modify_keeps (λ x. x.0) (push_second n) (λ x. refl) (modify stages a (push_first n)) b i
      no_stage
    ∙ elim (Bool-cases (a == i)) [
      | inl e ↦ rw (get_or-modify_if stages a i (push_first n) no_stage h, e) refl
      | inr e ↦ rw (get_or-modify_if stages a i (push_first n) no_stage h, e) refl
    ]

second-push_node :
    (stages : Stages) (a b n i : ℕ)
    → b < length stages
    → (get_or (push_node stages a b n) i no_stage).1
      ≡ add_if (b == i) (get_or stages i no_stage).1 n
unfolding push_node add_if
second-push_node stages a b n i h =
    let first : Stages = modify stages a (push_first n) in
    let at =
      get_or-modify_if first b i (push_second n) no_stage
        (omega (arith, length-modify stages a (push_first n))) in
    let same = get_or-modify_keeps (λ x. x.1) (push_first n) (λ x. refl) stages a i no_stage in
    elim (Bool-cases (b == i)) [
      | inl e ↦ rw (at, e) (ap (λ ns. ns ++ n ∷ []) same)
      | inr e ↦ rw (at, e) same
    ]

mem-add_if :
    (b : Bool) (ns : List ℕ) (n m : ℕ) → Memᴰ m (add_if b ns n) ↔ (Memᴰ m ns ⊎ (b ≡ true) × (m ≡ n))
unfolding add_if
mem-add_if true ns n m = (
  λ h. elim (Memᴰ.append_cases ns h) [
    | inl k ↦ inl k
    | inr k ↦ elim k [ Memᴰ.head e ↦ inr (refl, e) | Memᴰ.tail j ↦ absurd (Memᴰ.not-nil j) ]
  ],
  λ h. elim h [
    | inl k ↦ Memᴰ.append_left (n ∷ []) k
    | inr (t, e) ↦ Memᴰ.append_right ns (Memᴰ.head e)
  ],
)
mem-add_if false ns n m = (inl, λ h. elim h [ inl k ↦ k | inr (t, e) ↦ absurd (ground arith) ])

-- A position gets the nodes from `n` on, `count` of them, that have it as their value.
abbrev pub Gets : (ℕ → ℕ) → ℕ → ℕ → ℕ → ℕ → Type 0
Gets at count n i m = (n ≤ m) × (m < n + count) × (at m ≡ i)

-- One more node and the ones after it.
Gets-more :
    (at : ℕ → ℕ) (count n i m : ℕ) (old : List ℕ)
    → (Memᴰ m (add_if (at n == i) old n) ⊎ Gets at count (suc n) i m)
      ↔ (Memᴰ m old ⊎ Gets at (suc count) n i m)
Gets-more at count n i m old =
    let add = mem-add_if (at n == i) old n m in
    (
      λ h. elim h [
        | inl k ↦ elim (add.0 k) [
          | inl j ↦ inl j
          | inr (t, e) ↦ inr (omega arith, omega arith, ap at e ∙ ground arith)
        ]
        | inr (l, r, t) ↦ inr (omega arith, omega arith, t)
      ],
      λ h. elim h [
        | inl k ↦ inl (add.1 (inl k))
        | inr (l, r, t) ↦ elim (Bool-cases (n == m)) [
          | inl e ↦
              let same : n ≡ m = ground arith in
              inl (add.1 (inr (ground (arith, ap at same), sym same)))
          | inr e ↦ inr (ground arith, omega arith, t)
        ]
      ],
    )

module _ (offsets starts : List ℕ) (num : ℕ) where
  abbrev pub start_of : ℕ → ℕ
  start_of m = get_or starts m 0

  abbrev pub finish_of : ℕ → ℕ
  finish_of m = num - get_or offsets m 0

  pub length-push_nodes :
      (count n : ℕ) (stages : Stages)
      → length (push_nodes offsets starts num count n stages) ≡ length stages
  unfolding push_nodes push_node
  length-push_nodes zero n stages = refl
  length-push_nodes (suc count) n stages =
      length-push_nodes count (suc n) (push_node stages (start_of n) (finish_of n) n)
      ∙ length-push_node stages _ _ n

  pub first-push_nodes :
      (count n : ℕ) (stages : Stages) (i m : ℕ)
      → ((k : ℕ) → n ≤ k → k < n + count → start_of k < length stages)
      → Memᴰ m (get_or (push_nodes offsets starts num count n stages) i no_stage).0
        ↔ (Memᴰ m (get_or stages i no_stage).0 ⊎ Gets start_of count n i m)
  unfolding push_nodes push_node
  first-push_nodes zero n stages i m bound =
      (inl, λ h. elim h [ inl k ↦ k | inr (l, r, t) ↦ absurd (omega arith) ])
  first-push_nodes (suc count) n stages i m bound =
      let next = push_node stages (start_of n) (finish_of n) n in
      let size = length-push_node stages (start_of n) (finish_of n) n in
      let rest = first-push_nodes count (suc n) next i m (λ k l r. omega (arith, size, bound k)) in
      let at =
        first-push_node stages (start_of n) (finish_of n) n i
          (bound n (omega arith) (omega arith)) in
      let more = Gets-more start_of count n i m (get_or stages i no_stage).0 in
      (
        λ h. more.0 (elim (rest.0 h) [ inl k ↦ inl (subst (Memᴰ m) at k) | inr k ↦ inr k ]),
        λ h. rest.1 (elim (more.1 h) [ inl k ↦ inl (subst (Memᴰ m) (sym at) k) | inr k ↦ inr k ]),
      )

  pub second-push_nodes :
      (count n : ℕ) (stages : Stages) (i m : ℕ)
      → ((k : ℕ) → n ≤ k → k < n + count → finish_of k < length stages)
      → Memᴰ m (get_or (push_nodes offsets starts num count n stages) i no_stage).1
        ↔ (Memᴰ m (get_or stages i no_stage).1 ⊎ Gets finish_of count n i m)
  unfolding push_nodes push_node
  second-push_nodes zero n stages i m bound =
      (inl, λ h. elim h [ inl k ↦ k | inr (l, r, t) ↦ absurd (omega arith) ])
  second-push_nodes (suc count) n stages i m bound =
      let next = push_node stages (start_of n) (finish_of n) n in
      let size = length-push_node stages (start_of n) (finish_of n) n in
      let rest =
        second-push_nodes count (suc n) next i m (λ k l r.
          subst (λ j. finish_of k < j) (sym size) (bound k (omega arith) (omega arith))) in
      let at =
        second-push_node stages (start_of n) (finish_of n) n i
          (bound n (omega arith) (omega arith)) in
      let more = Gets-more finish_of count n i m (get_or stages i no_stage).1 in
      (
        λ h. more.0 (elim (rest.0 h) [ inl k ↦ inl (subst (Memᴰ m) at k) | inr k ↦ inr k ]),
        λ h. rest.1 (elim (more.1 h) [ inl k ↦ inl (subst (Memᴰ m) (sym at) k) | inr k ↦ inr k ]),
      )
