-- ===== src/Utility/Dag/Stages/Finishing.antt =====
-- A round of the first pass keeps the order of the offsets along links.
use mathlib.Core.List.{Memᴰ}
use mathlib.Core.List.Memᴰ
use quickstep_streaming.Prelude.{ℕ, suc, ◌≤◌, ◌<◌, ◌≡◌, ◌⊎◌, inl, inr, refl, ◌∙◌, [], length, arith}
use quickstep_streaming.Utility.Dag.{Dag, get_dependencies}
use quickstep_streaming.Utility.Dag.Search.{Link}
use quickstep_streaming.Utility.Dag.Walks.{Walk, step}
use quickstep_streaming.Utility.Dag.Links.{Link-lt}
use quickstep_streaming.Utility.Dag.Mirror.{IsLinked}
use quickstep_streaming.Utility.Dag.Stages.{Finish, finish_stage}
use quickstep_streaming.Utility.Dag.Stages.Levels.{
  offset, Writes, finish_stage-Writes, mem-finish_stage,
}

module _ {T L : Type 0} (g : Dag T L) (linked : IsLinked g) where
  -- Before a round, with `k` rounds made: what is in the stage has the last offset, and a walk from
  -- it shows that the rounds so far went along links.
  pub record IsRound (k : ℕ) (s : Finish) : Type 0 where
    pub size : length s.offsets ≡ length g
    pub staged : (m : ℕ) → Memᴰ m s.stage → (m < length g) × (offset s m ≡ suc k) × Walk g m k
    pub below : (m : ℕ) → offset s m ≤ suc k
    pub latest : (m : ℕ) → offset s m ≡ suc k → Memᴰ m s.stage
    pub sinks : (m : ℕ) → m < length g → ((d : ℕ) → Link g m d → ⊥) → 1 ≤ offset s m
    pub rises : (a b : ℕ) → Link g a b → 1 ≤ offset s b → (offset s b < offset s a) ⊎ Memᴰ b s.stage

  dependency_bound : (n d : ℕ) → Memᴰ d (get_dependencies g n) → d < length g
  dependency_bound n d m = Link-lt g d n ((linked.mirror d n).1 m)

  unfoldable pub next_round : Finish → ℕ → Finish
  next_round s k = finish_stage g (suc (suc k)) s.stage (record { offsets = s.offsets; stage = [] })

  module _ (k : ℕ) (s : Finish) (h : IsRound k s) where
    writes : Writes (suc (suc k)) s.offsets (next_round s k)
    unfolding next_round
    writes =
        finish_stage-Writes g (suc (suc k)) s.offsets s.stage _
          (λ n d m. omega (arith, h.size, dependency_bound n d m))
          (record { size = refl; written = λ m. inr (Memᴰ.not-nil, refl) })

    -- The new stage has the nodes with a link into the old one.
    from_stage : (m : ℕ) → Memᴰ m (next_round s k).stage → (n : ℕ) × Memᴰ n s.stage × Link g m n
    unfolding next_round
    from_stage m e = elim ((mem-finish_stage g (suc (suc k)) s.stage _ m).0 e) [
      | inl i ↦ absurd (Memᴰ.not-nil i)
      | inr (n, i, j) ↦ (n, i, (linked.mirror m n).1 j)
    ]

    to_stage : (m n : ℕ) → Memᴰ n s.stage → Link g m n → Memᴰ m (next_round s k).stage
    unfolding next_round
    to_stage m n i l =
        (mem-finish_stage g (suc (suc k)) s.stage _ m).1 (inr (n, i, (linked.mirror m n).0 l))

    new_offset : (m : ℕ) → Memᴰ m (next_round s k).stage → offset (next_round s k) m ≡ suc (suc k)
    new_offset m i = elim (writes.written m) [ inl (_, e) ↦ e | inr (j, _) ↦ absurd (j i) ]

    old_or_new :
        (m : ℕ)
        → (Memᴰ m (next_round s k).stage × (offset (next_round s k) m ≡ suc (suc k)))
          ⊎ (Memᴰ m (next_round s k).stage → ⊥) × (offset (next_round s k) m ≡ offset s m)
    old_or_new m = writes.written m

    grows : (m : ℕ) → offset s m ≤ offset (next_round s k) m
    grows m = elim (old_or_new m) [
      | inl (_, e) ↦ omega (arith, h.below m)
      | inr (_, e) ↦ omega arith
    ]

    next_rises :
        (a b : ℕ)
        → Link g a b
        → 1 ≤ offset (next_round s k) b
        → (offset (next_round s k) b < offset (next_round s k) a) ⊎ Memᴰ b (next_round s k).stage
    next_rises a b l p = elim (old_or_new b) [
      | inl (i, _) ↦ inr i
      | inr (_, e) ↦ elim (h.rises a b l (omega arith)) [
        | inl lt ↦ inl (omega (arith, grows a))
        | inr i ↦ inl (omega (arith, new_offset a (to_stage a b i l), h.below b))
      ]
    ]

    pub next_round-IsRound : IsRound (suc k) (next_round s k)
    next_round-IsRound = record {
      size = writes.size ∙ h.size;
      staged = λ m i.
          let (n, j, l) = from_stage m i in
          (Link-lt g m n l, new_offset m i, step n l (h.staged n j).2);
      below = λ m. elim (old_or_new m) [
        | inl (_, e) ↦ omega arith
        | inr (_, e) ↦ omega (arith, h.below m)
      ];
      latest = λ m q. elim (old_or_new m) [
        | inl (i, _) ↦ i
        | inr (_, e) ↦ absurd (omega (arith, h.below m))
      ];
      sinks = λ m bound none_. omega (arith, grows m, h.sinks m bound none_);
      rises = next_rises;
    }
