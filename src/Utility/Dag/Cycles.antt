-- ===== src/Utility/Dag/Cycles.antt =====
-- `hasCycle` tells whether there is a cycle.
use quickstep_streaming.Prelude.{
  ℕ, zero, suc, ◌+◌, ◌≤◌, ◌<◌, ◌≡◌, ◌↔◌, ◌⊎◌, refl, ap, subst, ◌∙◌, get_or, ◌==◌, modify-get_or,
  Bool, true, false, inl, inr, if◌then◌else◌, length, replicate, arith, Bool-cases,
  length-replicate, get_or-replicate,
}
use quickstep_streaming.Utility.Dag.{
  Dag, Marks, is_visited, is_on_stack, leave, has_cycle_helper, check_nodes, no_marks, has_cycle,
}
use quickstep_streaming.Utility.Dag.Search.{
  unset, unset-replicate, IsLeft, Reaches, HasCycle, InRange, IsClosed, Went, Went-IsLeft,
  Went-refl, one, more, Outcome,
}
use quickstep_streaming.Utility.Dag.Marking.{has_cycle_helper-Outcome}

unset-no_marks : (n : ℕ) → unset (no_marks n).visited ≡ n
unfolding no_marks
unset-no_marks n = unset-replicate n

module _ {T L : Type 0} (g : Dag T L) where
  -- The stack is empty, and all nodes below `n` are left.
  record IsBetween (s : Marks) (n : ℕ) : Type 0 where
    pub invariant : IsClosed g s
    pub empty : (m : ℕ) → is_on_stack s m ≡ false
    pub before : (m : ℕ) → m < n → IsLeft s m

  skip_visited :
      (fuel : ℕ) (s : Marks) (n : ℕ)
      → is_visited s n ≡ true
      → has_cycle_helper g fuel n s ≡ (false, leave s n)
  unfolding has_cycle_helper
  skip_visited zero s n seen = refl
  skip_visited (suc fuel) s n seen = rw seen

  next_node : (s t : Marks) (n : ℕ) → IsBetween s n → Went g s t → IsLeft t n → IsBetween t (suc n)
  next_node s t n b w h = record {
    invariant = w.invariant;
    empty = λ m. w.stack m ∙ b.empty m;
    before = λ m lt. elim (Bool-cases (m == n)) [
      | inl e ↦ let same : n ≡ m = ground arith in subst (IsLeft t) same h
      | inr e ↦ Went-IsLeft g s t m w (b.before m (ground arith))
    ];
  }

  leave_off : (s : Marks) (n : ℕ) → is_on_stack s n ≡ false → leave s n ≡ s
  unfolding leave is_on_stack
  leave_off s n h =
      ap (λ flags. record s { on_stack = flags }) (modify-get_or s.on_stack n false false h)

  -- What the loop over the nodes does next, after a call of the helper.
  abbrev Answer : Bool → Type 0
  Answer b = ((b ≡ true) × HasCycle g) ⊎ ((b ≡ false) × (HasCycle g → ⊥))

  Reaches-lt : InRange g → {n m : ℕ} → Reaches g n m → m < length g
  Reaches-lt in_range {n} {m} (one l) = in_range n m l
  Reaches-lt in_range (more d l r) = Reaches-lt in_range r

  no_cycle : InRange g → (s : Marks) → IsBetween s (length g) → HasCycle g → ⊥
  no_cycle in_range s b (n, r) = b.invariant.acyclic n (b.before n (Reaches-lt in_range r)) r

  after_node :
      (s : Marks) (n : ℕ) (r : Bool × Marks) (rest : Marks → Bool)
      → IsBetween s n
      → Outcome g s n r
      → ((t : Marks) → IsBetween t (suc n) → unset t.visited ≤ unset s.visited → Answer (rest t))
      → Answer (if r.0 then true else rest r.1)
  after_node s n r rest b (Outcome.cycle c) next = inl (refl, c)
  after_node s n (_, t) rest b (Outcome.left w h) next = next t (next_node s t n b w h) w.fewer

  helper-Outcome :
      InRange g
      → (fuel : ℕ) (s : Marks) (n : ℕ) → n < length g
      → IsBetween s n
      → unset s.visited ≤ fuel
      → Outcome g s n (has_cycle_helper g fuel n s)
  helper-Outcome in_range fuel s n bound b enough = elim (Bool-cases (is_visited s n)) [
    | inl seen ↦
        rw (skip_visited fuel s n seen, leave_off s n (b.empty n))
          (Outcome.left (Went-refl g s b.invariant) (record { seen = seen; off = b.empty n }))
    | inr fresh ↦
        has_cycle_helper-Outcome g in_range fuel n s b.invariant
          (record {
            bound = bound;
            fresh = fresh;
            leads = λ m on. absurd (ground (arith, on, b.empty m));
          })
          enough
  ]

  check_nodes-Answer :
      InRange g
      → (fuel count n : ℕ) (s : Marks) → n + count ≡ length g
      → IsBetween s n
      → unset s.visited ≤ fuel
      → Answer (check_nodes g fuel count n s)
  unfolding check_nodes
  check_nodes-Answer in_range fuel zero n s e b enough =
      inr (refl, no_cycle in_range s (subst (IsBetween s) (omega arith) b))
  check_nodes-Answer in_range fuel (suc count) n s e b enough =
      after_node s n (has_cycle_helper g fuel n s) (check_nodes g fuel count (suc n)) b
        (helper-Outcome in_range fuel s n (omega arith) b enough)
        (λ t k fewer.
          check_nodes-Answer in_range fuel count (suc n) t (omega arith) k (omega arith))

  no_marks-IsBetween : IsBetween (no_marks (length g)) 0
  unfolding no_marks is_on_stack is_visited
  no_marks-IsBetween =
      let off : (m : ℕ) → get_or (replicate (length g) false) m false ≡ false =
        λ m. get_or-replicate (length g) m false in
      let none_left : (m : ℕ) → IsLeft (no_marks (length g)) m → ⊥ =
        λ m h. ground (arith, off m, h.seen) in
      record {
        invariant = record {
          visited_size = length-replicate (length g) false;
          stack_size = length-replicate (length g) false;
          entered = λ m h. absurd (ground (arith, off m, h));
          closed = λ m d h l. absurd (none_left m h);
          acyclic = λ m h r. none_left m h;
        };
        empty = off;
        before = λ m lt. absurd (omega arith);
      }

  -- With as much fuel as there are nodes, and all links between nodes, `has_cycle` answers true
  -- just if some node reaches itself along one link or more.
  pub has_cycle-HasCycle :
      (fuel : ℕ) → InRange g → length g ≤ fuel → (has_cycle g fuel ≡ true) ↔ HasCycle g
  unfolding has_cycle
  has_cycle-HasCycle fuel in_range enough =
      elim (check_nodes-Answer in_range fuel (length g) 0 (no_marks (length g)) (omega arith)
        no_marks-IsBetween (omega (arith, unset-no_marks (length g)))) [
          | inl (e, c) ↦ (λ _. c, λ _. e)
          | inr (e, none_) ↦ (λ h. absurd (ground arith), λ c. absurd (none_ c))
        ]
