-- ===== src/Utility/Dag/Marking.antt =====
-- `hasCycleHelper` on entering a node and on leaving it.
use quickstep_streaming.Prelude.{
  ℕ, zero, suc, ◌≤◌, ◌<◌, ◌≡◌, sym, ◌∙◌, subst, ap, Bool, true, false, ◌⊎◌, inl, inr, if◌then◌else◌,
  ◌==◌, arith, Bool-cases, length-modify,
}
use quickstep_streaming.Utility.Dag.{
  Dag, Marks, get_dependents, is_visited, is_on_stack, enter, leave, leave_unless_found,
  has_cycle_helper,
}
use quickstep_streaming.Utility.Dag.Search.{
  unset, unset-modify, is_visited-enter, is_on_stack-enter, is_on_stack-leave, is_visited-leave,
  IsLeft, Link, Reaches, one, more, InRange, IsClosed, Reaches-IsLeft, Went, IsNext, Outcome,
  Outcomes,
}
use quickstep_streaming.Utility.Dag.Visits.{IsCurrent, visit_dependents-Outcomes}

module _ {T L : Type 0} (g : Dag T L) where
  module _ (s : Marks) (n : ℕ) (c : IsClosed g s) (next : IsNext g s n) where
    visited-enter : (m : ℕ) → is_visited (enter s n) m ≡ (if n == m then true else is_visited s m)
    visited-enter m = is_visited-enter s n m (omega (arith, c.visited_size, next.bound))

    on_stack-enter :
        (m : ℕ) → is_on_stack (enter s n) m ≡ (if n == m then true else is_on_stack s m)
    on_stack-enter m = is_on_stack-enter s n m (omega (arith, c.stack_size, next.bound))

    -- A node that was not visited is not on the stack.
    off_stack : is_on_stack s n ≡ false
    off_stack = elim (Bool-cases (is_on_stack s n)) [
      | inl on ↦ absurd (ground (arith, c.entered n on, next.fresh))
      | inr off ↦ off
    ]

    -- Entering a node leaves no other.
    IsLeft-before : (m : ℕ) → IsLeft (enter s n) m → IsLeft s m
    IsLeft-before m h = record {
      seen = ground (arith, visited-enter m, on_stack-enter m, h.seen, h.off);
      off = ground (arith, on_stack-enter m, h.off);
    }

    IsLeft-after : (m : ℕ) → IsLeft s m → IsLeft (enter s n) m
    IsLeft-after m h = record {
      seen = ground (arith, visited-enter m, h.seen);
      off = elim (Bool-cases (n == m)) [
        | inl e ↦
            let same : n ≡ m = ground arith in
            absurd (ground (arith, ap (is_visited s) same, h.seen, next.fresh))
        | inr e ↦ ground (arith, on_stack-enter m, h.off)
      ];
    }

    enter-IsClosed : IsClosed g (enter s n)
    unfolding enter
    enter-IsClosed = record {
      visited_size = length-modify s.visited n _ ∙ c.visited_size;
      stack_size = length-modify s.on_stack n _ ∙ c.stack_size;
      entered = λ m h. ground (arith, visited-enter m, on_stack-enter m, h, c.entered m);
      closed = λ m d h l. IsLeft-after d (c.closed m d (IsLeft-before m h) l);
      acyclic = λ m h r. c.acyclic m (IsLeft-before m h) r;
    }

    enter-IsCurrent : IsCurrent g (enter s n) n
    enter-IsCurrent = record {
      on = ground (arith, on_stack-enter n);
      leads = λ m h. elim (Bool-cases (n == m)) [
        | inl e ↦ inl (ground arith)
        | inr e ↦ inr (next.leads m (ground (arith, on_stack-enter m, h)))
      ];
    }

    enough_enter : (fuel : ℕ) → unset s.visited ≤ suc fuel → unset (enter s n).visited ≤ fuel
    unfolding enter is_visited
    enough_enter fuel h =
        omega
          (arith, unset-modify s.visited n (omega (arith, c.visited_size, next.bound)) next.fresh)

    some_unset : 0 < unset s.visited
    unfolding is_visited
    some_unset =
        omega
          (arith, unset-modify s.visited n (omega (arith, c.visited_size, next.bound)) next.fresh)

    module _ (t : Marks) (w : Went g (enter s n) t) (all : (d : ℕ) → Link g n d → IsLeft t d) where
      on_stack-leave :
          (m : ℕ) → is_on_stack (leave t n) m ≡ (if n == m then false else is_on_stack t m)
      on_stack-leave m = is_on_stack-leave t n m (omega (arith, w.invariant.stack_size, next.bound))

      seen_now : is_visited t n ≡ true
      seen_now = w.kept n (ground (arith, visited-enter n))

      on_now : is_on_stack t n ≡ true
      on_now = w.stack n ∙ ground (arith, on_stack-enter n)

      -- What the search had left is left, and so is the node.
      still-IsLeft : (m : ℕ) → IsLeft t m → IsLeft (leave t n) m
      still-IsLeft m h = record {
        seen = is_visited-leave t n m ∙ h.seen;
        off = ground (arith, on_stack-leave m, h.off);
      }

      now-IsLeft : IsLeft (leave t n) n
      now-IsLeft = record {
        seen = is_visited-leave t n n ∙ seen_now;
        off = ground (arith, on_stack-leave n);
      }

      was-IsLeft : (m : ℕ) → IsLeft (leave t n) m → (n ≡ m) ⊎ IsLeft t m
      was-IsLeft m h = elim (Bool-cases (n == m)) [
        | inl e ↦ inl (ground arith)
        | inr e ↦ inr (record {
          seen = sym (is_visited-leave t n m) ∙ h.seen;
          off = ground (arith, on_stack-leave m, h.off);
        })
      ]

      no_way_back : (m : ℕ) → IsLeft t m → Reaches g m n → ⊥
      no_way_back m h r = ground (arith, on_now, (Reaches-IsLeft g t m n w.invariant h r).off)

      leave-acyclic : (m : ℕ) → IsLeft (leave t n) m → Reaches g m m → ⊥
      leave-acyclic m h r = elim (was-IsLeft m h) [
        | inl e ↦ elim (subst (λ k. Reaches g k k) (sym e) r) [
          | one l ↦ ground (arith, on_now, (all n l).off)
          | more d l q ↦ no_way_back d (all d l) q
        ]
        | inr k ↦ w.invariant.acyclic m k r
      ]

      leave-IsClosed : IsClosed g (leave t n)
      unfolding leave
      leave-IsClosed = record {
        visited_size = w.invariant.visited_size;
        stack_size = length-modify t.on_stack n _ ∙ w.invariant.stack_size;
        entered = λ m h.
            is_visited-leave t n m ∙ w.invariant.entered m (ground (arith, on_stack-leave m, h));
        closed = λ m d h l. elim (was-IsLeft m h) [
          | inl e ↦ still-IsLeft d (all d (subst (λ k. Link g k d) (sym e) l))
          | inr k ↦ still-IsLeft d (w.invariant.closed m d k l)
        ];
        acyclic = leave-acyclic;
      }

      fewer_left : unset (leave t n).visited ≤ unset s.visited
      unfolding leave enter is_visited
      fewer_left = omega (
        arith,
        w.fewer,
        unset-modify s.visited n (omega (arith, c.visited_size, next.bound)) next.fresh,
      )

      leave-Went : Went g s (leave t n)
      leave-Went = record {
        invariant = leave-IsClosed;
        stack = λ m. elim (Bool-cases (n == m)) [
          | inl e ↦
              let same : n ≡ m = ground arith in
              ground (arith, on_stack-leave m, off_stack, ap (is_on_stack s) same)
          | inr e ↦ ground (arith, on_stack-leave m, w.stack m, on_stack-enter m)
        ];
        kept = λ m h. is_visited-leave t n m ∙ w.kept m (ground (arith, visited-enter m, h));
        fewer = fewer_left;
      }

    pub leave-Outcome :
        (r : Bool × Marks)
        → Outcomes g (enter s n) (get_dependents g n) r
        → Outcome g s n (leave_unless_found n r)
    unfolding leave_unless_found
    leave-Outcome r (Outcomes.cycle c) = Outcome.cycle c
    leave-Outcome (_, t) (Outcomes.left w all) =
        Outcome.left (leave-Went t w all) (now-IsLeft t w all)

  -- With fuel for the nodes that are not yet visited, the helper finds a cycle or leaves the node.
  pub has_cycle_helper-Outcome :
      InRange g
      → (fuel : ℕ) (n : ℕ) (s : Marks) → IsClosed g s
      → IsNext g s n
      → unset s.visited ≤ fuel
      → Outcome g s n (has_cycle_helper g fuel n s)
  unfolding has_cycle_helper
  has_cycle_helper-Outcome in_range zero n s c next enough =
      absurd (omega (arith, some_unset s n c next))
  has_cycle_helper-Outcome in_range (suc fuel) n s c next enough = rw next.fresh (
      leave-Outcome s n c next _ (
        visit_dependents-Outcomes g fuel (has_cycle_helper g fuel)
          (λ t m. has_cycle_helper-Outcome in_range fuel m t) n in_range (get_dependents g n)
          (enter s n) (enter-IsClosed s n c next) (enter-IsCurrent s n c next) (λ d l. l)
          (enough_enter s n c next fuel enough)))
