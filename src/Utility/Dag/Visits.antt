-- ===== src/Utility/Dag/Visits.antt =====
-- The recursion of `hasCycleHelper`.
use mathlib.Core.List.{Memᴰ}
use quickstep_streaming.Prelude.{
  ℕ, ◌≤◌, ◌≡◌, refl, sym, ◌∙◌, subst, Bool, true, ◌⊎◌, inl, inr, List, [], ◌∷◌, ◌||◌, if◌then◌else◌,
  arith, Bool-cases,
}
use quickstep_streaming.Utility.Dag.{Dag, Marks, is_visited, is_on_stack, visit_dependents}
use quickstep_streaming.Utility.Dag.Search.{
  unset, IsLeft, Link, Reaches, one, extend, HasCycle, InRange, IsClosed, Went, Went-IsLeft,
  Went-trans, Went-refl, IsNext, Outcome, Outcomes,
}

module _ {T L : Type 0} (g : Dag T L) where
  -- The node is on the stack, and the others on it lead to it.
  pub record IsCurrent (s : Marks) (n : ℕ) : Type 0 where
    pub on : is_on_stack s n ≡ true
    pub leads : (m : ℕ) → is_on_stack s m ≡ true → (m ≡ n) ⊎ Reaches g m n

  IsCurrent-Went : (s t : Marks) (n : ℕ) → Went g s t → IsCurrent s n → IsCurrent t n
  IsCurrent-Went s t n w c = record {
    on = w.stack n ∙ c.on;
    leads = λ m h. c.leads m (sym (w.stack m) ∙ h);
  }

  -- A dependent on the stack closes a cycle.
  closes : (s : Marks) (n d : ℕ) → IsCurrent s n → Link g n d → is_on_stack s d ≡ true → HasCycle g
  closes s n d c l h = elim (c.leads d h) [
    | inl e ↦ (n, one (subst (λ k. Link g n k) e l))
    | inr r ↦ (d, extend g r l)
  ]

  leads_to :
      (s : Marks) (n d : ℕ)
      → IsCurrent s n
      → Link g n d
      → (m : ℕ) → is_on_stack s m ≡ true
      → Reaches g m d
  leads_to s n d c l m h = elim (c.leads m h) [
    | inl e ↦ one (subst (λ k. Link g k d) (sym e) l)
    | inr r ↦ extend g r l
  ]

  -- The search goes on with the other dependents.
  then_others :
      (s t : Marks) (d : ℕ) (ds : List ℕ) (r : Bool × Marks)
      → Went g s t
      → IsLeft t d
      → Outcomes g t ds r
      → Outcomes g s (d ∷ ds) r
  then_others s t d ds r w h (Outcomes.cycle c) = Outcomes.cycle c
  then_others s t d ds (_, u) w h (Outcomes.left v all) =
      Outcomes.left (Went-trans g s t u w v) (λ k m. elim m [
        | Memᴰ.head e ↦ subst (IsLeft u) (sym e) (Went-IsLeft g t u d v h)
        | Memᴰ.tail m' ↦ all k m'
      ])

  module _ (fuel : ℕ) (visit : ℕ → Marks → Bool × Marks)
      (visits : (s : Marks) (n : ℕ)
        → IsClosed g s
        → IsNext g s n
        → unset s.visited ≤ fuel
        → Outcome g s n (visit n s))
      (n : ℕ) (in_range : InRange g) where
    after_visit :
        (s : Marks) (d : ℕ) (ds : List ℕ) (r : Bool × Marks)
        → Outcome g s d r
        → ((t : Marks) → Went g s t → Outcomes g t ds (visit_dependents visit ds t))
        → Outcomes g s
            (d ∷ ds)
            (if r.0 || is_on_stack r.1 d then (true, r.1) else visit_dependents visit ds r.1)
    after_visit s d ds r (Outcome.cycle c) others = Outcomes.cycle c
    after_visit s d ds (_, t) (Outcome.left w h) others =
        rw h.off (then_others s t d ds _ w h (others t w))

    pub visit_dependents-Outcomes :
        (ds : List ℕ) (s : Marks)
        → IsClosed g s
        → IsCurrent s n
        → ((d : ℕ) → Memᴰ d ds → Link g n d)
        → unset s.visited ≤ fuel
        → Outcomes g s ds (visit_dependents visit ds s)
    unfolding visit_dependents
    visit_dependents-Outcomes [] s c cur links enough =
        Outcomes.left (Went-refl g s c) (λ d m. elim m [ ])
    visit_dependents-Outcomes (d ∷ ds) s c cur links enough =
        let l : Link g n d = links d (Memᴰ.head refl) in
        elim (Bool-cases (is_visited s d)) [
          | inl seen ↦ rw seen (elim (Bool-cases (is_on_stack s d)) [
            | inl on ↦ rw on (Outcomes.cycle (closes s n d cur l on))
            | inr off ↦ rw off (
                then_others s s d ds _ (Went-refl g s c) (record { seen = seen; off = off })
                  (visit_dependents-Outcomes ds s c cur (λ k m. links k (Memᴰ.tail m)) enough))
          ])
          | inr new ↦ rw new (
              after_visit s d ds (visit d s)
                (visits s d c
                  (record { bound = in_range n d l; fresh = new; leads = leads_to s n d cur l })
                  enough)
                (λ t w.
                  visit_dependents-Outcomes ds t w.invariant (IsCurrent-Went s t n w cur)
                    (λ k m. links k (Memᴰ.tail m)) (omega (arith, w.fewer))))
        ]
