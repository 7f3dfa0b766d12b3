-- ===== src/Utility/Dag/Search.antt =====
-- What `hasCycleHelper` finds: a cycle, or that none goes through the nodes that it has left.
use mathlib.Core.List.{Memᴰ}
use quickstep_streaming.Prelude.{
  ℕ, zero, suc, ◌≤◌, ◌<◌, ◌≡◌, refl, ◌∙◌, Bool, true, false, List, [], ◌∷◌, if◌then◌else◌, ◌==◌,
  length, get_or, modify, replicate, ap, arith, get_or-modify_const,
}
use quickstep_streaming.Utility.Dag.{
  Dag, Marks, get_dependents, is_visited, is_on_stack, enter, leave,
}

-- The flags that are still false.
abbrev pub unset : List Bool → ℕ
unset [] = 0
unset (false ∷ bs) = suc (unset bs)
unset (true ∷ bs) = unset bs

pub unset-replicate : (n : ℕ) → unset (replicate n false) ≡ n
unset-replicate zero = refl
unset-replicate (suc n) = ap suc (unset-replicate n)

pub unset-modify :
    (bs : List Bool) (i : ℕ)
    → i < length bs
    → get_or bs i false ≡ false
    → suc (unset (modify bs i (λ _. true))) ≡ unset bs
unset-modify [] i h e = absurd (omega arith)
unset-modify (true ∷ bs) zero h e = absurd (ground arith)
unset-modify (false ∷ bs) zero h e = refl
unset-modify (false ∷ bs) (suc i) h e = omega (arith, unset-modify bs i (omega arith) e)
unset-modify (true ∷ bs) (suc i) h e = omega (arith, unset-modify bs i (omega arith) e)

pub is_visited-enter :
    (s : Marks) (n m : ℕ)
    → n < length s.visited
    → is_visited (enter s n) m ≡ (if n == m then true else is_visited s m)
unfolding is_visited enter
is_visited-enter s n m h = get_or-modify_const s.visited n m true false h

pub is_on_stack-enter :
    (s : Marks) (n m : ℕ)
    → n < length s.on_stack
    → is_on_stack (enter s n) m ≡ (if n == m then true else is_on_stack s m)
unfolding is_on_stack enter
is_on_stack-enter s n m h = get_or-modify_const s.on_stack n m true false h

pub is_on_stack-leave :
    (s : Marks) (n m : ℕ)
    → n < length s.on_stack
    → is_on_stack (leave s n) m ≡ (if n == m then false else is_on_stack s m)
unfolding is_on_stack leave
is_on_stack-leave s n m h = get_or-modify_const s.on_stack n m false false h

pub is_visited-leave : (s : Marks) (n m : ℕ) → is_visited (leave s n) m ≡ is_visited s m
unfolding is_visited leave
is_visited-leave s n m = refl

-- The search has come back from the node.
pub record IsLeft (s : Marks) (n : ℕ) : Type 0 where
  pub seen : is_visited s n ≡ true
  pub off : is_on_stack s n ≡ false

module _ {T L : Type 0} (g : Dag T L) where
  abbrev pub Link : ℕ → ℕ → Type 0
  Link n d = Memᴰ d (get_dependents g n)

  -- The walks along one link or more.
  pub data Reaches : ℕ → ℕ → Type 0 where
    one : {n m : ℕ} → Link n m → Reaches n m
    more : {n m : ℕ} (d : ℕ) → Link n d → Reaches d m → Reaches n m

  pub extend : {n m d : ℕ} → Reaches n m → Link m d → Reaches n d
  extend {m = m} (one l) k = more m l (one k)
  extend (more d l r) k = more d l (extend r k)

  abbrev pub HasCycle : Type 0
  HasCycle = (n : ℕ) × Reaches n n

  -- Each link leads to a node.
  abbrev pub InRange : Type 0
  InRange = (n d : ℕ) → Link n d → d < length g

  pub record IsClosed (s : Marks) : Type 0 where
    pub visited_size : length s.visited ≡ length g
    pub stack_size : length s.on_stack ≡ length g
    pub entered : (n : ℕ) → is_on_stack s n ≡ true → is_visited s n ≡ true
    pub closed : (n d : ℕ) → IsLeft s n → Link n d → IsLeft s d
    pub acyclic : (n : ℕ) → IsLeft s n → Reaches n n → ⊥

  pub Reaches-IsLeft : (s : Marks) (n m : ℕ) → IsClosed s → IsLeft s n → Reaches n m → IsLeft s m
  Reaches-IsLeft s n m c h (one l) = c.closed n m h l
  Reaches-IsLeft s n m c h (more d l r) = Reaches-IsLeft s d m c (c.closed n d h l) r

  -- What a call that found no cycle leaves.
  pub record Went (s t : Marks) : Type 0 where
    pub invariant : IsClosed t
    pub stack : (m : ℕ) → is_on_stack t m ≡ is_on_stack s m
    pub kept : (m : ℕ) → is_visited s m ≡ true → is_visited t m ≡ true
    pub fewer : unset t.visited ≤ unset s.visited

  pub Went-IsLeft : (s t : Marks) (n : ℕ) → Went s t → IsLeft s n → IsLeft t n
  Went-IsLeft s t n w h = record { seen = w.kept n h.seen; off = w.stack n ∙ h.off }

  pub Went-trans : (s t u : Marks) → Went s t → Went t u → Went s u
  Went-trans s t u a b = record {
    invariant = b.invariant;
    stack = λ m. b.stack m ∙ a.stack m;
    kept = λ m h. b.kept m (a.kept m h);
    fewer = omega (arith, a.fewer, b.fewer);
  }

  pub Went-refl : (s : Marks) → IsClosed s → Went s s
  Went-refl s c = record { invariant = c; stack = λ m. refl; kept = λ m h. h; fewer = omega arith }

  -- The node is not on the stack, and all nodes on the stack lead to it.
  pub record IsNext (s : Marks) (n : ℕ) : Type 0 where
    pub bound : n < length g
    pub fresh : is_visited s n ≡ false
    pub leads : (m : ℕ) → is_on_stack s m ≡ true → Reaches m n

  pub data Outcome (s : Marks) (n : ℕ) : Bool × Marks → Type 0 where
    cycle : {t : Marks} → HasCycle → Outcome s n (true, t)
    left : {t : Marks} → Went s t → IsLeft t n → Outcome s n (false, t)

  pub data Outcomes (s : Marks) (ds : List ℕ) : Bool × Marks → Type 0 where
    cycle : {t : Marks} → HasCycle → Outcomes s ds (true, t)
    left : {t : Marks} → Went s t → ((d : ℕ) → Memᴰ d ds → IsLeft t d) → Outcomes s ds (false, t)
