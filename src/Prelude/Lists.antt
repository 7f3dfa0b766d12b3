-- ===== src/Prelude/Lists.antt =====
-- List functions over the native numbers.
use Prim.Native.Nat.{ℕ, zero, suc, ◌+◌, ◌-◌, ◌<◌, ◌≤◌}
use mathlib.Core.Option.{Option, none, some}
use mathlib.Core.Option
use mathlib.Core.Path.{◌≡◌, refl, sym, ap}
use mathlib.Core.List.{List, [], ◌∷◌, ◌++◌, map}
use native.Mathlib.Omega.{arith}
use quickstep_streaming.Prelude.Tests.{ltb, ◌==◌, if◌then◌else◌}

module _ {ℓ} {A : Type ℓ} where
  abbrev pub length : List A → ℕ
  length [] = 0
  length (x ∷ xs) = suc (length xs)

  abbrev pub get_elem? : List A → ℕ → Option A
  get_elem? [] i = none
  get_elem? (x ∷ xs) zero = some x
  get_elem? (x ∷ xs) (suc i) = get_elem? xs i

  -- The element at a position, or a default past the end.
  abbrev pub get_or : List A → ℕ → A → A
  get_or [] i d = d
  get_or (x ∷ xs) zero d = x
  get_or (x ∷ xs) (suc i) d = get_or xs i d

  -- Change one element; past the end nothing changes.
  abbrev pub modify : List A → ℕ → (A → A) → List A
  modify [] i f = []
  modify (x ∷ xs) zero f = f x ∷ xs
  modify (x ∷ xs) (suc i) f = x ∷ modify xs i f

  abbrev pub replicate : ℕ → A → List A
  replicate zero a = []
  replicate (suc n) a = a ∷ replicate n a

  abbrev pub take : ℕ → List A → List A
  take zero xs = []
  take (suc n) [] = []
  take (suc n) (x ∷ xs) = x ∷ take n xs

  abbrev pub drop : ℕ → List A → List A
  drop zero xs = xs
  drop (suc n) [] = []
  drop (suc n) (x ∷ xs) = drop n xs

  pub length-append : (xs ys : List A) → length (xs ++ ys) ≡ length xs + length ys
  length-append [] ys = omega arith
  length-append (x ∷ xs) ys = omega (arith, length-append xs ys)

  pub length-replicate : (n : ℕ) (a : A) → length (replicate n a) ≡ n
  length-replicate zero a = refl
  length-replicate (suc n) a = omega (arith, length-replicate n a)

  pub length-take : (n : ℕ) (xs : List A) → n ≤ length xs → length (take n xs) ≡ n
  length-take zero xs h = refl
  length-take (suc n) [] h = absurd (omega arith)
  length-take (suc n) (x ∷ xs) h = omega (arith, length-take n xs)

  pub length-drop : (n : ℕ) (xs : List A) → length (drop n xs) ≡ length xs - n
  length-drop zero xs = omega arith
  length-drop (suc n) [] = omega arith
  length-drop (suc n) (x ∷ xs) = omega (arith, length-drop n xs)

  pub length-modify : (xs : List A) (i : ℕ) (f : A → A) → length (modify xs i f) ≡ length xs
  length-modify [] i f = refl
  length-modify (x ∷ xs) zero f = refl
  length-modify (x ∷ xs) (suc i) f = omega (arith, length-modify xs i f)

  pub get_or-replicate : (n i : ℕ) (a : A) → get_or (replicate n a) i a ≡ a
  get_or-replicate zero i a = refl
  get_or-replicate (suc n) zero a = refl
  get_or-replicate (suc n) (suc i) a = get_or-replicate n i a

  pub get_or-replicate_lt : (n i : ℕ) (a d : A) → i < n → get_or (replicate n a) i d ≡ a
  get_or-replicate_lt zero i a d h = absurd (omega arith)
  get_or-replicate_lt (suc n) zero a d h = refl
  get_or-replicate_lt (suc n) (suc i) a d h = get_or-replicate_lt n i a d (omega arith)

  pub get_or-past : (xs : List A) (i : ℕ) (d : A) → length xs ≤ i → get_or xs i d ≡ d
  get_or-past [] i d h = refl
  get_or-past (x ∷ xs) zero d h = absurd (omega arith)
  get_or-past (x ∷ xs) (suc i) d h = get_or-past xs i d (omega arith)

  pub get_or-append :
      (xs ys : List A) (i : ℕ) (d : A)
      → get_or (xs ++ ys) i d
        ≡ (if ltb i (length xs) then get_or xs i d else get_or ys (i - length xs) d)
  get_or-append [] ys i d = ground arith
  get_or-append (x ∷ xs) ys zero d = ground arith
  get_or-append (x ∷ xs) ys (suc i) d = ground (arith, get_or-append xs ys i d)

  pub get_or-append_before :
      (xs ys : List A) (i : ℕ) (d : A) → i < length xs → get_or (xs ++ ys) i d ≡ get_or xs i d
  get_or-append_before [] ys i d h = absurd (omega arith)
  get_or-append_before (x ∷ xs) ys zero d h = refl
  get_or-append_before (x ∷ xs) ys (suc i) d h = get_or-append_before xs ys i d (omega arith)

  pub get_or-append_here :
      (xs : List A) (y : A) (ys : List A) (d : A) → get_or (xs ++ y ∷ ys) (length xs) d ≡ y
  get_or-append_here [] y ys d = refl
  get_or-append_here (x ∷ xs) y ys d = get_or-append_here xs y ys d

  pub get_or-take :
      (n : ℕ) (xs : List A) (i : ℕ) (d : A)
      → get_or (take n xs) i d ≡ (if ltb i n then get_or xs i d else d)
  get_or-take zero xs i d = ground arith
  get_or-take (suc n) [] i d = ground arith
  get_or-take (suc n) (x ∷ xs) zero d = ground arith
  get_or-take (suc n) (x ∷ xs) (suc i) d = ground (arith, get_or-take n xs i d)

  pub get_or-drop :
      (n : ℕ) (xs : List A) (i : ℕ) (d : A) → get_or (drop n xs) i d ≡ get_or xs (n + i) d
  get_or-drop zero xs i d = ground arith
  get_or-drop (suc n) [] i d = ground arith
  get_or-drop (suc n) (x ∷ xs) i d = ground (arith, get_or-drop n xs i d)

  pub get_or-modify_other :
      (xs : List A) (i j : ℕ) (f : A → A) (d : A)
      → (i ≡ j → ⊥)
      → get_or (modify xs i f) j d ≡ get_or xs j d
  get_or-modify_other [] i j f d h = refl
  get_or-modify_other (x ∷ xs) zero zero f d h = absurd (h refl)
  get_or-modify_other (x ∷ xs) zero (suc j) f d h = refl
  get_or-modify_other (x ∷ xs) (suc i) zero f d h = refl
  get_or-modify_other (x ∷ xs) (suc i) (suc j) f d h =
      get_or-modify_other xs i j f d (λ e. h (omega arith))

  pub get_or-modify_self :
      (xs : List A) (i : ℕ) (f : A → A) (d : A)
      → i < length xs
      → get_or (modify xs i f) i d ≡ f (get_or xs i d)
  get_or-modify_self [] i f d h = absurd (omega arith)
  get_or-modify_self (x ∷ xs) zero f d h = refl
  get_or-modify_self (x ∷ xs) (suc i) f d h = get_or-modify_self xs i f d (omega arith)

  pub get_or-modify_const :
      (xs : List A) (i j : ℕ) (a d : A)
      → i < length xs
      → get_or (modify xs i (λ _. a)) j d ≡ (if i == j then a else get_or xs j d)
  get_or-modify_const [] i j a d h = absurd (omega arith)
  get_or-modify_const (x ∷ xs) zero zero a d h = refl
  get_or-modify_const (x ∷ xs) zero (suc j) a d h = ground arith
  get_or-modify_const (x ∷ xs) (suc i) zero a d h = ground arith
  get_or-modify_const (x ∷ xs) (suc i) (suc j) a d h =
      ground (arith, get_or-modify_const xs i j a d)

  pub get_or-modify_if :
      (xs : List A) (i j : ℕ) (f : A → A) (d : A)
      → i < length xs
      → get_or (modify xs i f) j d ≡ (if i == j then f (get_or xs j d) else get_or xs j d)
  get_or-modify_if [] i j f d h = absurd (omega arith)
  get_or-modify_if (x ∷ xs) zero zero f d h = refl
  get_or-modify_if (x ∷ xs) zero (suc j) f d h = ground arith
  get_or-modify_if (x ∷ xs) (suc i) zero f d h = ground arith
  get_or-modify_if (x ∷ xs) (suc i) (suc j) f d h = ground (arith, get_or-modify_if xs i j f d)

  pub get_elem?-modify :
      (xs : List A) (i j : ℕ) (f : A → A)
      → get_elem? (modify xs i f) j
        ≡ (if i == j then Option.map f (get_elem? xs j) else get_elem? xs j)
  get_elem?-modify [] i j f = ground arith
  get_elem?-modify (x ∷ xs) zero zero f = refl
  get_elem?-modify (x ∷ xs) zero (suc j) f = ground arith
  get_elem?-modify (x ∷ xs) (suc i) zero f = ground arith
  get_elem?-modify (x ∷ xs) (suc i) (suc j) f = ground (arith, get_elem?-modify xs i j f)

  pub get_elem?-lt : (xs : List A) (i : ℕ) → i < length xs → (a : A) × (get_elem? xs i ≡ some a)
  get_elem?-lt [] i h = absurd (omega arith)
  get_elem?-lt (x ∷ xs) zero h = (x, refl)
  get_elem?-lt (x ∷ xs) (suc i) h = get_elem?-lt xs i (omega arith)

  pub get_elem?-past : (xs : List A) (i : ℕ) → length xs ≤ i → get_elem? xs i ≡ none
  get_elem?-past [] i h = refl
  get_elem?-past (x ∷ xs) zero h = absurd (omega arith)
  get_elem?-past (x ∷ xs) (suc i) h = get_elem?-past xs i (omega arith)

  pub get_elem?-append :
      (xs ys : List A) (i : ℕ)
      → get_elem? (xs ++ ys) i
        ≡ (if ltb i (length xs) then get_elem? xs i else get_elem? ys (i - length xs))
  get_elem?-append [] ys i = ground arith
  get_elem?-append (x ∷ xs) ys zero = ground arith
  get_elem?-append (x ∷ xs) ys (suc i) = ground (arith, get_elem?-append xs ys i)

  -- Writing what is there changes nothing.
  pub modify-get_or :
      (xs : List A) (i : ℕ) (a d : A) → get_or xs i d ≡ a → modify xs i (λ _. a) ≡ xs
  modify-get_or [] i a d h = refl
  modify-get_or (x ∷ xs) zero a d h = ap (λ b. b ∷ xs) (sym h)
  modify-get_or (x ∷ xs) (suc i) a d h = ap (λ ys. x ∷ ys) (modify-get_or xs i a d h)

module _ {ℓ κ} {A : Type ℓ} {B : Type κ} where
  -- A change that a projection does not see.
  pub get_or-modify_keeps :
      (p : A → B) (f : A → A)
      → ((x : A) → p (f x) ≡ p x)
      → (xs : List A) (i j : ℕ) (d : A) → p (get_or (modify xs i f) j d) ≡ p (get_or xs j d)
  get_or-modify_keeps p f same [] i j d = refl
  get_or-modify_keeps p f same (x ∷ xs) zero zero d = same x
  get_or-modify_keeps p f same (x ∷ xs) zero (suc j) d = refl
  get_or-modify_keeps p f same (x ∷ xs) (suc i) zero d = refl
  get_or-modify_keeps p f same (x ∷ xs) (suc i) (suc j) d = get_or-modify_keeps p f same xs i j d

  pub length-map : (f : A → B) (xs : List A) → length (map f xs) ≡ length xs
  length-map f [] = refl
  length-map f (x ∷ xs) = omega (arith, length-map f xs)

  pub get_or-map :
      (f : A → B) (xs : List A) (i : ℕ) (d : A) → get_or (map f xs) i (f d) ≡ f (get_or xs i d)
  get_or-map f [] i d = refl
  get_or-map f (x ∷ xs) zero d = refl
  get_or-map f (x ∷ xs) (suc i) d = get_or-map f xs i d

  pub get_or-map_lt :
      (f : A → B) (xs : List A) (i : ℕ) (d : A) (e : B)
      → i < length xs
      → get_or (map f xs) i e ≡ f (get_or xs i d)
  get_or-map_lt f [] i d e h = absurd (omega arith)
  get_or-map_lt f (x ∷ xs) zero d e h = refl
  get_or-map_lt f (x ∷ xs) (suc i) d e h = get_or-map_lt f xs i d e (omega arith)

-- Pointwise combination, as long as the shorter list.
module _ {ℓ} {A : Type ℓ} (f : A → A → A) where
  abbrev pub zip_with : List A → List A → List A
  zip_with [] ys = []
  zip_with (x ∷ xs) [] = []
  zip_with (x ∷ xs) (y ∷ ys) = f x y ∷ zip_with xs ys

  pub length-zip_with :
      (xs ys : List A) → length xs ≡ length ys → length (zip_with xs ys) ≡ length xs
  length-zip_with [] ys h = refl
  length-zip_with (x ∷ xs) [] h = absurd (omega arith)
  length-zip_with (x ∷ xs) (y ∷ ys) h = omega (arith, length-zip_with xs ys)

  pub get_or-zip_with :
      (xs ys : List A) (i : ℕ) (d e : A)
      → length xs ≡ length ys
      → i < length xs
      → get_or (zip_with xs ys) i d ≡ f (get_or xs i e) (get_or ys i e)
  get_or-zip_with [] ys i d e h l = absurd (omega arith)
  get_or-zip_with (x ∷ xs) [] i d e h l = absurd (omega arith)
  get_or-zip_with (x ∷ xs) (y ∷ ys) zero d e h l = refl
  get_or-zip_with (x ∷ xs) (y ∷ ys) (suc i) d e h l =
      get_or-zip_with xs ys i d e (omega arith) (omega arith)

-- `count` numbers from `i` on.
abbrev pub range : ℕ → ℕ → List ℕ
range zero i = []
range (suc count) i = i ∷ range count (suc i)
