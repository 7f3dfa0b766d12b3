-- ===== src/Types/StringCoercion/Text.antt =====
-- The text of a string: its bytes before the first 0.
use quickstep_streaming.Prelude.{
  ℕ, zero, suc, ◌+◌, ◌≤◌, ◌≡◌, refl, ap, true, List, [], ◌∷◌, ◌++◌, ltb, length, take, arith,
}
use quickstep_streaming.Types.StringCoercion.{has_zero, strnlen}

abbrev pub text : List ℕ → List ℕ
text [] = []
text (zero ∷ bytes) = []
text (suc c ∷ bytes) = suc c ∷ text bytes

pub strnlen-le : (d : List ℕ) → strnlen d ≤ length d
unfolding strnlen
strnlen-le [] = omega arith
strnlen-le (zero ∷ d) = omega arith
strnlen-le (suc c ∷ d) = omega (arith, strnlen-le d)

pub has_zero-strnlen : (d : List ℕ) → has_zero d ≡ ltb (strnlen d) (length d)
unfolding has_zero strnlen
has_zero-strnlen [] = refl
has_zero-strnlen (zero ∷ d) = ground arith
has_zero-strnlen (suc c ∷ d) = ground (arith, has_zero-strnlen d)

pub text-terminated : (d : List ℕ) → text (d ++ (0 ∷ [])) ≡ text d
text-terminated [] = refl
text-terminated (zero ∷ d) = refl
text-terminated (suc c ∷ d) = ap (λ x. suc c ∷ x) (text-terminated d)

pub text-take : (n : ℕ) (d : List ℕ) → text (take n d) ≡ take n (text d)
text-take zero d = refl
text-take (suc n) [] = refl
text-take (suc n) (zero ∷ d) = refl
text-take (suc n) (suc c ∷ d) = ap (λ x. suc c ∷ x) (text-take n d)

-- Enough bytes leave a text as it is.
pub take-text : (n : ℕ) (d : List ℕ) → strnlen d ≤ n → take n (text d) ≡ text d
unfolding strnlen
take-text zero [] h = refl
take-text zero (zero ∷ d) h = refl
take-text zero (suc c ∷ d) h = absurd (omega arith)
take-text (suc n) [] h = refl
take-text (suc n) (zero ∷ d) h = refl
take-text (suc n) (suc c ∷ d) h = ap (λ x. suc c ∷ x) (take-text n d (omega arith))

pub strnlen-take_le : (n : ℕ) (d : List ℕ) → strnlen (take n d) ≤ n
unfolding strnlen
strnlen-take_le zero d = omega arith
strnlen-take_le (suc n) [] = omega arith
strnlen-take_le (suc n) (zero ∷ d) = omega arith
strnlen-take_le (suc n) (suc c ∷ d) = omega (arith, strnlen-take_le n d)

-- Before its first 0, taking bytes takes as many of them.
pub strnlen-take_terminated :
    (n : ℕ) (d : List ℕ)
    → n ≤ strnlen d
    → (strnlen (take n d ++ (0 ∷ [])) ≡ n) × (length (take n d ++ (0 ∷ [])) ≡ n + 1)
unfolding strnlen
strnlen-take_terminated zero d h = (refl, refl)
strnlen-take_terminated (suc n) [] h = absurd (omega arith)
strnlen-take_terminated (suc n) (zero ∷ d) h = absurd (omega arith)
strnlen-take_terminated (suc n) (suc c ∷ d) h =
    let (s, l) = strnlen-take_terminated n d (omega arith) in (omega (arith, s), omega (arith, l))

pub has_zero-terminated : (d : List ℕ) → has_zero (d ++ (0 ∷ [])) ≡ true
unfolding has_zero
has_zero-terminated [] = refl
has_zero-terminated (c ∷ d) = ground (arith, has_zero-terminated d)

pub length-terminated : (d : List ℕ) → length (d ++ (0 ∷ [])) ≡ length d + 1
length-terminated [] = refl
length-terminated (c ∷ d) = omega (arith, length-terminated d)
