-- ===== src/Utility/Word/Counts.antt =====
-- The portable loop of `leading_zero_count` in utility/BitManipulation.hpp.
use quickstep_streaming.Prelude.{
  ℕ, zero, suc, ◌+◌, ◌<◌, ◌≡◌, refl, ◌∙◌, [], ◌∷◌, true, false, if◌then◌else◌, length, arith, inl,
  inr, Bool-cases,
}
use quickstep_streaming.Utility.Word.{
  Word, bit, shl, nonzero, leading_zero_loop, leading_zero_count,
}
use quickstep_streaming.Utility.Word.Laws.{bit-shl, length-shl}
use quickstep_streaming.Utility.Word.Masks.{nonzero-top_bit}

-- The place of the first 1, or the width.
pub first_set : Word → ℕ
first_set [] = 0
first_set (true ∷ w) = 0
first_set (false ∷ w) = suc (first_set w)

pub first_set-lt : (w : Word) → nonzero w ≡ true → first_set w < length w
unfolding first_set nonzero
first_set-lt [] h = cc
first_set-lt (true ∷ w) h = omega arith
first_set-lt (false ∷ w) h = omega (arith, first_set-lt w h)

pub bit-first_set : (w : Word) → nonzero w ≡ true → bit w (first_set w) ≡ true
unfolding first_set nonzero
bit-first_set [] h = cc
bit-first_set (true ∷ w) h = refl
bit-first_set (false ∷ w) h = bit-first_set w h

pub bit_below-first_set : (w : Word) (i : ℕ) → i < first_set w → bit w i ≡ false
unfolding first_set
bit_below-first_set [] i h = refl
bit_below-first_set (true ∷ w) i h = absurd (omega arith)
bit_below-first_set (false ∷ w) zero h = refl
bit_below-first_set (false ∷ w) (suc i) h = bit_below-first_set w i (omega arith)

leading_zero_loop_lem :
    (fuel count : ℕ) (w : Word) (n i : ℕ)
    → length w ≡ suc n
    → i < fuel
    → bit w i ≡ true
    → ((j : ℕ) → j < i → bit w j ≡ false)
    → leading_zero_loop fuel count w ≡ count + i
unfolding leading_zero_loop
leading_zero_loop_lem zero count w n i l h b z = absurd (omega arith)
leading_zero_loop_lem (suc f) count w n zero l h b z =
    rw (l, nonzero-top_bit w n l, b) (omega arith)
leading_zero_loop_lem (suc f) count w n (suc i) l h b z =
    rw (l, nonzero-top_bit w n l, z 0 (omega arith))
      (leading_zero_loop_lem f (count + 1) (shl 1 w) n i (omega (arith, length-shl 1 w))
          (omega arith) (bit-shl 1 w i ∙ subst_bit i b)
          (λ j lt. bit-shl 1 w j ∙ subst_bit_false j (z (suc j) (omega arith)))
        ∙ omega arith)
  where
    subst_bit : (j : ℕ) → bit w (suc j) ≡ true → bit w (1 + j) ≡ true
    subst_bit j e = let q : 1 + j ≡ suc j = omega arith in rw q e

    subst_bit_false : (j : ℕ) → bit w (suc j) ≡ false → bit w (1 + j) ≡ false
    subst_bit_false j e = let q : 1 + j ≡ suc j = omega arith in rw q e

-- For a word that is not empty, `leading_zero_count`, with the width as fuel, gives the place of
-- the first 1, or the width if the word is 0.
pub leading_zero_count-first_set :
    (w : Word) (n : ℕ)
    → length w ≡ suc n
    → leading_zero_count w ≡ (if nonzero w then first_set w else length w)
unfolding leading_zero_count
leading_zero_count-first_set w n l = elim (Bool-cases (nonzero w)) [
  | inl h ↦ rw h (
      leading_zero_loop_lem (length w) 0 w n (first_set w) l (first_set-lt w h) (bit-first_set w h)
        (bit_below-first_set w)
      ∙ omega arith)
  | inr h ↦ rw h refl
]
