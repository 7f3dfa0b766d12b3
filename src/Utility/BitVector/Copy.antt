-- ===== src/Utility/BitVector/Copy.antt =====
-- `assignFrom` and `unsetFrom`.
use quickstep_streaming.Prelude.{
  ℕ, zero, suc, ◌/◌, ◌%◌, ◌≡◌, refl, sym, ap, ◌∙◌, subst, List, [], ◌∷◌, ◌++◌, false, not, ◌&&◌,
  length, take, drop, zip_with, arith, get_or-past,
}
use quickstep_streaming.Utility.Word.{Word, bit, and_word, not_word}
use quickstep_streaming.Utility.Word.Laws.{
  bit-and_word, bit-not_word, length-and_word, length-not_word,
}
use quickstep_streaming.Utility.BitVector.{
  size_t_bits, BitVector, array_size, bytes_needed, copy_words, assign_from, unset_words,
  unset_from,
}
use quickstep_streaming.Utility.BitVector.Bits.{bit_at, IsValid}
use quickstep_streaming.Utility.BitVector.Bitwise.{bit-zip_with, zip_with-IsValid, same_arrays}

bytes_needed-array_size : (n : ℕ) → bytes_needed n / 8 ≡ array_size n
unfolding bytes_needed array_size
bytes_needed-array_size n = ground arith

take-drop_all {ℓ} :
    {A : Type ℓ} (k : ℕ) (xs ys : List A)
    → length xs ≡ k
    → length ys ≡ k
    → take k xs ++ drop k ys ≡ xs
take-drop_all zero [] [] h l = refl
take-drop_all zero [] (y ∷ ys) h l = absurd (omega arith)
take-drop_all zero (x ∷ xs) ys h l = absurd (omega arith)
take-drop_all (suc k) [] ys h l = absurd (omega arith)
take-drop_all (suc k) (x ∷ xs) [] h l = absurd (omega arith)
take-drop_all (suc k) (x ∷ xs) (y ∷ ys) h l =
    ap (◌∷◌ x) (take-drop_all k xs ys (omega arith) (omega arith))

module _ (v u : BitVector) (valid : IsValid v) (valid' : IsValid u)
    (same : u.num_bits ≡ v.num_bits) where
  -- Between well-formed vectors of one size `assign_from` makes the two equal.
  pub assign_from-eq : assign_from v u ≡ u
  unfolding assign_from copy_words
  assign_from-eq = λ i. record { num_bits = sym same i; data_array = copied i }
    where
      copied :
          take (bytes_needed v.num_bits / 8) u.data_array
            ++ drop (bytes_needed v.num_bits / 8) v.data_array
          ≡ u.data_array
      copied =
          take-drop_all (bytes_needed v.num_bits / 8) u.data_array v.data_array
            (valid'.sized ∙ ap array_size same ∙ sym (bytes_needed-array_size v.num_bits))
            (valid.sized ∙ sym (bytes_needed-array_size v.num_bits))

bit-unset :
    (x y : Word) (q : ℕ)
    → length x ≡ length y
    → bit (and_word x (not_word y)) q ≡ (bit x q && not (bit y q))
bit-unset x y q l = ground (
  arith,
  bit-and_word x (not_word y) q,
  bit-not_word y q,
  length-not_word y,
  get_or-past x q false,
)

length-unset : (x y : Word) → length x ≡ length y → length (and_word x (not_word y)) ≡ length x
length-unset x y l = length-and_word x (not_word y) (omega (arith, length-not_word y))

unset_words-zip_with :
    (xs ys : List Word)
    → length xs ≡ length ys
    → unset_words xs ys ≡ zip_with (λ x y. and_word x (not_word y)) xs ys
unfolding unset_words
unset_words-zip_with [] ys l = refl
unset_words-zip_with (x ∷ xs) [] l = absurd (omega arith)
unset_words-zip_with (x ∷ xs) (y ∷ ys) l =
    ap (◌∷◌ (and_word x (not_word y))) (unset_words-zip_with xs ys (omega arith))

module _ (v u : BitVector) (valid : IsValid v) (valid' : IsValid u)
    (same : u.num_bits ≡ v.num_bits) where
  unset_from-zip_with : unset_from v u ≡ record v {
    data_array = zip_with (λ x y. and_word x (not_word y)) v.data_array u.data_array;
  }
  unfolding unset_from
  unset_from-zip_with =
      ap (λ words. record v { data_array = words })
        (unset_words-zip_with v.data_array u.data_array (same_arrays v u valid valid' same))

  -- Between well-formed vectors of one size `unset_from` clears just the bits that the other vector
  -- has set.
  pub bit_at-unset_from : (i : ℕ) → bit_at (unset_from v u) i ≡ (bit_at v i && not (bit_at u i))
  bit_at-unset_from i =
      ap (λ w. bit_at w i) unset_from-zip_with
      ∙ bit-zip_with (λ x y. and_word x (not_word y)) (λ a b. a && not b) bit-unset length-unset
          refl v.data_array u.data_array (i / size_t_bits) (i % size_t_bits)
          (same_arrays v u valid valid' same) valid.wide valid'.wide

  pub unset_from-IsValid : IsValid (unset_from v u)
  unset_from-IsValid = subst IsValid (sym unset_from-zip_with) (
      zip_with-IsValid (λ x y. and_word x (not_word y)) (λ a b. a && not b) bit-unset length-unset
        refl v u valid valid' same)
