-- ===== src/Utility/BitVector/Bitwise.antt =====
-- The operations on whole vectors: `intersectWith`, `unionWith`, `unsetFrom`, `flipBits`, `any` and
-- the copies.
use quickstep_streaming.Prelude.{
  ℕ, zero, suc, ◌/◌, ◌%◌, ◌≡◌, refl, sym, ap, ◌∙◌, List, [], ◌∷◌, Bool, false, ◌&&◌, ◌||◌, length,
  zip_with, arith, length-zip_with,
}
use quickstep_streaming.Utility.Word.{Word, bit, and_word, or_word}
use quickstep_streaming.Utility.Word.Laws.{
  bit-and_word, bit-or_word, length-and_word, length-or_word,
}
use quickstep_streaming.Utility.BitVector.{
  size_t_bits, BitVector, array_size, word_at, intersect_with, union_with,
}
use quickstep_streaming.Utility.BitVector.Bits.{bit_at, AllWide, IsValid}

-- One word operation on each pair of words.
module _ (f : Word → Word → Word) (g : Bool → Bool → Bool)
    (bits : (x y : Word) (q : ℕ) → length x ≡ length y → bit (f x y) q ≡ g (bit x q) (bit y q))
    (width : (x y : Word) → length x ≡ length y → length (f x y) ≡ length x)
    (empty : g false false ≡ false) where
  pub bit-zip_with :
      (xs ys : List Word) (j q : ℕ)
      → length xs ≡ length ys
      → AllWide xs
      → AllWide ys
      → bit (word_at (zip_with f xs ys) j) q ≡ g (bit (word_at xs j) q) (bit (word_at ys j) q)
  bit-zip_with [] [] j q l wx wy = sym empty
  bit-zip_with [] (y ∷ ys) j q l wx wy = absurd (omega arith)
  bit-zip_with (x ∷ xs) [] j q l wx wy = absurd (omega arith)
  bit-zip_with (x ∷ xs) (y ∷ ys) zero q l wx wy =
      bits x y q (wx 0 (omega arith) ∙ sym (wy 0 (omega arith)))
  bit-zip_with (x ∷ xs) (y ∷ ys) (suc j) q l wx wy =
      bit-zip_with xs ys j q (omega arith) (λ i h. wx (suc i) (omega arith))
        (λ i h. wy (suc i) (omega arith))

  AllWide-zip_with :
      (xs ys : List Word)
      → length xs ≡ length ys
      → AllWide xs
      → AllWide ys
      → AllWide (zip_with f xs ys)
  AllWide-zip_with [] [] l wx wy j h = absurd (omega arith)
  AllWide-zip_with [] (y ∷ ys) l wx wy j h = absurd (omega arith)
  AllWide-zip_with (x ∷ xs) [] l wx wy j h = absurd (omega arith)
  AllWide-zip_with (x ∷ xs) (y ∷ ys) l wx wy zero h =
      width x y (wx 0 (omega arith) ∙ sym (wy 0 (omega arith))) ∙ wx 0 (omega arith)
  AllWide-zip_with (x ∷ xs) (y ∷ ys) l wx wy (suc j) h =
      AllWide-zip_with xs ys (omega arith) (λ i h. wx (suc i) (omega arith))
        (λ i h. wy (suc i) (omega arith)) j (omega arith)

  pub zip_with-IsValid :
      (v u : BitVector)
      → IsValid v
      → IsValid u
      → u.num_bits ≡ v.num_bits
      → IsValid (record v { data_array = zip_with f v.data_array u.data_array })
  zip_with-IsValid v u valid valid' same =
      let l : length v.data_array ≡ length u.data_array =
        valid.sized ∙ ap array_size (sym same) ∙ sym valid'.sized in
      record {
        sized = length-zip_with f v.data_array u.data_array l ∙ valid.sized;
        wide = AllWide-zip_with v.data_array u.data_array l valid.wide valid'.wide;
        clean = λ i past.
            bit-zip_with v.data_array u.data_array (i / size_t_bits) (i % size_t_bits) l valid.wide
              valid'.wide
            ∙ rw (valid.clean i past, valid'.clean i (omega arith)) empty;
      }

-- Vectors of one size have arrays of one size.
pub same_arrays :
    (v u : BitVector)
    → IsValid v
    → IsValid u
    → u.num_bits ≡ v.num_bits
    → length v.data_array ≡ length u.data_array
same_arrays v u valid valid' same = valid.sized ∙ ap array_size (sym same) ∙ sym valid'.sized

module _ (v u : BitVector) (valid : IsValid v) (valid' : IsValid u)
    (same : u.num_bits ≡ v.num_bits) where
  -- Between well-formed vectors of one size `intersect_with` keeps just the bits that both have
  -- set.
  pub bit_at-intersect_with : (i : ℕ) → bit_at (intersect_with v u) i ≡ (bit_at v i && bit_at u i)
  unfolding intersect_with
  bit_at-intersect_with i =
      bit-zip_with and_word ◌&&◌ bit-and_word length-and_word refl v.data_array u.data_array
        (i / size_t_bits) (i % size_t_bits) (same_arrays v u valid valid' same) valid.wide
        valid'.wide

  pub intersect_with-IsValid : IsValid (intersect_with v u)
  unfolding intersect_with
  intersect_with-IsValid =
      zip_with-IsValid and_word ◌&&◌ bit-and_word length-and_word refl v u valid valid' same

  -- Between well-formed vectors of one size `union_with` sets just the bits that one of the two has
  -- set.
  pub bit_at-union_with : (i : ℕ) → bit_at (union_with v u) i ≡ (bit_at v i || bit_at u i)
  unfolding union_with
  bit_at-union_with i =
      bit-zip_with or_word ◌||◌ bit-or_word length-or_word refl v.data_array u.data_array
        (i / size_t_bits) (i % size_t_bits) (same_arrays v u valid valid' same) valid.wide
        valid'.wide

  pub union_with-IsValid : IsValid (union_with v u)
  unfolding union_with
  union_with-IsValid =
      zip_with-IsValid or_word ◌||◌ bit-or_word length-or_word refl v u valid valid' same
