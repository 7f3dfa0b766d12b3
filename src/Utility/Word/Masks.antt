-- ===== src/Utility/Word/Masks.antt =====
-- Masks, the flip of a partial word, and the counts of utility/BitManipulation.hpp.
use quickstep_streaming.Prelude.{
  ℕ, zero, suc, ◌+◌, ◌-◌, ◌≤◌, ◌≡◌, refl, sym, ◌∙◌, [], ◌∷◌, true, false, not, ◌&&◌, ltb, leb, ◌==◌,
  if◌then◌else◌, length, replicate, arith, inl, inr, length-append, length-replicate, get_or-append,
  get_or-replicate, Bool-cases,
}
use quickstep_streaming.Utility.Word.{
  Word, bit, word_max, and_word, not_word, shl, nonzero, word_one, top_bit, mask_of, mask_bit_range,
  flip_limited_bits,
}
use quickstep_streaming.Utility.Word.Laws.{
  bit-word_zero, bit-word_max, bit-and_word, bit-not_word, bit-shl, bit-shr, length-word_zero,
  length-word_max, length-and_word, length-not_word, length-shl, length-shr, nonzero-of_bit,
}

nonzero-false : (x : Word) → ((i : ℕ) → bit x i ≡ false) → nonzero x ≡ false
unfolding nonzero
nonzero-false [] h = refl
nonzero-false (b ∷ x) h = ground (arith, h 0, nonzero-false x (λ i. h (suc i)))

bit-word_one : (n i : ℕ) → bit (word_one (suc n)) i ≡ (i == n)
unfolding word_one
bit-word_one n i = ground (
  arith,
  get_or-append (replicate (suc n - 1) false) (true ∷ []) i false,
  get_or-replicate (suc n - 1) i false,
  length-replicate (suc n - 1) false,
  one_bit (i - (suc n - 1)),
)
  where
    one_bit : (j : ℕ) → bit (true ∷ []) j ≡ (j == 0)
    one_bit zero = refl
    one_bit (suc j) = ground arith

length-word_one : (n : ℕ) → length (word_one (suc n)) ≡ suc n
unfolding word_one
length-word_one n = omega (
  arith,
  length-append (replicate (suc n - 1) false) (true ∷ []),
  length-replicate (suc n - 1) false,
)

pub bit-top_bit : (n i : ℕ) → bit (top_bit (suc n)) i ≡ (i == 0)
unfolding top_bit
bit-top_bit n i =
    ground (arith, bit-shl (suc n - 1) (word_one (suc n)) i, bit-word_one n (suc n - 1 + i))

pub length-top_bit : (n : ℕ) → length (top_bit (suc n)) ≡ suc n
unfolding top_bit
length-top_bit n = omega (arith, length-shl (suc n - 1) (word_one (suc n)), length-word_one n)

-- Testing a word against the top bit reads its first bit.
pub nonzero-top_bit :
    (x : Word) (n : ℕ) → length x ≡ suc n → nonzero (and_word x (top_bit (suc n))) ≡ bit x 0
nonzero-top_bit x n h = elim (Bool-cases (bit x 0)) [
  | inl set ↦
      nonzero-of_bit _ 0
        (ground (arith, bit-and_word x (top_bit (suc n)) 0, length-top_bit n, bit-top_bit n 0))
      ∙ sym set
  | inr unset ↦
      nonzero-false _ (λ i.
        ground (
          arith,
          bit-and_word x (top_bit (suc n)) i,
          length-top_bit n,
          bit-top_bit n i,
          zero_only i,
        ))
      ∙ sym unset
]
  where
    zero_only : (i : ℕ) → (i == 0) ≡ true → bit x i ≡ bit x 0
    zero_only zero e = refl
    zero_only (suc i) e = ground arith

bit-mask_of :
    (n start c i : ℕ)
    → c ≤ n
    → bit (mask_of n start c) i ≡ (leb start i && ltb i (start + c) && ltb i n)
unfolding mask_of
bit-mask_of n start zero i h = ground (arith, bit-word_zero n i)
bit-mask_of n start (suc c) i h = ground (
  arith,
  bit-shr start (shl (n - suc c) (word_max n)) i,
  bit-shl (n - suc c) (word_max n) (i - start),
  bit-word_max n (n - suc c + (i - start)),
  length-shl (n - suc c) (word_max n),
  length-word_max n,
)

pub bit-mask_bit_range :
    (n start count i : ℕ)
    → bit (mask_bit_range n start count) i ≡ (leb start i && ltb i (start + count) && ltb i n)
unfolding mask_bit_range
bit-mask_bit_range n start count i =
    ground (arith, bit-mask_of n start n i, bit-mask_of n start count i)

length-mask_of : (n start c : ℕ) → c ≤ n → length (mask_of n start c) ≡ n
unfolding mask_of
length-mask_of n start zero h = length-word_zero n
length-mask_of n start (suc c) h = omega (
  arith,
  length-shr start (shl (n - suc c) (word_max n)),
  length-shl (n - suc c) (word_max n),
  length-word_max n,
)

pub length-mask_bit_range : (n start count : ℕ) → length (mask_bit_range n start count) ≡ n
unfolding mask_bit_range
length-mask_bit_range n start count =
    ground (arith, length-mask_of n start n, length-mask_of n start count)

-- `flip_limited_bits count` flips the first `count` bits, or all for 0, and clears the rest.
pub bit-flip_limited_bits :
    (count : ℕ) (x : Word) (i : ℕ)
    → count ≤ length x
    → bit (flip_limited_bits count x) i
      ≡ (ltb i (if count == 0 then length x else count) && not (bit x i))
unfolding flip_limited_bits
bit-flip_limited_bits zero x i h = bit-not_word x i
bit-flip_limited_bits (suc c) x i h = ground (
  arith,
  bit-and_word (not_word x) (shl (length x - suc c) (word_max (length x))) i,
  bit-not_word x i,
  bit-shl (length x - suc c) (word_max (length x)) i,
  bit-word_max (length x) (length x - suc c + i),
  length-not_word x,
  length-shl (length x - suc c) (word_max (length x)),
  length-word_max (length x),
)

pub length-flip_limited_bits :
    (count : ℕ) (x : Word) → length (flip_limited_bits count x) ≡ length x
unfolding flip_limited_bits
length-flip_limited_bits zero x = length-not_word x
length-flip_limited_bits (suc c) x = ground (
  arith,
  length-and_word (not_word x) (shl (length x - suc c) (word_max (length x))),
  length-not_word x,
  length-shl (length x - suc c) (word_max (length x)),
  length-word_max (length x),
)
