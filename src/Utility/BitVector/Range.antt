-- ===== src/Utility/BitVector/Range.antt =====
-- `setBitRange`, by whole words with a mask at either end.
use quickstep_streaming.Prelude.{
  ℕ, zero, suc, ◌+◌, ◌*◌, ◌/◌, ◌%◌, ◌≤◌, ◌<◌, ◌≡◌, refl, sym, ap, ◌∙◌, List, [], ◌∷◌, Bool, true,
  false, ◌&&◌, ltb, leb, ◌==◌, if◌then◌else◌, length, modify, arith, inl, inr, length-modify,
  Bool-cases,
}
use quickstep_streaming.Utility.Word.{Word, bit, word_zero, word_max, not_word, mask_bit_range}
use quickstep_streaming.Utility.Word.Laws.{
  bit-word_zero, bit-word_max, bit-and_word, bit-or_word, bit-not_word, length-word_zero,
  length-word_max, length-and_word, length-or_word, length-not_word,
}
use quickstep_streaming.Utility.Word.Masks.{bit-mask_bit_range, length-mask_bit_range}
use quickstep_streaming.Utility.BitVector.{
  size_t_bits, word_at, write_mask, fill_words, set_whole_words,
}
use quickstep_streaming.Utility.BitVector.Bits.{AllWide, AllWide-modify, bit-word_at-modify}

pub bit-write_mask :
    (value : Bool) (mask w : Word) (q : ℕ)
    → length w ≡ length mask
    → q < length mask
    → bit (write_mask value mask w) q ≡ (if bit mask q then value else bit w q)
unfolding write_mask
bit-write_mask true mask w q l h = ground (arith, bit-or_word w mask q)
bit-write_mask false mask w q l h =
    ground (arith, bit-and_word w (not_word mask) q, bit-not_word mask q, length-not_word mask)

length-write_mask :
    (value : Bool) (mask w : Word)
    → length w ≡ length mask
    → length (write_mask value mask w) ≡ length w
unfolding write_mask
length-write_mask true mask w l = length-or_word w mask l
length-write_mask false mask w l =
    length-and_word w (not_word mask) (omega (arith, length-not_word mask))

modify-past :
    (words : List Word) (k : ℕ) (f : Word → Word) → length words ≤ k → modify words k f ≡ words
modify-past [] k f h = refl
modify-past (w ∷ words) zero f h = absurd (omega arith)
modify-past (w ∷ words) (suc k) f h = ap (◌∷◌ w) (modify-past words k f (omega arith))

-- The bits after a masked write of word `k`; past the array nothing is written.
pub bit-write_word :
    (words : List Word) (k i lower count : ℕ) (value : Bool)
    → AllWide words
    → bit
        (word_at
          (modify words k (write_mask value (mask_bit_range size_t_bits lower count)))
          (i / size_t_bits))
        (i % size_t_bits)
      ≡ (if ltb k (length words)
            && (i / size_t_bits == k)
            && leb lower (i % size_t_bits)
            && ltb (i % size_t_bits) (lower + count)
          then value
          else bit (word_at words (i / size_t_bits)) (i % size_t_bits))
bit-write_word words k i lower count value wide = elim (Bool-cases (ltb k (length words))) [
  | inl inside ↦ ground (
    arith,
    bit-word_at-modify words k i (write_mask value (mask_bit_range size_t_bits lower count)),
    bit-write_mask value (mask_bit_range size_t_bits lower count) (word_at words k)
        (i % size_t_bits),
    bit-mask_bit_range size_t_bits lower count (i % size_t_bits),
    length-mask_bit_range size_t_bits lower count,
    wide k,
  )
  | inr outside ↦
      rw
        (
          outside,
          modify-past words k (write_mask value (mask_bit_range size_t_bits lower count))
              (ground arith),
        )
        refl
]

pub AllWide-write_word :
    (words : List Word) (k lower count : ℕ) (value : Bool)
    → AllWide words
    → AllWide (modify words k (write_mask value (mask_bit_range size_t_bits lower count)))
AllWide-write_word words k lower count value wide = elim (Bool-cases (ltb k (length words))) [
  | inl inside ↦
      AllWide-modify words k (write_mask value (mask_bit_range size_t_bits lower count)) wide
        (λ w l.
          length-write_mask value (mask_bit_range size_t_bits lower count) w
            (l ∙ sym (length-mask_bit_range size_t_bits lower count))
          ∙ l)
        (ground arith)
  | inr outside ↦
      rw
        (modify-past words k (write_mask value (mask_bit_range size_t_bits lower count))
          (ground arith))
        wide
]

abbrev full_word : Bool → Word → Word
full_word value w = if value then word_max size_t_bits else word_zero size_t_bits

bit-full_word :
    (value : Bool) (w : Word) (q : ℕ) → q < size_t_bits → bit (full_word value w) q ≡ value
bit-full_word true w q h = ground (arith, bit-word_max size_t_bits q)
bit-full_word false w q h = bit-word_zero size_t_bits q

length-full_word : (value : Bool) (w : Word) → length (full_word value w) ≡ size_t_bits
length-full_word true w = length-word_max size_t_bits
length-full_word false w = length-word_zero size_t_bits

length-fill_words :
    (value : Bool) (start count : ℕ) (words : List Word)
    → length (fill_words value start count words) ≡ length words
unfolding fill_words
length-fill_words value start zero words = refl
length-fill_words value start (suc count) words =
    length-fill_words value (suc start) count (modify words start (full_word value))
    ∙ length-modify words start (full_word value)

AllWide-fill_words :
    (value : Bool) (start count : ℕ) (words : List Word)
    → AllWide words
    → start + count ≤ length words
    → AllWide (fill_words value start count words)
unfolding fill_words
AllWide-fill_words value start zero words wide h = wide
AllWide-fill_words value start (suc count) words wide h =
    AllWide-fill_words value (suc start) count (modify words start (full_word value))
      (AllWide-modify words start (full_word value) wide (λ w l. length-full_word value w)
        (omega arith))
      (omega (arith, length-modify words start (full_word value)))

bit-fill_words :
    (value : Bool) (start count : ℕ) (words : List Word) (i : ℕ)
    → start + count ≤ length words
    → bit (word_at (fill_words value start count words) (i / size_t_bits)) (i % size_t_bits) ≡ (
        if leb start (i / size_t_bits) && ltb (i / size_t_bits) (start + count)
        then value
        else bit (word_at words (i / size_t_bits)) (i % size_t_bits))
unfolding fill_words
bit-fill_words value start zero words i h = ground arith
bit-fill_words value start (suc count) words i h = ground (
  arith,
  bit-fill_words value (suc start) count (modify words start (full_word value)) i,
  bit-word_at-modify words start i (full_word value),
  bit-full_word value (word_at words start) (i % size_t_bits),
  length-modify words start (full_word value),
)

-- Whole words and the last mask together write a range of bits.
pub bit-set_whole_words :
    (value : Bool) (start range : ℕ) (words : List Word) (i : ℕ)
    → AllWide words
    → start * size_t_bits + range ≤ length words * size_t_bits
    → bit (word_at (set_whole_words value start range words) (i / size_t_bits)) (i % size_t_bits)
      ≡ (if leb (start * size_t_bits) i && ltb i (start * size_t_bits + range)
          then value
          else bit (word_at words (i / size_t_bits)) (i % size_t_bits))
unfolding set_whole_words
bit-set_whole_words value start range words i wide h =
    let filled = fill_words value start (range / size_t_bits) words in
    ground (
      arith,
      bit-write_word filled (start + range / size_t_bits) i 0 (range % size_t_bits) value
          (AllWide-fill_words value start (range / size_t_bits) words wide (omega arith)),
      bit-fill_words value start (range / size_t_bits) words i,
      length-fill_words value start (range / size_t_bits) words,
    )

pub AllWide-set_whole_words :
    (value : Bool) (start range : ℕ) (words : List Word)
    → AllWide words
    → start * size_t_bits + range ≤ length words * size_t_bits
    → AllWide (set_whole_words value start range words)
unfolding set_whole_words
AllWide-set_whole_words value start range words wide h =
    AllWide-write_word (fill_words value start (range / size_t_bits) words)
      (start + range / size_t_bits) 0 (range % size_t_bits) value
      (AllWide-fill_words value start (range / size_t_bits) words wide (omega arith))

pub length-set_whole_words :
    (value : Bool) (start range : ℕ) (words : List Word)
    → length (set_whole_words value start range words) ≡ length words
unfolding set_whole_words
length-set_whole_words value start range words =
    length-modify (fill_words value start (range / size_t_bits) words) (start + range / size_t_bits)
      (write_mask value (mask_bit_range size_t_bits 0 (range % size_t_bits)))
    ∙ length-fill_words value start (range / size_t_bits) words
