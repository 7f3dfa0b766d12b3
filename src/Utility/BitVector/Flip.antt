-- ===== src/Utility/BitVector/Flip.antt =====
-- `flipBits` and `any`.
use quickstep_streaming.Prelude.{
  ℕ, zero, suc, ◌-◌, ◌/◌, ◌%◌, ◌<◌, ◌≡◌, refl, sym, ap, ◌∙◌, subst, List, [], ◌∷◌, true, false, not,
  ◌&&◌, ltb, ◌==◌, if◌then◌else◌, length, modify, arith, inl, inr, length-modify, Bool-cases,
}
use quickstep_streaming.Utility.Word.{Word, bit, not_word, flip_limited_bits}
use quickstep_streaming.Utility.Word.Laws.{
  bit-not_word, length-not_word, nonzero-of_bit, bit-of_nonzero,
}
use quickstep_streaming.Utility.Word.Masks.{bit-flip_limited_bits, length-flip_limited_bits}
use quickstep_streaming.Utility.BitVector.{
  size_t_bits, BitVector, array_size, word_at, flip_words, flip_bits, any_words, any,
}
use quickstep_streaming.Utility.BitVector.Bits.{
  bit_at, AllWide, IsValid, array_size_bounds, AllWide-modify, bit-word_at-modify,
}

length-flip_words : (n : ℕ) (words : List Word) → length (flip_words n words) ≡ length words
unfolding flip_words
length-flip_words zero words = refl
length-flip_words (suc n) [] = refl
length-flip_words (suc n) (w ∷ words) = omega (arith, length-flip_words n words)

AllWide-flip_words : (n : ℕ) (words : List Word) → AllWide words → AllWide (flip_words n words)
unfolding flip_words
AllWide-flip_words zero words wide j h = wide j h
AllWide-flip_words (suc n) [] wide j h = wide j h
AllWide-flip_words (suc n) (w ∷ words) wide zero h = length-not_word w ∙ wide 0 (omega arith)
AllWide-flip_words (suc n) (w ∷ words) wide (suc j) h =
    AllWide-flip_words n words (λ i lt. wide (suc i) (omega arith)) j (omega arith)

word_at-flip_words :
    (n j : ℕ) (words : List Word)
    → word_at (flip_words n words) j
      ≡ (if ltb j n && ltb j (length words) then not_word (word_at words j) else word_at words j)
unfolding flip_words
word_at-flip_words zero j words = ground arith
word_at-flip_words (suc n) j [] = ground arith
word_at-flip_words (suc n) zero (w ∷ words) = ground arith
word_at-flip_words (suc n) (suc j) (w ∷ words) = ground (arith, word_at-flip_words n j words)

abbrev last_word : BitVector → ℕ
last_word v = array_size v.num_bits - 1

flipped : BitVector → List Word
flipped v =
    modify (flip_words (last_word v) v.data_array) (last_word v)
      (flip_limited_bits (v.num_bits % size_t_bits))

module _ (v : BitVector) (valid : IsValid v) (some_bits : 0 < v.num_bits) where
  last-lt : last_word v < length (flip_words (last_word v) v.data_array)
  last-lt = omega (
    arith,
    valid.sized,
    array_size_bounds v.num_bits,
    length-flip_words (last_word v) v.data_array,
  )

  AllWide-flipped : AllWide (flipped v)
  unfolding flipped
  AllWide-flipped =
      AllWide-modify (flip_words (last_word v) v.data_array) (last_word v)
        (flip_limited_bits (v.num_bits % size_t_bits))
        (AllWide-flip_words (last_word v) v.data_array valid.wide)
        (λ w l. length-flip_limited_bits (v.num_bits % size_t_bits) w ∙ l) last-lt

  wide_word : (j : ℕ) → j < array_size v.num_bits → length (word_at v.data_array j) ≡ size_t_bits
  wide_word j h = valid.wide j (omega (arith, valid.sized))

  bit-flipped :
      (i : ℕ)
      → bit (word_at (flipped v) (i / size_t_bits)) (i % size_t_bits)
        ≡ (ltb i v.num_bits && not (bit_at v i))
  unfolding flipped
  bit-flipped i = ground (
    arith,
    bit-word_at-modify (flip_words (last_word v) v.data_array) (last_word v) i
        (flip_limited_bits (v.num_bits % size_t_bits)) last-lt,
    word_at-flip_words (last_word v) (last_word v) v.data_array,
    word_at-flip_words (last_word v) (i / size_t_bits) v.data_array,
    bit-flip_limited_bits (v.num_bits % size_t_bits) (word_at v.data_array (last_word v))
        (i % size_t_bits),
    bit-not_word (word_at v.data_array (i / size_t_bits)) (i % size_t_bits),
    wide_word (last_word v),
    wide_word (i / size_t_bits),
    array_size_bounds v.num_bits,
    valid.sized,
    valid.clean i,
  )

-- In a well-formed vector `flip_bits` inverts the bits in range, and the bits past the end stay 0.
pub bit_at-flip_bits :
    (v : BitVector) (i : ℕ)
    → IsValid v
    → bit_at (flip_bits v) i ≡ (ltb i v.num_bits && not (bit_at v i))
unfolding flip_bits
bit_at-flip_bits v i valid = elim (Bool-cases (v.num_bits == 0)) [
  | inl none_ ↦ rw none_ (ground (arith, valid.clean i))
  | inr some_ ↦ rw some_ (unfold flipped in bit-flipped v valid (ground arith) i)
]

pub num_bits-flip_bits : (v : BitVector) → (flip_bits v).num_bits ≡ v.num_bits
unfolding flip_bits
num_bits-flip_bits v = ground arith

-- `flip_bits` of a well-formed vector is well formed.
pub flip_bits-IsValid : (v : BitVector) → IsValid v → IsValid (flip_bits v)
flip_bits-IsValid v valid = elim (Bool-cases (v.num_bits == 0)) [
  | inl none_ ↦
      let same : flip_bits v ≡ v = unfold flip_bits in rw none_ refl in
      subst IsValid (sym same) valid
  | inr some_ ↦
      let same : (flip_bits v).data_array ≡ flipped v = unfold flip_bits flipped in rw some_ refl in
      record {
        sized =
            ap length same
            ∙ unfold flipped in
              length-modify (flip_words (last_word v) v.data_array) (last_word v)
                (flip_limited_bits (v.num_bits % size_t_bits))
              ∙ length-flip_words (last_word v) v.data_array
              ∙ valid.sized
              ∙ ap array_size (sym (num_bits-flip_bits v));
        wide = subst AllWide (sym same) (AllWide-flipped v valid (ground arith));
        clean = λ i past. ground (arith, bit_at-flip_bits v i valid, num_bits-flip_bits v);
      }
]

-- `any` answers whether some bit is set.
any_words-of_bit :
    (words : List Word) (j q : ℕ) → bit (word_at words j) q ≡ true → any_words words ≡ true
unfolding any_words
any_words-of_bit [] j q h = cc
any_words-of_bit (w ∷ words) zero q h = rw (nonzero-of_bit w q h) refl
any_words-of_bit (w ∷ words) (suc j) q h = ground (arith, any_words-of_bit words j q h)

bit-of_any_words :
    (words : List Word) (j q : ℕ) → any_words words ≡ false → bit (word_at words j) q ≡ false
unfolding any_words
bit-of_any_words [] j q h = refl
bit-of_any_words (w ∷ words) zero q h = bit-of_nonzero w q (ground arith)
bit-of_any_words (w ∷ words) (suc j) q h = bit-of_any_words words j q (ground arith)

pub any-of_bit_at : (v : BitVector) (i : ℕ) → bit_at v i ≡ true → any v ≡ true
unfolding any
any-of_bit_at v i h = any_words-of_bit v.data_array (i / size_t_bits) (i % size_t_bits) h

pub bit_at-of_any : (v : BitVector) (i : ℕ) → any v ≡ false → bit_at v i ≡ false
unfolding any
bit_at-of_any v i h = bit-of_any_words v.data_array (i / size_t_bits) (i % size_t_bits) h
