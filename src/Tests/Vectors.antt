-- ===== src/Tests/Vectors.antt =====
-- Small bit vectors.
use quickstep_streaming.Prelude.{
  ℕ, ◌<◌, ◌≡◌, ◌+◌, refl, [], ◌∷◌, true, false, ◌&&◌, ltb, leb, if◌then◌else◌, arith,
}
use quickstep_streaming.Utility.Word.{
  not_word, Word, and_word, shl, or_word, word_zero, word_max, shr, top_bit, leading_zero_count,
  nonzero,
}
use quickstep_streaming.Utility.BitVector.{
  BitVector, make, get_bit, set_bit, set_bit_range, first_one, first_one_words, num_bits-make,
  array_size,
}
use quickstep_streaming.Utility.BitVector.Bits.{bit_at, IsValid, make-IsValid, set_bit-IsValid}
use quickstep_streaming.Utility.BitVector.SetRange.{bit_at-set_bit_range}
use quickstep_streaming.Utility.BitVector.FirstOne.{FindsFirst}
use quickstep_streaming.Utility.BitVector.FirstZero.{FindsZero, first_zero, first_zero_words}
use quickstep_streaming.Utility.BitVector.FirstZero.Anywhere.{first_zero-FindsZero}
use quickstep_streaming.Utility.BitVector.Search.{first_one-FindsFirst}

abbrev five_bits : BitVector
five_bits = make 5

in_five : (i : ℕ) → i < 5 → i < five_bits.num_bits
in_five i lt = omega (arith, num_bits-make 5)

five_bits-IsValid : IsValid five_bits
five_bits-IsValid = make-IsValid 5

abbrev third : BitVector
third = set_bit five_bits 2 true

third-IsValid : IsValid third
third-IsValid = set_bit-IsValid five_bits 2 true five_bits-IsValid (in_five 2 (omega arith))

third-size : third.num_bits ≡ 5
unfolding set_bit make
third-size = refl

get_third : get_bit third 2 ≡ true
unfolding get_bit set_bit make array_size nonzero and_word shl or_word word_zero shr top_bit
get_third = refl

bit_at-set_bit_range_example :
    bit_at (set_bit_range third 1 4 true) 3
    ≡ (if leb 1 3 && ltb 3 (1 + 4) then true else bit_at third 3)
bit_at-set_bit_range_example =
    bit_at-set_bit_range third 1 4 true third-IsValid (omega (arith, third-size)) 3

same_sizes : third.num_bits ≡ five_bits.num_bits
unfolding set_bit make
same_sizes = refl

first_one-FindsFirst_example : FindsFirst third 1 (first_one third 1)
first_one-FindsFirst_example =
    first_one-FindsFirst third 1 third-IsValid (omega (arith, third-size))

first_one_of_third : first_one third 1 ≡ 2
unfolding first_one first_one_words set_bit make array_size nonzero and_word shl or_word word_zero
    word_max shr top_bit leading_zero_count
first_one_of_third = refl

first_zero-FindsZero_example : FindsZero third 2 (first_zero third 2)
first_zero-FindsZero_example =
    first_zero-FindsZero third 2 third-IsValid (omega (arith, third-size))

first_zero_of_third : first_zero third 2 ≡ 3
unfolding first_zero first_zero_words set_bit make array_size nonzero and_word shl or_word word_zero
    word_max shr top_bit leading_zero_count not_word
first_zero_of_third = refl

abbrev small_word : Word
small_word = false ∷ false ∷ true ∷ false ∷ []
