-- ===== src/Utility/BitVector/SetRange.antt =====
-- What `setBitRange` writes, and which words it touches.
use quickstep_streaming.Prelude.{
  ℕ, ◌+◌, ◌-◌, ◌/◌, ◌%◌, ◌≤◌, ◌≡◌, refl, ◌∙◌, List, Bool, ◌&&◌, ltb, leb, ◌==◌, if◌then◌else◌,
  length, modify, arith, length-modify, if_both,
}
use quickstep_streaming.Utility.Word.{mask_bit_range}
use quickstep_streaming.Utility.BitVector.{
  size_t_bits, BitVector, array_size, write_mask, set_bit_range,
}
use quickstep_streaming.Utility.BitVector.Bits.{bit_at, AllWide, IsValid, array_size_bounds}
use quickstep_streaming.Utility.BitVector.Range.{
  bit-write_word, AllWide-write_word, bit-set_whole_words, AllWide-set_whole_words,
  length-set_whole_words,
}

pub num_bits-set_bit_range :
    (v : BitVector) (start range : ℕ) (value : Bool)
    → (set_bit_range v start range value).num_bits ≡ v.num_bits
unfolding set_bit_range
num_bits-set_bit_range v start range value = refl

module _ (v : BitVector) (start range : ℕ) (value : Bool) (valid : IsValid v)
    (fits : start + range ≤ v.num_bits) where
  first_part : List (List Bool)
  first_part =
      modify v.data_array (start / size_t_bits)
        (write_mask value (mask_bit_range size_t_bits (start % size_t_bits) range))

  -- In a well-formed vector, for a range within its size, `set_bit_range` writes the bits from
  -- `start` up to `start + range`, and no others.
  pub bit_at-set_bit_range :
      (i : ℕ)
      → bit_at (set_bit_range v start range value) i
        ≡ (if leb start i && ltb i (start + range) then value else bit_at v i)
  unfolding set_bit_range first_part
  bit_at-set_bit_range i = ground (
    arith,
    bit-set_whole_words value (start / size_t_bits) range v.data_array i valid.wide,
    bit-set_whole_words value (start / size_t_bits + 1) (range + start % size_t_bits - size_t_bits)
        first_part i
        (AllWide-write_word v.data_array (start / size_t_bits) (start % size_t_bits) range value
          valid.wide),
    bit-write_word v.data_array (start / size_t_bits) i (start % size_t_bits) range value
        valid.wide,
    length-modify v.data_array (start / size_t_bits)
        (write_mask value (mask_bit_range size_t_bits (start % size_t_bits) range)),
    valid.sized,
    array_size_bounds v.num_bits,
  )

  Good : List (List Bool) → Type 0
  Good words = (length words ≡ array_size v.num_bits) × AllWide words

  set_bit_range-Good : Good (set_bit_range v start range value).data_array
  unfolding set_bit_range Good first_part
  set_bit_range-Good =
      if_both Good (start % size_t_bits == 0) _ _
        (λ aligned. (
          length-set_whole_words value (start / size_t_bits) range v.data_array ∙ valid.sized,
          AllWide-set_whole_words value (start / size_t_bits) range v.data_array valid.wide
              (ground (arith, valid.sized, array_size_bounds v.num_bits)),
        ))
        (λ inside.
          if_both Good (leb (range + start % size_t_bits) size_t_bits) _ _
            (λ short. (first_sized, first_wide))
            (λ long. (
              length-set_whole_words value (start / size_t_bits + 1)
                    (range + start % size_t_bits - size_t_bits) first_part
                  ∙ first_sized,
              AllWide-set_whole_words value (start / size_t_bits + 1)
                  (range + start % size_t_bits - size_t_bits) first_part first_wide
                  (ground (arith, first_sized, array_size_bounds v.num_bits)),
            )))
    where
      first_sized : length first_part ≡ array_size v.num_bits
      first_sized =
          length-modify v.data_array (start / size_t_bits)
            (write_mask value (mask_bit_range size_t_bits (start % size_t_bits) range))
          ∙ valid.sized

      first_wide : AllWide first_part
      first_wide =
          AllWide-write_word v.data_array (start / size_t_bits) (start % size_t_bits) range value
            valid.wide

  -- For a range within the size of a well-formed vector `set_bit_range` gives a well-formed vector:
  -- the array keeps its size, the words their width, and the bits past the end stay 0.
  pub set_bit_range-IsValid : IsValid (set_bit_range v start range value)
  set_bit_range-IsValid = record {
    sized = unfold Good set_bit_range in set_bit_range-Good.0;
    wide = unfold Good set_bit_range in set_bit_range-Good.1;
    clean = λ i past.
        let kept : v.num_bits ≤ i = unfold set_bit_range in past in
        ground (arith, bit_at-set_bit_range i, valid.clean i kept);
  }
