-- ===== src/Utility/BitVector/FirstZero/Anywhere.antt =====
-- `firstZero` from any position.
use quickstep_streaming.Prelude.{
  ℕ, suc, ◌+◌, ◌-◌, ◌*◌, ◌/◌, ◌%◌, ◌≤◌, ◌<◌, ◌≡◌, sym, ap, ◌∙◌, true, false, not, ◌&&◌, leb, ◌==◌,
  length, drop, map, arith, inl, inr, Bool-cases, if_both, subst,
}
use quickstep_streaming.Utility.Word.{
  Word, bit, word_max, or_word, not_word, shl, nonzero, leading_zero_count,
}
use quickstep_streaming.Utility.Word.Laws.{
  bit-word_max, bit-or_word, bit-not_word, bit-shl, length-word_max, length-or_word,
  length-not_word, length-shl, bit-of_nonzero,
}
use quickstep_streaming.Utility.Word.Counts.{
  first_set, first_set-lt, bit-first_set, bit_below-first_set,
}
use quickstep_streaming.Utility.BitVector.{size_t_bits, BitVector, word_at}
use quickstep_streaming.Utility.BitVector.Bits.{bit_at, IsValid, element-lt}
use quickstep_streaming.Utility.BitVector.FirstOne.{
  first_one_words-Scan, AllWide-drop, leading_zero_word,
}
use quickstep_streaming.Utility.BitVector.FirstZero.{
  first_zero, first_zero_words, zeros_of_word, FindsZero, first_zero_words-first_one_words,
  AllWide-map, Scan-FindsZero,
}

module _ (v : BitVector) (k position : ℕ) (valid : IsValid v) (inside : position ≤ v.num_bits)
    (ahead : position ≤ k * size_t_bits)
    (gap : (i : ℕ) → position ≤ i → i < k * size_t_bits → bit_at v i ≡ true) where
  first_zero_words-FindsZero :
      FindsZero v position (first_zero_words v.num_bits k (drop k v.data_array))
  first_zero_words-FindsZero =
      subst (FindsZero v position)
        (sym (first_zero_words-first_one_words v.num_bits k (drop k v.data_array)))
        (Scan-FindsZero v k position valid inside ahead gap (
          first_one_words-Scan v.num_bits k (map not_word (drop k v.data_array))
            (AllWide-map (drop k v.data_array) (AllWide-drop v.data_array k valid.wide))))

module _ (v : BitVector) (position : ℕ) (valid : IsValid v) (inside : position < v.num_bits) where
  abbrev mask : Word
  mask = shl (size_t_bits - position % size_t_bits) (word_max size_t_bits)

  abbrev here_word : Word
  here_word = word_at v.data_array (position / size_t_bits)

  whole : length here_word ≡ size_t_bits
  whole = valid.wide (position / size_t_bits) (element-lt v position valid inside)

  length-mask : length mask ≡ size_t_bits
  length-mask = omega (
    arith,
    length-word_max size_t_bits,
    length-shl (size_t_bits - position % size_t_bits) (word_max size_t_bits)
        (omega (arith, length-word_max size_t_bits)),
  )

  length-zeros_of_word : length (zeros_of_word v position) ≡ size_t_bits
  length-zeros_of_word =
      length-not_word (or_word here_word mask)
      ∙ length-or_word here_word mask (whole ∙ sym length-mask)
      ∙ whole

  bit-zeros_of_word :
      (q : ℕ)
      → q < size_t_bits
      → bit (zeros_of_word v position) q ≡ (leb (position % size_t_bits) q && not (bit here_word q))
  bit-zeros_of_word q h = ground (
    arith,
    bit-not_word (or_word here_word mask) q,
    length-or_word here_word mask (whole ∙ sym length-mask),
    bit-or_word here_word mask q (whole ∙ sym length-mask),
    bit-shl (size_t_bits - position % size_t_bits) (word_max size_t_bits) q,
    bit-word_max size_t_bits (size_t_bits - position % size_t_bits + q),
    whole,
  )

  -- The bits of the vector in the word of `position`, from there on.
  bit_at-zeros_of_word :
      (i : ℕ)
      → position ≤ i
      → i / size_t_bits ≡ position / size_t_bits
      → not (bit_at v i) ≡ bit (zeros_of_word v position) (i % size_t_bits)
  bit_at-zeros_of_word i lo same = rw same (ground (arith, bit-zeros_of_word (i % size_t_bits)))

  one_at :
      (i : ℕ)
      → position ≤ i
      → i / size_t_bits ≡ position / size_t_bits
      → bit (zeros_of_word v position) (i % size_t_bits) ≡ false
      → bit_at v i ≡ true
  one_at i lo same clear = ground (arith, bit_at-zeros_of_word i lo same)

  zero_in_word :
      nonzero (zeros_of_word v position) ≡ true
      → FindsZero v position
          (position - position % size_t_bits + leading_zero_count (zeros_of_word v position))
  zero_in_word some_ =
      let w = zeros_of_word v position in
      let place : ℕ = first_set w in
      let small : place < size_t_bits = omega (arith, first_set-lt w some_, length-zeros_of_word) in
      let set : bit w place ≡ true = bit-first_set w some_ in
      let lower : position % size_t_bits ≤ place = ground (arith, bit-zeros_of_word place small) in
      let r : ℕ = position - position % size_t_bits + place in
      let at : bit w (r % size_t_bits) ≡ true = ap (bit w) (omega arith) ∙ set in
      let here : not (bit_at v r) ≡ true =
        bit_at-zeros_of_word r (omega arith) (omega arith) ∙ at in
      let skip = λ (i : ℕ) (lo : position ≤ i) (hi : i < r).
        one_at i lo (omega arith) (bit_below-first_set w (i % size_t_bits) (omega arith)) in
      rw (leading_zero_word w length-zeros_of_word some_) (record {
        from = omega arith;
        upto = elim (Bool-cases (leb r v.num_bits)) [
          | inl e ↦ ground arith
          | inr e ↦ absurd (
              ground (
                arith,
                skip v.num_bits (omega arith) (ground arith),
                valid.clean v.num_bits (omega arith),
              ))
        ];
        skipped = skip;
        found = λ lt. ground (arith, here);
      })

  -- In a well-formed vector, from a position inside it, `first_zero` answers the first position
  -- whose bit is not set, or the size if there is none.
  pub first_zero-FindsZero : FindsZero v position (first_zero v position)
  unfolding first_zero
  first_zero-FindsZero =
      if_both (FindsZero v position) (v.num_bits == 0) _ _ (λ e. absurd (ground arith))
        λ _.
          if_both (FindsZero v position) (position % size_t_bits == 0) _ _
            (λ aligned.
              first_zero_words-FindsZero v (position / size_t_bits) position valid (omega arith)
                (ground arith) (λ i lo hi. absurd (ground arith)))
            λ _.
              if_both (FindsZero v position) (nonzero (zeros_of_word v position)) _ _ zero_in_word
                λ none_.
                  first_zero_words-FindsZero v (suc (position / size_t_bits)) position valid
                    (omega arith) (omega arith)
                    (λ i lo hi.
                      one_at i lo (omega arith)
                        (bit-of_nonzero (zeros_of_word v position) (i % size_t_bits) none_))
