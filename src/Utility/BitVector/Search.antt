-- ===== src/Utility/BitVector/Search.antt =====
-- `firstOne` from any position.
use quickstep_streaming.Prelude.{
  ℕ, suc, ◌+◌, ◌-◌, ◌*◌, ◌/◌, ◌%◌, ◌≤◌, ◌<◌, ◌≡◌, sym, ap, ◌∙◌, true, false, ◌&&◌, ltb, leb, ◌==◌,
  length, drop, arith, inl, inr, Bool-cases, if_both,
}
use quickstep_streaming.Utility.Word.{
  Word, bit, word_max, and_word, shr, nonzero, leading_zero_count,
}
use quickstep_streaming.Utility.Word.Laws.{
  bit-word_max, bit-and_word, bit-shr, length-word_max, length-and_word, length-shr, bit-of_nonzero,
}
use quickstep_streaming.Utility.Word.Counts.{
  first_set, first_set-lt, bit-first_set, bit_below-first_set,
}
use quickstep_streaming.Utility.BitVector.{
  size_t_bits, BitVector, word_at, first_one_words, first_one,
}
use quickstep_streaming.Utility.BitVector.Bits.{bit_at, IsValid, element-lt}
use quickstep_streaming.Utility.BitVector.FirstOne.{
  FindsFirst, Scan, absent, present, bit_of, first_one_words-Scan, bit_of-drop, AllWide-drop,
  leading_zero_word,
}

module _ (v : BitVector) (k position : ℕ) (valid : IsValid v) (inside : position ≤ v.num_bits)
    (ahead : position ≤ k * size_t_bits)
    (gap : (i : ℕ) → position ≤ i → i < k * size_t_bits → bit_at v i ≡ false) where
  -- A position is before the words searched, or one of theirs.
  beyond :
      (i : ℕ)
      → position ≤ i
      → (k * size_t_bits ≤ i → bit_of (drop k v.data_array) (i - k * size_t_bits) ≡ false)
      → bit_at v i ≡ false
  beyond i lo h = elim (Bool-cases (ltb i (k * size_t_bits))) [
    | inl before ↦ gap i lo (ground arith)
    | inr after ↦
        let e : i ≡ k * size_t_bits + (i - k * size_t_bits) = ground arith in
        ap (bit_of v.data_array) e
        ∙ sym (bit_of-drop v.data_array k (i - k * size_t_bits))
        ∙ h (ground arith)
  ]

  Scan-FindsFirst : {r : ℕ} → Scan (drop k v.data_array) v.num_bits k r → FindsFirst v position r
  Scan-FindsFirst (absent none_) = record {
    from = inside;
    upto = omega arith;
    skipped = λ i lo hi. beyond i lo (λ _. none_ (i - k * size_t_bits));
    found = λ lt. absurd (omega arith);
  }
  Scan-FindsFirst (present i set below) =
      let here : bit_at v (k * size_t_bits + i) ≡ true = sym (bit_of-drop v.data_array k i) ∙ set in
      record {
        from = omega arith;
        upto = ground (arith, valid.clean (k * size_t_bits + i));
        skipped = λ j lo hi. beyond j lo (λ past. below (j - k * size_t_bits) (omega arith));
        found = λ lt. here;
      }

  first_one_words-FindsFirst :
      FindsFirst v position (first_one_words v.num_bits k (drop k v.data_array))
  first_one_words-FindsFirst = Scan-FindsFirst (
      first_one_words-Scan v.num_bits k (drop k v.data_array)
        (AllWide-drop v.data_array k valid.wide))

-- The word that `first_one` masks when it starts part-way into it.
abbrev rest_of_word : BitVector → ℕ → Word
rest_of_word v position =
    and_word (word_at v.data_array (position / size_t_bits))
      (shr (position % size_t_bits) (word_max size_t_bits))

module _ (v : BitVector) (position : ℕ) (valid : IsValid v) (inside : position < v.num_bits) where
  whole : length (word_at v.data_array (position / size_t_bits)) ≡ size_t_bits
  whole = valid.wide (position / size_t_bits) (element-lt v position valid inside)

  length-rest_of_word : length (rest_of_word v position) ≡ size_t_bits
  length-rest_of_word =
      length-and_word (word_at v.data_array (position / size_t_bits))
        (shr (position % size_t_bits) (word_max size_t_bits))
        (omega (
          arith,
          whole,
          length-shr (position % size_t_bits) (word_max size_t_bits),
          length-word_max size_t_bits,
        ))
      ∙ whole

  bit-rest_of_word :
      (q : ℕ)
      → q < size_t_bits
      → bit (rest_of_word v position) q
        ≡ (leb (position % size_t_bits) q && bit (word_at v.data_array (position / size_t_bits)) q)
  bit-rest_of_word q h = ground (
    arith,
    bit-and_word (word_at v.data_array (position / size_t_bits))
        (shr (position % size_t_bits) (word_max size_t_bits)) q,
    bit-shr (position % size_t_bits) (word_max size_t_bits) q,
    bit-word_max size_t_bits (q - position % size_t_bits),
    length-shr (position % size_t_bits) (word_max size_t_bits),
    length-word_max size_t_bits,
    whole,
  )

  -- The bits of the vector in the word of `position`, from there on.
  bit_at-rest_of_word :
      (i : ℕ)
      → position ≤ i
      → i / size_t_bits ≡ position / size_t_bits
      → bit_at v i ≡ bit (rest_of_word v position) (i % size_t_bits)
  bit_at-rest_of_word i lo same = rw same (ground (arith, bit-rest_of_word (i % size_t_bits)))

  found_in_word :
      nonzero (rest_of_word v position) ≡ true
      → FindsFirst v position
          (position - position % size_t_bits + leading_zero_count (rest_of_word v position))
  found_in_word some_ =
      let w = rest_of_word v position in
      let place : ℕ = first_set w in
      let small : place < size_t_bits = omega (arith, first_set-lt w some_, length-rest_of_word) in
      let set : bit w place ≡ true = bit-first_set w some_ in
      let lower : position % size_t_bits ≤ place = ground (arith, bit-rest_of_word place small) in
      let r : ℕ = position - position % size_t_bits + place in
      let here : bit_at v r ≡ true =
        bit_at-rest_of_word r (omega arith) (omega arith) ∙ ap (bit w) (omega arith) ∙ set in
      rw (leading_zero_word w length-rest_of_word some_) (record {
        from = omega arith;
        upto = ground (arith, valid.clean r);
        skipped = λ i lo hi.
            bit_at-rest_of_word i lo (omega arith)
            ∙ bit_below-first_set w (i % size_t_bits) (omega arith);
        found = λ lt. here;
      })

  first_one_inside : FindsFirst v position (first_one v position)
  unfolding first_one
  first_one_inside =
      if_both (FindsFirst v position) (v.num_bits == 0) _ _ (λ e. absurd (ground arith))
        λ _.
          if_both (FindsFirst v position) (position % size_t_bits == 0) _ _
            (λ aligned.
              first_one_words-FindsFirst v (position / size_t_bits) position valid (omega arith)
                (ground arith) (λ i lo hi. absurd (ground arith)))
            λ _.
              if_both (FindsFirst v position) (nonzero (rest_of_word v position)) _ _ found_in_word
                λ none_.
                  first_one_words-FindsFirst v (suc (position / size_t_bits)) position valid
                    (omega arith) (omega arith)
                    (λ i lo hi.
                      bit_at-rest_of_word i lo (omega arith)
                      ∙ bit-of_nonzero (rest_of_word v position) (i % size_t_bits) none_)

-- In a well-formed vector, from a position inside it, `first_one` answers the first position whose
-- bit is set, or the size if there is none.
pub first_one-FindsFirst :
    (v : BitVector) (position : ℕ)
    → IsValid v
    → position < v.num_bits
    → FindsFirst v position (first_one v position)
first_one-FindsFirst v position valid h = first_one_inside v position valid h

pub first_one_empty : (v : BitVector) (position : ℕ) → v.num_bits ≡ 0 → first_one v position ≡ 0
unfolding first_one
first_one_empty v position h = ground arith
