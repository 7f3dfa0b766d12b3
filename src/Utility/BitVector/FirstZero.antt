-- ===== src/Utility/BitVector/FirstZero.antt =====
-- `firstZero` searches the complements of the words for their first 1.
pub mod Anywhere
use quickstep_streaming.Prelude.{
  ℕ, zero, suc, ◌+◌, ◌-◌, ◌*◌, ◌/◌, ◌%◌, ◌≤◌, ◌<◌, ◌≡◌, refl, sym, ap, ◌∙◌, List, [], ◌∷◌, Bool,
  true, false, not, ◌&&◌, ltb, leb, ◌==◌, if◌then◌else◌, length, drop, map, arith, inl, inr,
  Bool-cases, if_both, length-map, length-drop, get_or-map_lt, get_or-past,
}
use quickstep_streaming.Utility.Word.{
  Word, bit, word_max, or_word, not_word, shl, nonzero, leading_zero_count,
}
use quickstep_streaming.Utility.Word.Laws.{
  bit-word_max, bit-or_word, bit-not_word, bit-shl, length-word_max, length-or_word,
  length-not_word, length-shl, bit-of_nonzero,
}
use quickstep_streaming.Utility.Word.Counts.{
  first_set, first_set-lt, bit-first_set, bit_below-first_set,
}
use quickstep_streaming.Utility.BitVector.{
  size_t_bits, BitVector, word_at, array_size, first_one_words,
}
use quickstep_streaming.Utility.BitVector.Bits.{
  bit_at, AllWide, IsValid, element-lt, array_size_bounds,
}
use quickstep_streaming.Utility.BitVector.FirstOne.{
  Scan, absent, present, bit_of, first_one_words-Scan, bit_of-drop, AllWide-drop, leading_zero_word,
}

-- The loop of `firstZero` over the words from `array_idx` on, the rest of the array given.
unfoldable pub first_zero_words : ℕ → ℕ → List Word → ℕ
first_zero_words num_bits array_idx [] = num_bits
first_zero_words num_bits array_idx (w ∷ words) =
    let rest = first_zero_words num_bits (suc array_idx) words in
    let inverse = not_word w in
    if nonzero inverse then array_idx * size_t_bits + leading_zero_count inverse else rest

-- The complement of the word of `position`, without its bits before it.
abbrev pub zeros_of_word : BitVector → ℕ → Word
zeros_of_word v position = not_word (
    or_word (word_at v.data_array (position / size_t_bits))
      (shl (size_t_bits - position % size_t_bits) (word_max size_t_bits)))

unfoldable pub first_zero : BitVector → ℕ → ℕ
unfolding first_zero_words
first_zero v position =
    let element = position / size_t_bits in
    let lower = position % size_t_bits in
    let value = zeros_of_word v position in
    if v.num_bits == 0
    then 0
    else if lower == 0
    then first_zero_words v.num_bits element (drop element v.data_array)
    else if nonzero value
    then position - lower + leading_zero_count value
    else first_zero_words v.num_bits (suc element) (drop (suc element) v.data_array)

-- What a search for a 0 from `position` may answer.
pub record FindsZero (v : BitVector) (position r : ℕ) : Type 0 where
  pub from : position ≤ r
  pub upto : r ≤ v.num_bits
  pub skipped : (i : ℕ) → position ≤ i → i < r → bit_at v i ≡ true
  pub found : r < v.num_bits → bit_at v r ≡ false

-- The loop is that of `firstOne` on the complements.
pub first_zero_words-first_one_words :
    (n k : ℕ) (words : List Word)
    → first_zero_words n k words ≡ first_one_words n k (map not_word words)
unfolding first_zero_words first_one_words
first_zero_words-first_one_words n k [] = refl
first_zero_words-first_one_words n k (w ∷ words) =
    rw (first_zero_words-first_one_words n (suc k) words) refl

pub AllWide-map : (words : List Word) → AllWide words → AllWide (map not_word words)
AllWide-map words wide j h =
    let lt : j < length words = omega (arith, length-map not_word words) in
    ap length (get_or-map_lt not_word words j [] [] lt)
    ∙ length-not_word (word_at words j)
    ∙ wide j lt

-- The complement has the other bits, as far as there are words.
bit_of-map :
    (words : List Word) (i : ℕ)
    → AllWide words
    → i / size_t_bits < length words
    → bit_of (map not_word words) i ≡ not (bit_of words i)
bit_of-map words i wide h =
    ap (λ w. bit w (i % size_t_bits)) (get_or-map_lt not_word words (i / size_t_bits) [] [] h)
    ∙ ground (
      arith,
      bit-not_word (word_at words (i / size_t_bits)) (i % size_t_bits),
      wide (i / size_t_bits) h,
    )

bit_of-beyond :
    (words : List Word) (i : ℕ) → length words ≤ i / size_t_bits → bit_of words i ≡ false
bit_of-beyond words i h =
    ap (λ w. bit w (i % size_t_bits)) (get_or-past words (i / size_t_bits) [] h)

bit_of-lt : (words : List Word) (i : ℕ) → bit_of words i ≡ true → i / size_t_bits < length words
bit_of-lt words i h = elim (Bool-cases (ltb (i / size_t_bits) (length words))) [
  | inl e ↦ ground arith
  | inr e ↦
      let past : length words ≤ i / size_t_bits = ground arith in
      absurd (ground (arith, h, bit_of-beyond words i past))
]

module _ (v : BitVector) (k position : ℕ) (valid : IsValid v) (inside : position ≤ v.num_bits)
    (ahead : position ≤ k * size_t_bits)
    (gap : (i : ℕ) → position ≤ i → i < k * size_t_bits → bit_at v i ≡ true) where
  abbrev ahead_words : List Word
  ahead_words = drop k v.data_array

  -- A bit of the complements is that of the vector, the other way round.
  complement :
      (j : ℕ)
      → j / size_t_bits < length ahead_words
      → bit_of (map not_word ahead_words) j ≡ not (bit_at v (k * size_t_bits + j))
  complement j h =
      bit_of-map ahead_words j (AllWide-drop v.data_array k valid.wide) h
      ∙ ap not (bit_of-drop v.data_array k j)

  within :
      (i : ℕ)
      → k * size_t_bits ≤ i
      → i < v.num_bits
      → (i - k * size_t_bits) / size_t_bits < length ahead_words
  within i lo hi = omega (arith, element-lt v i valid hi, length-drop k v.data_array)

  -- A position is before the words searched, or one of theirs.
  ones_up_to :
      (i : ℕ)
      → position ≤ i
      → (k * size_t_bits ≤ i
          → ((i - k * size_t_bits) / size_t_bits < length ahead_words)
            × (bit_of (map not_word ahead_words) (i - k * size_t_bits) ≡ false))
      → bit_at v i ≡ true
  ones_up_to i lo h = elim (Bool-cases (ltb i (k * size_t_bits))) [
    | inl before ↦ gap i lo (ground arith)
    | inr after ↦
        let e : i ≡ k * size_t_bits + (i - k * size_t_bits) = ground arith in
        let (small, clear) = h (ground arith) in
        ap (bit_at v) e ∙ ground (arith, complement (i - k * size_t_bits) small, clear)
  ]

  -- The first bit behind the vector is a 0, so the search ends there at the latest.
  ends :
      (j : ℕ)
      → j / size_t_bits < length ahead_words
      → ((q : ℕ) → q < j → bit_of (map not_word ahead_words) q ≡ false)
      → k * size_t_bits + j ≤ v.num_bits
  ends j small below = elim (Bool-cases (leb (k * size_t_bits + j) v.num_bits)) [
    | inl e ↦ ground arith
    | inr e ↦
        let some_words = length-drop k v.data_array in
        let start : k * size_t_bits ≤ v.num_bits =
          omega (arith, valid.sized, array_size_bounds v.num_bits, small, some_words) in
        let q : ℕ = v.num_bits - k * size_t_bits in
        let before : q < j = ground arith in
        let here : k * size_t_bits + q ≡ v.num_bits = omega arith in
        let clean : bit_at v (k * size_t_bits + q) ≡ false =
          valid.clean (k * size_t_bits + q) (omega arith) in
        let flipped = complement q (omega arith) in
        absurd (ground (arith, flipped, below q before, clean))
  ]

  pub Scan-FindsZero :
      {r : ℕ} → Scan (map not_word ahead_words) v.num_bits k r → FindsZero v position r
  Scan-FindsZero (absent none_) = record {
    from = inside;
    upto = omega arith;
    skipped = λ i lo hi. ones_up_to i lo (λ past. (within i past hi, none_ (i - k * size_t_bits)));
    found = λ lt. absurd (omega arith);
  }
  Scan-FindsZero (present j set below) =
      let small : j / size_t_bits < length ahead_words =
        omega
          (arith, bit_of-lt (map not_word ahead_words) j set, length-map not_word ahead_words) in
      record {
        from = omega arith;
        upto = ends j small below;
        skipped = λ i lo hi.
            ones_up_to i lo (λ past. (omega arith, below (i - k * size_t_bits) (omega arith)));
        found = λ lt. ground (arith, complement j small, set);
      }
