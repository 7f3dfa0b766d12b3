-- ===== src/Utility/BitVector/FirstOne.antt =====
-- `firstOne` searches word by word; it finds the first bit set from a position on.
use quickstep_streaming.Prelude.{
  ℕ, zero, suc, ◌+◌, ◌-◌, ◌*◌, ◌/◌, ◌%◌, ◌≤◌, ◌<◌, ◌≡◌, refl, ap, ◌∙◌, List, [], ◌∷◌, Bool, true,
  false, ltb, if◌then◌else◌, length, drop, arith, inl, inr, get_or-drop, length-drop, Bool-cases,
}
use quickstep_streaming.Utility.Word.{Word, bit, nonzero, leading_zero_count}
use quickstep_streaming.Utility.Word.Laws.{bit-of_nonzero}
use quickstep_streaming.Utility.Word.Counts.{
  first_set, first_set-lt, bit-first_set, bit_below-first_set, leading_zero_count-first_set,
}
use quickstep_streaming.Utility.BitVector.{size_t_bits, BitVector, word_at, first_one_words}
use quickstep_streaming.Utility.BitVector.Bits.{bit_at, AllWide}

-- What a search from `position` may answer.
pub record FindsFirst (v : BitVector) (position r : ℕ) : Type 0 where
  pub from : position ≤ r
  pub upto : r ≤ v.num_bits
  pub skipped : (i : ℕ) → position ≤ i → i < r → bit_at v i ≡ false
  pub found : r < v.num_bits → bit_at v r ≡ true

-- The bit of an array of words at a position.
abbrev pub bit_of : List Word → ℕ → Bool
bit_of words i = bit (word_at words (i / size_t_bits)) (i % size_t_bits)

pub data Scan (words : List Word) (num_bits base : ℕ) : ℕ → Type 0 where
  absent : ((i : ℕ) → bit_of words i ≡ false) → Scan words num_bits base num_bits
  present :
      (i : ℕ)
      → bit_of words i ≡ true
      → ((j : ℕ) → j < i → bit_of words j ≡ false)
      → Scan words num_bits base (base * size_t_bits + i)

pub leading_zero_word :
    (w : Word) → length w ≡ size_t_bits → nonzero w ≡ true → leading_zero_count w ≡ first_set w
leading_zero_word w l h = leading_zero_count-first_set w 63 l ∙ rw h refl

pub bit_of-suc :
    (w : Word) (words : List Word) (i : ℕ) → bit_of (w ∷ words) (size_t_bits + i) ≡ bit_of words i
bit_of-suc w words i =
    let e : (size_t_bits + i) / size_t_bits ≡ suc (i / size_t_bits) = omega arith in
    let f : (size_t_bits + i) % size_t_bits ≡ i % size_t_bits = omega arith in rw (e, f) refl

pub bit_of-head :
    (w : Word) (words : List Word) (i : ℕ) → i < size_t_bits → bit_of (w ∷ words) i ≡ bit w i
bit_of-head w words i h =
    let e : i / size_t_bits ≡ zero = omega arith in
    let f : i % size_t_bits ≡ i = omega arith in rw (e, f) refl

-- Below a word of zeros the search goes on one word further.
bit_of-skip :
    (w : Word) (words : List Word) (i : ℕ)
    → nonzero w ≡ false
    → bit_of (w ∷ words) i ≡ (if ltb i size_t_bits then false else bit_of words (i - size_t_bits))
bit_of-skip w words i h = elim (Bool-cases (ltb i size_t_bits)) [
  | inl below ↦ rw below (bit_of-head w words i (ground arith) ∙ bit-of_nonzero w i h)
  | inr above ↦
      let e : i ≡ size_t_bits + (i - size_t_bits) = ground arith in
      rw above (ap (bit_of (w ∷ words)) e ∙ bit_of-suc w words (i - size_t_bits))
]

Scan-skip :
    (w : Word) (words : List Word) (num_bits base : ℕ) {r : ℕ}
    → nonzero w ≡ false
    → Scan words num_bits (suc base) r
    → Scan (w ∷ words) num_bits base r
Scan-skip w words num_bits base h (absent none_) =
    absent (λ i. ground (arith, bit_of-skip w words i h, none_ (i - size_t_bits)))
Scan-skip w words num_bits base h (present i set below) =
    let e : suc base * size_t_bits + i ≡ base * size_t_bits + (size_t_bits + i) = omega arith in
    rw e (
      present (size_t_bits + i) (bit_of-suc w words i ∙ set)
        (λ j lt. ground (arith, bit_of-skip w words j h, below (j - size_t_bits))))

pub first_one_words-Scan :
    (num_bits base : ℕ) (words : List Word)
    → AllWide words
    → Scan words num_bits base (first_one_words num_bits base words)
unfolding first_one_words
first_one_words-Scan num_bits base [] wide = absent (λ i. refl)
first_one_words-Scan num_bits base (w ∷ words) wide =
    let l : length w ≡ size_t_bits = wide 0 (omega arith) in
    let rest = first_one_words-Scan num_bits (suc base) words (λ j h. wide (suc j) (omega arith)) in
    elim (Bool-cases (nonzero w)) [
      | inl some_ ↦
          let small : first_set w < size_t_bits = omega (arith, first_set-lt w some_) in
          rw (some_, leading_zero_word w l some_)
            (present (first_set w) (bit_of-head w words (first_set w) small ∙ bit-first_set w some_)
              (λ j lt. bit_of-head w words j (omega arith) ∙ bit_below-first_set w j lt))
      | inr none_ ↦ rw none_ (Scan-skip w words num_bits base none_ rest)
    ]

-- A search of the rest of the array answers for the positions from there on.
pub bit_of-drop :
    (words : List Word) (k i : ℕ) → bit_of (drop k words) i ≡ bit_of words (k * size_t_bits + i)
bit_of-drop words k i =
    let e : (k * size_t_bits + i) / size_t_bits ≡ k + i / size_t_bits = omega arith in
    let f : (k * size_t_bits + i) % size_t_bits ≡ i % size_t_bits = omega arith in
    rw (e, f) (ap (λ w. bit w (i % size_t_bits)) (get_or-drop k words (i / size_t_bits) []))

pub AllWide-drop : (words : List Word) (k : ℕ) → AllWide words → AllWide (drop k words)
AllWide-drop words k wide j h =
    ap length (get_or-drop k words j []) ∙ wide (k + j) (omega (arith, length-drop k words))
