-- ===== src/Utility/Word/Laws.antt =====
-- The bits of the word operations' results.
use quickstep_streaming.Prelude.{
  ℕ, zero, suc, ◌+◌, ◌-◌, ◌≤◌, ◌≡◌, refl, [], ◌∷◌, ◌++◌, true, false, not, ◌&&◌, ◌||◌, ltb, leb,
  if◌then◌else◌, length, replicate, drop, arith, length-append, length-replicate, length-take,
  length-drop, length-map, length-zip_with, get_or-append, get_or-take, get_or-drop,
  get_or-replicate, get_or-past,
}
use quickstep_streaming.Utility.Word.{
  Word, bit, word_zero, word_max, and_word, or_word, not_word, shl, shr, nonzero,
}

pub bit-word_zero : (n i : ℕ) → bit (word_zero n) i ≡ false
unfolding word_zero
bit-word_zero n i = get_or-replicate n i false

pub bit-word_max : (n i : ℕ) → bit (word_max n) i ≡ ltb i n
unfolding word_max
bit-word_max zero i = ground arith
bit-word_max (suc n) zero = ground arith
bit-word_max (suc n) (suc i) = ground (arith, bit-word_max n i)

pub bit-and_word :
    (x y : Word) (i : ℕ) → length x ≡ length y → bit (and_word x y) i ≡ (bit x i && bit y i)
unfolding and_word
bit-and_word [] [] i h = refl
bit-and_word [] (b ∷ y) i h = absurd (omega arith)
bit-and_word (a ∷ x) [] i h = absurd (omega arith)
bit-and_word (a ∷ x) (b ∷ y) zero h = refl
bit-and_word (a ∷ x) (b ∷ y) (suc i) h = bit-and_word x y i (omega arith)

pub bit-or_word :
    (x y : Word) (i : ℕ) → length x ≡ length y → bit (or_word x y) i ≡ (bit x i || bit y i)
unfolding or_word
bit-or_word [] [] i h = refl
bit-or_word [] (b ∷ y) i h = absurd (omega arith)
bit-or_word (a ∷ x) [] i h = absurd (omega arith)
bit-or_word (a ∷ x) (b ∷ y) zero h = refl
bit-or_word (a ∷ x) (b ∷ y) (suc i) h = bit-or_word x y i (omega arith)

pub bit-not_word : (x : Word) (i : ℕ) → bit (not_word x) i ≡ (ltb i (length x) && not (bit x i))
unfolding not_word
bit-not_word [] i = ground arith
bit-not_word (a ∷ x) zero = ground arith
bit-not_word (a ∷ x) (suc i) = ground (arith, bit-not_word x i)

pub bit-shl : (k : ℕ) (x : Word) (i : ℕ) → bit (shl k x) i ≡ bit x (k + i)
unfolding shl
bit-shl k x i = ground (
  arith,
  get_or-append (drop k x) (replicate k false) i false,
  get_or-drop k x i false,
  get_or-replicate k (i - length (drop k x)) false,
  length-drop k x,
  get_or-past x (k + i) false,
)

pub bit-shr :
    (k : ℕ) (x : Word) (i : ℕ)
    → bit (shr k x) i ≡ (if ltb i (length x) && leb k i then bit x (i - k) else false)
unfolding shr
bit-shr k x i = ground (
  arith,
  get_or-take (length x) (replicate k false ++ x) i false,
  get_or-append (replicate k false) x i false,
  get_or-replicate k i false,
  length-replicate k false,
)

pub length-word_zero : (n : ℕ) → length (word_zero n) ≡ n
unfolding word_zero
length-word_zero n = length-replicate n false

pub length-word_max : (n : ℕ) → length (word_max n) ≡ n
unfolding word_max
length-word_max n = length-replicate n true

pub length-and_word : (x y : Word) → length x ≡ length y → length (and_word x y) ≡ length x
unfolding and_word
length-and_word x y h = length-zip_with ◌&&◌ x y h

pub length-or_word : (x y : Word) → length x ≡ length y → length (or_word x y) ≡ length x
unfolding or_word
length-or_word x y h = length-zip_with ◌||◌ x y h

pub length-not_word : (x : Word) → length (not_word x) ≡ length x
unfolding not_word
length-not_word x = length-map not x

pub length-shl : (k : ℕ) (x : Word) → k ≤ length x → length (shl k x) ≡ length x
unfolding shl
length-shl k x h =
    omega (
      arith,
      length-append (drop k x) (replicate k false),
      length-drop k x,
      length-replicate k false,
    )

pub length-shr : (k : ℕ) (x : Word) → length (shr k x) ≡ length x
unfolding shr
length-shr k x =
    length-take (length x) (replicate k false ++ x)
      (omega (arith, length-append (replicate k false) x, length-replicate k false))

pub nonzero-of_bit : (x : Word) (i : ℕ) → bit x i ≡ true → nonzero x ≡ true
unfolding nonzero
nonzero-of_bit [] i h = cc
nonzero-of_bit (b ∷ x) zero h = ground arith
nonzero-of_bit (b ∷ x) (suc i) h = ground (arith, nonzero-of_bit x i)

pub bit-of_nonzero : (x : Word) (i : ℕ) → nonzero x ≡ false → bit x i ≡ false
unfolding nonzero
bit-of_nonzero [] i h = refl
bit-of_nonzero (b ∷ x) zero h = ground arith
bit-of_nonzero (b ∷ x) (suc i) h = ground (arith, bit-of_nonzero x i)
