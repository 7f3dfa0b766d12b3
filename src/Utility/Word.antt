-- ===== src/Utility/Word.antt =====
-- Machine words, for utility/BitVector.hpp and utility/BitManipulation.hpp. A word is the list of
-- its bits, the most significant first; a shift keeps the width.
pub mod Laws
pub mod Masks
pub mod Counts
use quickstep_streaming.Prelude.{
  ℕ, zero, suc, ◌+◌, ◌-◌, List, [], ◌∷◌, ◌++◌, map, Bool, true, false, not, ◌&&◌, ◌||◌, ltb,
  if◌then◌else◌, length, replicate, take, drop, zip_with, get_or,
}

abbrev pub Word : Type 0
Word = List Bool

-- Bit `i` from the top; past the width it is 0.
abbrev pub bit : Word → ℕ → Bool
bit w i = get_or w i false

unfoldable pub word_zero : ℕ → Word
word_zero n = replicate n false

-- `std::numeric_limits<WordType>::max()`
unfoldable pub word_max : ℕ → Word
word_max n = replicate n true

unfoldable pub and_word : Word → Word → Word
and_word = zip_with ◌&&◌

unfoldable pub or_word : Word → Word → Word
or_word = zip_with ◌||◌

unfoldable pub not_word : Word → Word
not_word = map not

-- `w << k` and `w >> k`, for k at most the width.
unfoldable pub shl : ℕ → Word → Word
shl k w = drop k w ++ replicate k false

unfoldable pub shr : ℕ → Word → Word
shr k w = take (length w) (replicate k false ++ w)

-- A word as a condition: is it not 0?
unfoldable pub nonzero : Word → Bool
nonzero [] = false
nonzero (b ∷ w) = b || nonzero w

-- `static_cast<WordType>(0x1)`
word_one : ℕ → Word
word_one n = replicate (n - 1) false ++ true ∷ []

unfoldable pub top_bit : ℕ → Word
unfolding word_one shl
top_bit n = shl (n - 1) (word_one n)

mask_of : ℕ → ℕ → ℕ → Word
unfolding shl shr word_max word_zero
mask_of n start zero = word_zero n
mask_of n start (suc c) = shr start (shl (n - suc c) (word_max n))

-- The mask with ones from `start` up to `start + count`, at width `n`.
unfoldable pub mask_bit_range : ℕ → ℕ → ℕ → Word
unfolding mask_of
mask_bit_range n start count = mask_of n start (if ltb n count then n else count)

-- Flip the first `count` bits and clear the others; `count = 0` flips all.
unfoldable pub flip_limited_bits : ℕ → Word → Word
unfolding not_word and_word shl word_max
flip_limited_bits count w = elim count [
  | zero ↦ not_word w
  | suc c ↦ and_word (not_word w) (shl (length w - suc c) (word_max (length w)))
]

-- `while (!(word & maxone)) { ++count; word <<= 1; }`, with fuel.
leading_zero_loop : ℕ → ℕ → Word → ℕ
unfolding nonzero and_word top_bit shl
leading_zero_loop zero count w = count
leading_zero_loop (suc fuel) count w =
    let rest = leading_zero_loop fuel (count + 1) (shl 1 w) in
    if nonzero (and_word w (top_bit (length w))) then count else rest

unfoldable pub leading_zero_count : Word → ℕ
unfolding leading_zero_loop
leading_zero_count w = if nonzero w then leading_zero_loop (length w) 0 w else length w

-- `while (word) { if (word & 1) ++count; word >>= 1; }`: the bits from the last to the first.
unfoldable pub population_count : Word → ℕ
population_count [] = 0
population_count (b ∷ w) = population_count w + (if b then 1 else 0)
