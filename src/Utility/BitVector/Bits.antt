-- ===== src/Utility/BitVector/Bits.antt =====
-- The bit vector as a sequence of bits: its well-formed states, and single bits read and written.
use quickstep_streaming.Prelude.{
  ℕ, zero, suc, ◌+◌, ◌-◌, ◌*◌, ◌/◌, ◌%◌, ◌≤◌, ◌<◌, ◌≡◌, refl, ap, ◌∙◌, List, [], Bool, true, false,
  ◌==◌, if◌then◌else◌, length, replicate, modify, arith, inl, inr, length-replicate, length-modify,
  get_or-modify_other, get_or-modify_self, get_or-replicate_lt, Bool-cases,
}
use quickstep_streaming.Utility.Word.{
  Word, bit, word_zero, and_word, or_word, not_word, shl, shr, top_bit,
}
use quickstep_streaming.Utility.Word.Laws.{
  bit-word_zero, bit-and_word, bit-or_word, bit-not_word, bit-shl, bit-shr, length-word_zero,
  length-and_word, length-or_word, length-not_word, length-shl, length-shr,
}
use quickstep_streaming.Utility.Word.Masks.{nonzero-top_bit, bit-top_bit, length-top_bit}
use quickstep_streaming.Utility.BitVector.{
  size_t_bits, BitVector, array_size, word_at, make, get_bit, set_bit,
}

abbrev pub bit_at : BitVector → ℕ → Bool
bit_at v i = bit (word_at v.data_array (i / size_t_bits)) (i % size_t_bits)

abbrev pub AllWide : List Word → Type 0
AllWide words = (j : ℕ) → j < length words → length (word_at words j) ≡ size_t_bits

-- The array has just the words that the bits need, and the bits past the end are 0.
pub record IsValid (v : BitVector) : Type 0 where
  pub sized : length v.data_array ≡ array_size v.num_bits
  pub wide : AllWide v.data_array
  pub clean : (i : ℕ) → v.num_bits ≤ i → bit_at v i ≡ false

pub array_size_bounds :
    (n : ℕ) → (n ≤ array_size n * size_t_bits) × (array_size n * size_t_bits < n + size_t_bits)
unfolding array_size
array_size_bounds n = ground arith

-- A bit in range lies in a word of the array.
pub element-lt :
    (v : BitVector) (i : ℕ) → IsValid v → i < v.num_bits → i / size_t_bits < length v.data_array
element-lt v i valid h = omega (arith, valid.sized, array_size_bounds v.num_bits)

pub word_at-modify :
    (words : List Word) (k j : ℕ) (f : Word → Word)
    → k < length words
    → word_at (modify words k f) j ≡ (if j == k then f (word_at words j) else word_at words j)
word_at-modify words k j f h = elim (Bool-cases (j == k)) [
  | inl same ↦ let e : j ≡ k = ground arith in rw (same, e) (get_or-modify_self words k f [] h)
  | inr other ↦ rw other (get_or-modify_other words k j f [] (λ e. ground arith))
]

pub AllWide-modify :
    (words : List Word) (k : ℕ) (f : Word → Word)
    → AllWide words
    → ((w : Word) → length w ≡ size_t_bits → length (f w) ≡ size_t_bits)
    → k < length words
    → AllWide (modify words k f)
AllWide-modify words k f wide keeps h j lt =
    let in_range : j < length words = omega (arith, length-modify words k f) in
    rw (word_at-modify words k j f h) (wide_if j in_range (j == k))
  where
    wide_if :
        (j : ℕ)
        → j < length words
        → (b : Bool) → length (if b then f (word_at words j) else word_at words j) ≡ size_t_bits
    wide_if j lt true = keeps (word_at words j) (wide j lt)
    wide_if j lt false = wide j lt

-- A new vector is well formed and holds zeros.
pub bit_at-make : (n i : ℕ) → bit_at (make n) i ≡ false
unfolding make
bit_at-make n i = zeros (array_size n) (i / size_t_bits)
  where
    zeros :
        (k j : ℕ) → bit (word_at (replicate k (word_zero size_t_bits)) j) (i % size_t_bits) ≡ false
    zeros zero j = refl
    zeros (suc k) zero = bit-word_zero size_t_bits (i % size_t_bits)
    zeros (suc k) (suc j) = zeros k j

pub make-IsValid : (n : ℕ) → IsValid (make n)
unfolding make
make-IsValid n = record {
  sized = length-replicate (array_size n) (word_zero size_t_bits);
  wide = λ j lt.
      ap length (
        get_or-replicate_lt (array_size n) j (word_zero size_t_bits) []
          (omega (arith, length-replicate (array_size n) (word_zero size_t_bits))))
      ∙ length-word_zero size_t_bits;
  clean = λ i h. bit_at-make n i;
}

-- At a position inside a well-formed vector `get_bit`, with its shift and its mask, reads the bit
-- at that position of the vector as a sequence of bits.
pub get_bit-bit_at : (v : BitVector) (i : ℕ) → IsValid v → i < v.num_bits → get_bit v i ≡ bit_at v i
unfolding get_bit
get_bit-bit_at v i valid h =
    let w = word_at v.data_array (i / size_t_bits) in
    let wide : length w ≡ size_t_bits = valid.wide (i / size_t_bits) (element-lt v i valid h) in
    nonzero-top_bit (shl (i % size_t_bits) w) 63 (omega (arith, length-shl (i % size_t_bits) w))
    ∙ bit-shl (i % size_t_bits) w 0
    ∙ ap (bit w) (omega arith)

-- After a change of word `k` only its bits can differ.
pub bit-word_at-modify :
    (words : List Word) (k i : ℕ) (f : Word → Word)
    → k < length words
    → bit (word_at (modify words k f) (i / size_t_bits)) (i % size_t_bits) ≡ (
        if i / size_t_bits == k
        then bit (f (word_at words k)) (i % size_t_bits)
        else bit (word_at words (i / size_t_bits)) (i % size_t_bits))
bit-word_at-modify words k i f h = elim (Bool-cases (i / size_t_bits == k)) [
  | inl same ↦
      let e : i / size_t_bits ≡ k = ground arith in
      rw same (ap (λ w. bit w (i % size_t_bits)) (rw e (get_or-modify_self words k f [] h)))
  | inr other ↦ rw other (
      ap (λ w. bit w (i % size_t_bits))
        (get_or-modify_other words k (i / size_t_bits) f [] (λ e. ground arith)))
]

-- The bits of the word that `set_bit` writes.
bit-place :
    (w : Word) (p q : ℕ) (value : Bool)
    → length w ≡ size_t_bits
    → p < size_t_bits
    → q < size_t_bits
    → bit
        (if value
          then or_word w (shr p (top_bit size_t_bits))
          else and_word w (not_word (shr p (top_bit size_t_bits))))
        q
      ≡ (if q == p then value else bit w q)
bit-place w p q true l hp hq = ground (
  arith,
  bit-or_word w (shr p (top_bit size_t_bits)) q,
  bit-shr p (top_bit size_t_bits) q,
  bit-top_bit 63 (q - p),
  length-shr p (top_bit size_t_bits),
  length-top_bit 63,
)
bit-place w p q false l hp hq = ground (
  arith,
  bit-and_word w (not_word (shr p (top_bit size_t_bits))) q,
  bit-not_word (shr p (top_bit size_t_bits)) q,
  bit-shr p (top_bit size_t_bits) q,
  bit-top_bit 63 (q - p),
  length-not_word (shr p (top_bit size_t_bits)),
  length-shr p (top_bit size_t_bits),
  length-top_bit 63,
)

length-place :
    (w : Word) (p : ℕ) (value : Bool)
    → length w ≡ size_t_bits
    → length (
        if value
        then or_word w (shr p (top_bit size_t_bits))
        else and_word w (not_word (shr p (top_bit size_t_bits))))
      ≡ size_t_bits
length-place w p true l = ground (
  arith,
  length-or_word w (shr p (top_bit size_t_bits)),
  length-shr p (top_bit size_t_bits),
  length-top_bit 63,
)
length-place w p false l = ground (
  arith,
  length-and_word w (not_word (shr p (top_bit size_t_bits))),
  length-not_word (shr p (top_bit size_t_bits)),
  length-shr p (top_bit size_t_bits),
  length-top_bit 63,
)

-- In a well-formed vector, at a position inside it, `set_bit` writes the one bit and keeps all
-- others.
pub bit_at-set_bit :
    (v : BitVector) (i j : ℕ) (value : Bool)
    → IsValid v
    → i < v.num_bits
    → bit_at (set_bit v i value) j ≡ (if j == i then value else bit_at v j)
unfolding set_bit
bit_at-set_bit v i j value valid h =
    let in_array = element-lt v i valid h in
    ground (
      arith,
      bit-word_at-modify v.data_array (i / size_t_bits) j (λ w.
          if value
          then or_word w (shr (i % size_t_bits) (top_bit size_t_bits))
          else and_word w (not_word (shr (i % size_t_bits) (top_bit size_t_bits)))),
      bit-place (word_at v.data_array (i / size_t_bits)) (i % size_t_bits) (j % size_t_bits) value
          (valid.wide (i / size_t_bits) in_array),
    )

-- `set_bit` at a position inside a well-formed vector gives a well-formed vector.
pub set_bit-IsValid :
    (v : BitVector) (i : ℕ) (value : Bool)
    → IsValid v
    → i < v.num_bits
    → IsValid (set_bit v i value)
set_bit-IsValid v i value valid h = record {
  sized = unfold set_bit in (length-modify v.data_array (i / size_t_bits) _ ∙ valid.sized);
  wide =
      unfold set_bit in
      AllWide-modify v.data_array (i / size_t_bits) _ valid.wide
        (λ w l. length-place w (i % size_t_bits) value l) (element-lt v i valid h);
  clean = λ j past.
      let kept : v.num_bits ≤ j = unfold set_bit in past in
      ground (arith, bit_at-set_bit v i j value valid h, valid.clean j kept);
}

pub num_bits-set_bit :
    (v : BitVector) (i : ℕ) (value : Bool) → (set_bit v i value).num_bits ≡ v.num_bits
unfolding set_bit
num_bits-set_bit v i value = refl
