-- ===== src/Utility/BitVector.antt =====
-- `BitVector<false>` of utility/BitVector.hpp: the vector of tuple ids' bits, in 64-bit words.
-- The versions for `enable_short_version` are not modelled. An access past `data_array_` reads 0
-- and writes nothing here.
pub mod Bits
pub mod Bitwise
pub mod Flip
pub mod Copy
pub mod Range
pub mod SetRange
pub mod FirstOne
pub mod Search
pub mod Count
pub mod FirstZero
use quickstep_streaming.Prelude.{
  ℕ, ◌≡◌, refl, zero, suc, ◌+◌, ◌-◌, ◌*◌, ◌/◌, ◌%◌, List, [], ◌∷◌, ◌++◌, Bool, false, not, ◌&&◌,
  ◌||◌, leb, ◌==◌, if◌then◌else◌, replicate, take, drop, zip_with, get_or, modify,
}
use quickstep_streaming.Utility.Word.{
  Word, word_zero, word_max, and_word, or_word, not_word, shl, shr, nonzero, top_bit,
  mask_bit_range, flip_limited_bits, leading_zero_count, population_count,
}

-- `kSizeTBits`
abbrev pub size_t_bits : ℕ
size_t_bits = 64

pub record BitVector : Type 0 where
  pub num_bits : ℕ
  pub data_array : List Word

-- `data_array_size_`
unfoldable pub array_size : ℕ → ℕ
array_size n = n / size_t_bits + (if n % size_t_bits == 0 then 0 else 1)

pub bytes_needed : ℕ → ℕ
bytes_needed n = if n % size_t_bits == 0 then n / size_t_bits * 8 else (n / size_t_bits + 1) * 8

abbrev pub word_at : List Word → ℕ → Word
word_at words j = get_or words j []

-- `memcpy` of the first `bytes` bytes, whole words.
copy_words : ℕ → List Word → List Word → List Word
copy_words bytes from to = take (bytes / 8) from ++ drop (bytes / 8) to

-- The constructor that owns its memory, which ends with `clear()`.
unfoldable pub make : ℕ → BitVector
unfolding array_size
make n = record { num_bits = n; data_array = replicate (array_size n) (word_zero size_t_bits) }

pub clear : BitVector → BitVector
unfolding copy_words bytes_needed
clear v = record v {
  data_array =
      copy_words (bytes_needed v.num_bits)
        (replicate (bytes_needed v.num_bits / 8) (word_zero size_t_bits)) v.data_array;
}

pub assign_from : BitVector → BitVector → BitVector
unfolding copy_words bytes_needed
assign_from v other = record v {
  data_array = copy_words (bytes_needed v.num_bits) other.data_array v.data_array;
}

pub assign_from_longer : BitVector → BitVector → BitVector
unfolding copy_words bytes_needed array_size
assign_from_longer v other =
    let copied = copy_words (bytes_needed v.num_bits) other.data_array v.data_array in
    let tail = v.num_bits % size_t_bits in
    record v {
      data_array =
          if tail == 0
          then copied
          else modify copied (array_size v.num_bits - 1)
              (λ w. and_word w (mask_bit_range size_t_bits 0 tail));
    }

unfoldable pub get_bit : BitVector → ℕ → Bool
get_bit v i = nonzero (
    and_word (shl (i % size_t_bits) (word_at v.data_array (i / size_t_bits))) (top_bit size_t_bits))

unfoldable pub set_bit : BitVector → ℕ → Bool → BitVector
set_bit v i value =
    let place = shr (i % size_t_bits) (top_bit size_t_bits) in
    record v {
      data_array =
          modify v.data_array (i / size_t_bits)
            (λ w. if value then or_word w place else and_word w (not_word place));
    }

-- `|= mask` or `&= ~mask`
pub write_mask : Bool → Word → Word → Word
write_mask value mask w = if value then or_word w mask else and_word w (not_word mask)

-- `memset` of `count` words from `start`.
pub fill_words : Bool → ℕ → ℕ → List Word → List Word
fill_words value start zero words = words
fill_words value start (suc count) words =
    fill_words value (suc start) count
      (modify words start (λ w. if value then word_max size_t_bits else word_zero size_t_bits))

-- The part of `setBitRangeRegularVersion` from the `memset` on.
pub set_whole_words : Bool → ℕ → ℕ → List Word → List Word
unfolding fill_words write_mask
set_whole_words value start range words =
    let whole = range / size_t_bits in
    modify (fill_words value start whole words) (start + whole)
      (write_mask value (mask_bit_range size_t_bits 0 (range % size_t_bits)))

pub set_bit_range : BitVector → ℕ → ℕ → Bool → BitVector
unfolding set_whole_words write_mask
set_bit_range v start range value =
    let element = start / size_t_bits in
    let lower = start % size_t_bits in
    let first =
      modify v.data_array element (write_mask value (mask_bit_range size_t_bits lower range)) in
    record v {
      data_array =
          if lower == 0
          then set_whole_words value element range v.data_array
          else if leb (range + lower) size_t_bits
          then first
          else set_whole_words value (element + 1) (range + lower - size_t_bits) first;
    }

pub set_bit_word : BitVector → ℕ → Word → BitVector
unfolding array_size
set_bit_word v word_id value =
    let written = modify v.data_array word_id (λ w. value) in
    let tail = v.num_bits % size_t_bits in
    record v {
      data_array =
          if word_id == array_size v.num_bits - 1 && not (tail == 0)
          then modify written word_id
              (λ w. and_word w (shl (size_t_bits - tail) (word_max size_t_bits)))
          else written;
    }

-- The loop of `flipBits` over the words before the last.
pub flip_words : ℕ → List Word → List Word
flip_words zero words = words
flip_words (suc n) [] = []
flip_words (suc n) (w ∷ words) = not_word w ∷ flip_words n words

unfoldable pub flip_bits : BitVector → BitVector
unfolding flip_words array_size
flip_bits v =
    let last = array_size v.num_bits - 1 in
    if v.num_bits == 0 then v else record v {
      data_array =
          modify (flip_words last v.data_array) last (flip_limited_bits (v.num_bits % size_t_bits));
    }

pub intersect_with : BitVector → BitVector → BitVector
intersect_with v other = record v { data_array = zip_with and_word v.data_array other.data_array }

pub union_with : BitVector → BitVector → BitVector
union_with v other = record v { data_array = zip_with or_word v.data_array other.data_array }

-- `data_array_[position] &= ~other.data_array_[position]`, up to the shorter array's end.
pub unset_words : List Word → List Word → List Word
unset_words [] ys = []
unset_words (x ∷ xs) [] = x ∷ xs
unset_words (x ∷ xs) (y ∷ ys) = and_word x (not_word y) ∷ unset_words xs ys

pub unset_from : BitVector → BitVector → BitVector
unfolding unset_words
unset_from v other = record v { data_array = unset_words v.data_array other.data_array }

any_words : List Word → Bool
any_words [] = false
any_words (w ∷ words) = nonzero w || any_words words

pub any : BitVector → Bool
unfolding any_words
any v = any_words v.data_array

pub count_words : List Word → ℕ
count_words [] = 0
count_words (w ∷ words) = population_count w + count_words words

pub ones_count : BitVector → ℕ
unfolding count_words
ones_count v = count_words v.data_array

-- The loop of `firstOne` over the words from `array_idx` on, the rest of the array given.
unfoldable pub first_one_words : ℕ → ℕ → List Word → ℕ
first_one_words num_bits array_idx [] = num_bits
first_one_words num_bits array_idx (w ∷ words) =
    let rest = first_one_words num_bits (suc array_idx) words in
    if nonzero w then array_idx * size_t_bits + leading_zero_count w else rest

unfoldable pub first_one : BitVector → ℕ → ℕ
unfolding first_one_words
first_one v position =
    let element = position / size_t_bits in
    let lower = position % size_t_bits in
    let value = and_word (word_at v.data_array element) (shr lower (word_max size_t_bits)) in
    if v.num_bits == 0
    then 0
    else if lower == 0
    then first_one_words v.num_bits element (drop element v.data_array)
    else if nonzero value
    then position - lower + leading_zero_count value
    else first_one_words v.num_bits (suc element) (drop (suc element) v.data_array)

-- No operation changes the size.
pub num_bits-make : (n : ℕ) → (make n).num_bits ≡ n
unfolding make
num_bits-make n = refl

pub num_bits-intersect_with : (v u : BitVector) → (intersect_with v u).num_bits ≡ v.num_bits
unfolding intersect_with
num_bits-intersect_with v u = refl

pub num_bits-union_with : (v u : BitVector) → (union_with v u).num_bits ≡ v.num_bits
unfolding union_with
num_bits-union_with v u = refl

pub num_bits-unset_from : (v u : BitVector) → (unset_from v u).num_bits ≡ v.num_bits
unfolding unset_from
num_bits-unset_from v u = refl
