-- ===== src/Utility/BitVector/Count.antt =====
-- `onesCount` counts the set bits.
use quickstep_streaming.Prelude.{
  ℕ, zero, suc, ◌+◌, ◌-◌, ◌*◌, ◌≤◌, ◌<◌, ◌≡◌, refl, sym, ap, ap₂, ◌∙◌, List, [], ◌∷◌, Bool, false,
  if◌then◌else◌, length, arith,
}
use quickstep_streaming.Utility.Word.{Word, bit, population_count}
use quickstep_streaming.Utility.BitVector.{size_t_bits, BitVector, count_words, ones_count}
use quickstep_streaming.Utility.BitVector.Bits.{bit_at, AllWide, IsValid, array_size_bounds}
use quickstep_streaming.Utility.BitVector.FirstOne.{bit_of, bit_of-suc, bit_of-head}

-- How many of the `count` positions from `i` on satisfy `p`.
unfoldable pub count_from : (ℕ → Bool) → ℕ → ℕ → ℕ
count_from p zero i = 0
count_from p (suc count) i = (if p i then 1 else 0) + count_from p count (suc i)

-- Positions at the same distance from `i` and from `k` are compared.
count_from-ext :
    (p q : ℕ → Bool) (count i k : ℕ)
    → ((j m : ℕ) → j + k ≡ m + i → k ≤ m → m < k + count → p j ≡ q m)
    → count_from p count i ≡ count_from q count k
unfolding count_from
count_from-ext p q zero i k h = refl
count_from-ext p q (suc count) i k h =
    let here : p i ≡ q k = h i k (omega arith) (omega arith) (omega arith) in
    let rest =
      count_from-ext p q count (suc i) (suc k)
        (λ j m e lo hi. h j m (omega arith) (omega arith) (omega arith)) in
    rw (here, rest) refl

count_from-add :
    (p : ℕ → Bool) (c d i : ℕ) → count_from p (c + d) i ≡ count_from p c i + count_from p d (c + i)
unfolding count_from
count_from-add p zero d i =
    let e : 0 + d ≡ d = omega arith in let e' : 0 + i ≡ i = omega arith in rw (e, e') (omega arith)
count_from-add p (suc c) d i =
    let rest = count_from-add p c d (suc i) in
    let e : c + suc i ≡ suc c + i = omega arith in
    let e' : suc c + d ≡ suc (c + d) = omega arith in rw (e', rest, e) (omega arith)

count_from-none :
    (p : ℕ → Bool) (count i : ℕ) → ((j : ℕ) → i ≤ j → p j ≡ false) → count_from p count i ≡ 0
unfolding count_from
count_from-none p zero i h = refl
count_from-none p (suc count) i h =
    rw (h i (omega arith), count_from-none p count (suc i) (λ j le. h j (omega arith))) refl

population_count-count_from : (w : Word) → population_count w ≡ count_from (bit w) (length w) 0
unfolding population_count count_from
population_count-count_from [] = refl
population_count-count_from (b ∷ w) =
    let shift =
      count_from-ext (bit (b ∷ w)) (bit w) (length w) 1 0
        (λ j m e lo hi. let next : j ≡ suc m = omega arith in ap (bit (b ∷ w)) next) in
    rw (shift, population_count-count_from w) (ground arith)

count_words-count_from :
    (words : List Word)
    → AllWide words
    → count_words words ≡ count_from (bit_of words) (length words * size_t_bits) 0
unfolding count_words count_from
count_words-count_from [] wide = refl
count_words-count_from (w ∷ words) wide =
    let size : length w ≡ size_t_bits = wide 0 (omega arith) in
    let first : population_count w ≡ count_from (bit_of (w ∷ words)) size_t_bits 0 =
      population_count-count_from w
      ∙ ap (λ k. count_from (bit w) k 0) size
      ∙ count_from-ext (bit w) (bit_of (w ∷ words)) size_t_bits 0 0 (λ j m e lo hi.
        let same : j ≡ m = omega arith in
        ap (bit w) same ∙ sym (bit_of-head w words m (omega arith))) in
    let rest : count_words words
        ≡ count_from (bit_of (w ∷ words)) (length words * size_t_bits) (size_t_bits + 0) =
      count_words-count_from words (λ j lt. wide (suc j) (omega arith))
      ∙ count_from-ext (bit_of words) (bit_of (w ∷ words)) (length words * size_t_bits) 0
          (size_t_bits + 0)
          (λ j m e lo hi.
            let same : size_t_bits + j ≡ m = omega arith in
            sym (bit_of-suc w words j) ∙ ap (bit_of (w ∷ words)) same) in
    let split = count_from-add (bit_of (w ∷ words)) size_t_bits (length words * size_t_bits) 0 in
    let e : suc (length words) * size_t_bits ≡ size_t_bits + length words * size_t_bits =
      omega arith in
    ap₂ (λ a b. a + b) first rest
    ∙ sym split
    ∙ ap (λ k. count_from (bit_of (w ∷ words)) k 0) (sym e)

-- `ones_count` of a well-formed vector, which adds up its words, is the number of its positions
-- whose bit is set.
pub ones_count-count_from :
    (v : BitVector) → IsValid v → ones_count v ≡ count_from (bit_at v) v.num_bits 0
unfolding ones_count
ones_count-count_from v valid =
    let past : ℕ = length v.data_array * size_t_bits - v.num_bits in
    let e : length v.data_array * size_t_bits ≡ v.num_bits + past =
      omega (arith, valid.sized, array_size_bounds v.num_bits) in
    let none_left =
      count_from-none (bit_at v) past (v.num_bits + 0) (λ j le. valid.clean j (omega arith)) in
    count_words-count_from v.data_array valid.wide
    ∙ ap (λ k. count_from (bit_of v.data_array) k 0) e
    ∙ count_from-add (bit_at v) v.num_bits past 0
    ∙ ap (λ k. count_from (bit_at v) v.num_bits 0 + k) none_left
    ∙ omega arith
