-- ===== src/Common/TupleIdSequence/Sets.antt =====
-- A sequence of a given length as the set of the ids in it, and the operations on these sets.
use quickstep_streaming.Prelude.{
  ℕ, ◌+◌, ◌≤◌, ◌<◌, ◌≡◌, sym, ap, ◌∙◌, subst, Bool, true, false, not, ◌&&◌, ◌||◌, ltb, ◌==◌,
  if◌then◌else◌, arith, inl, inr, Bool-cases,
}
use quickstep_streaming.Utility.BitVector.Bits.{
  bit_at, IsValid, bit_at-make, make-IsValid, get_bit-bit_at, bit_at-set_bit, set_bit-IsValid,
  num_bits-set_bit,
}
use quickstep_streaming.Utility.BitVector.Bitwise.{
  bit_at-intersect_with, intersect_with-IsValid, bit_at-union_with, union_with-IsValid,
}
use quickstep_streaming.Utility.BitVector.Flip.{
  bit_at-flip_bits, num_bits-flip_bits, flip_bits-IsValid, any-of_bit_at, bit_at-of_any,
}
use quickstep_streaming.Utility.BitVector.Copy.{
  assign_from-eq, bit_at-unset_from, unset_from-IsValid,
}
use quickstep_streaming.Utility.BitVector.SetRange.{
  num_bits-set_bit_range, bit_at-set_bit_range, set_bit_range-IsValid,
}
use quickstep_streaming.Utility.BitVector.{
  num_bits-make, num_bits-intersect_with, num_bits-union_with, num_bits-unset_from,
}
use quickstep_streaming.Common.TupleIdSequence.{
  TupleIdSequence, tuple_id_limit, to_tuple_id_small, create, set, set_range, get, empty, invert,
  assign_from, intersect_with, intersect_with_complement, union_with,
}

-- The sequence `s` has length `n`, which is a `tuple_id`, and the ids in it are those that `p` accepts.
pub record Holds (s : TupleIdSequence) (n : ℕ) (p : ℕ → Bool) : Type 0 where
  pub valid : IsValid s
  pub size : s.num_bits ≡ n
  pub small : n < tuple_id_limit
  pub bits : (i : ℕ) → i < n → bit_at s i ≡ p i

pub Holds-ext :
    (s : TupleIdSequence) (n : ℕ) (p q : ℕ → Bool)
    → ((i : ℕ) → i < n → p i ≡ q i)
    → Holds s n p
    → Holds s n q
Holds-ext s n p q e h = record {
  valid = h.valid;
  size = h.size;
  small = h.small;
  bits = λ i lt. h.bits i lt ∙ e i lt;
}

pub get-Holds :
    (s : TupleIdSequence) (n : ℕ) (p : ℕ → Bool) (i : ℕ) → Holds s n p → i < n → get s i ≡ p i
unfolding get
get-Holds s n p i h lt =
    rw (to_tuple_id_small i (omega (arith, h.small)))
      (get_bit-bit_at s i h.valid (omega (arith, h.size)) ∙ h.bits i lt)

pub create-Holds : (n : ℕ) → n < tuple_id_limit → Holds (create n) n (λ i. false)
unfolding create
create-Holds n small = rw (to_tuple_id_small n small) (record {
  valid = make-IsValid n;
  size = num_bits-make n;
  small = small;
  bits = λ i lt. bit_at-make n i;
})

pub set-Holds :
    (s : TupleIdSequence) (n : ℕ) (p : ℕ → Bool) (i : ℕ) (on : Bool)
    → Holds s n p
    → i < n
    → Holds (set s i on) n (λ j. if j == i then on else p j)
unfolding set
set-Holds s n p i on h lt =
    let inside : i < s.num_bits = omega (arith, h.size) in
    rw (to_tuple_id_small i (omega (arith, h.small))) (record {
      valid = set_bit-IsValid s i on h.valid inside;
      size = num_bits-set_bit s i on ∙ h.size;
      small = h.small;
      bits = λ j lt'.
          bit_at-set_bit s i j on h.valid inside
          ∙ ap (λ b. if j == i then on else b) (h.bits j lt');
    })

-- `set_range` from 0 over the length of a well-formed sequence, which may be 0, puts all ids in the
-- sequence.
pub set_range-Holds :
    (s : TupleIdSequence) (n : ℕ) (p : ℕ → Bool)
    → Holds s n p
    → Holds (set_range s 0 n true) n (λ i. true)
unfolding set_range
set_range-Holds s n p h = elim (Bool-cases (ltb 0 n && ltb n tuple_id_limit)) [
  | inl some_ ↦
      let fits : 0 + n ≤ s.num_bits = omega (arith, h.size) in
      rw (to_tuple_id_small 0 (omega arith), to_tuple_id_small n h.small, some_)
        (record {
          valid = set_bit_range-IsValid s 0 n true h.valid fits;
          size = num_bits-set_bit_range s 0 n true ∙ h.size;
          small = h.small;
          bits = λ i lt. ground (arith, bit_at-set_bit_range s 0 n true h.valid fits i);
        })
  | inr none_ ↦
      rw (to_tuple_id_small 0 (omega arith), to_tuple_id_small n h.small, none_)
        (record {
          valid = h.valid;
          size = h.size;
          small = h.small;
          bits = λ i lt. absurd (ground (arith, h.small));
        })
]

pub invert-Holds :
    (s : TupleIdSequence) (n : ℕ) (p : ℕ → Bool) → Holds s n p → Holds (invert s) n (λ i. not (p i))
unfolding invert
invert-Holds s n p h = record {
  valid = flip_bits-IsValid s h.valid;
  size = num_bits-flip_bits s ∙ h.size;
  small = h.small;
  bits = λ i lt. ground (arith, bit_at-flip_bits s i h.valid, h.bits i lt, h.size);
}

module _ (s t : TupleIdSequence) (n : ℕ) (p q : ℕ → Bool) (h : Holds s n p) (h' : Holds t n q) where
  same_size : t.num_bits ≡ s.num_bits
  same_size = h'.size ∙ sym h.size

  pub intersect_with-Holds : Holds (intersect_with s t) n (λ i. p i && q i)
  unfolding intersect_with
  intersect_with-Holds = record {
    valid = intersect_with-IsValid s t h.valid h'.valid same_size;
    size = num_bits-intersect_with s t ∙ h.size;
    small = h.small;
    bits = λ i lt.
        ground (
          arith,
          bit_at-intersect_with s t h.valid h'.valid same_size i,
          h.bits i lt,
          h'.bits i lt,
        );
  }

  pub union_with-Holds : Holds (union_with s t) n (λ i. p i || q i)
  unfolding union_with
  union_with-Holds = record {
    valid = union_with-IsValid s t h.valid h'.valid same_size;
    size = num_bits-union_with s t ∙ h.size;
    small = h.small;
    bits = λ i lt.
        ground
          (arith, bit_at-union_with s t h.valid h'.valid same_size i, h.bits i lt, h'.bits i lt);
  }

  pub intersect_with_complement-Holds :
      Holds (intersect_with_complement s t) n (λ i. p i && not (q i))
  unfolding intersect_with_complement
  intersect_with_complement-Holds = record {
    valid = unset_from-IsValid s t h.valid h'.valid same_size;
    size = num_bits-unset_from s t ∙ h.size;
    small = h.small;
    bits = λ i lt.
        ground
          (arith, bit_at-unset_from s t h.valid h'.valid same_size i, h.bits i lt, h'.bits i lt);
  }

  pub assign_from-Holds : Holds (assign_from s t) n q
  unfolding assign_from
  assign_from-Holds =
      subst (λ r. Holds r n q) (sym (assign_from-eq s t h.valid h'.valid same_size)) h'

-- `empty` answers true just if no id is in the sequence.
pub empty-Holds :
    (s : TupleIdSequence) (n : ℕ) (p : ℕ → Bool) (i : ℕ)
    → Holds s n p
    → empty s ≡ true
    → i < n
    → p i ≡ false
unfolding empty
empty-Holds s n p i h e lt = sym (h.bits i lt) ∙ bit_at-of_any s i (ground arith)

pub not_empty-Holds :
    (s : TupleIdSequence) (n : ℕ) (p : ℕ → Bool) (i : ℕ)
    → Holds s n p
    → i < n
    → p i ≡ true
    → empty s ≡ false
unfolding empty
not_empty-Holds s n p i h lt e = ground (arith, any-of_bit_at s i (h.bits i lt ∙ e))
