-- ===== src/Common/TupleIdSequence/Iteration.antt =====
-- The iterators visit each id of the sequence once, in order.
use quickstep_streaming.Prelude.{
  ℕ, zero, suc, ◌+◌, ◌%◌, ◌≤◌, ◌<◌, ◌≡◌, refl, sym, ap, ap₂, map, ◌∙◌, List, [], ◌∷◌, true, false,
  ltb, ◌==◌, if◌then◌else◌, length, arith, inl, inr, Bool-cases,
}
use quickstep_streaming.Utility.BitVector.{first_one}
use quickstep_streaming.Utility.BitVector.Bits.{bit_at, IsValid}
use quickstep_streaming.Utility.BitVector.FirstOne.{FindsFirst}
use quickstep_streaming.Utility.BitVector.Search.{first_one-FindsFirst, first_one_empty}
use quickstep_streaming.Common.TupleIdSequence.{
  TupleIdSequence, size_t_mod, tuple_id_limit, to_tuple_id, to_tuple_id_small, before_begin, begin,
  advance, ids_from, ids, num_tuples,
}
use quickstep_streaming.Utility.BitVector.Count.{count_from, ones_count-count_from}

-- The ids in the sequence among the `count` ones from `i` on, by a plain scan.
unfoldable pub members : TupleIdSequence → ℕ → ℕ → List ℕ
members s zero i = []
members s (suc count) i =
    if bit_at s i then i ∷ members s count (suc i) else members s count (suc i)

advance-FindsFirst :
    (s : TupleIdSequence) (i : ℕ)
    → IsValid s
    → s.num_bits < size_t_mod
    → i < s.num_bits
    → FindsFirst s (suc i) (advance s i)
unfolding advance
advance-FindsFirst s i valid small h =
    let e : (i + 1) % size_t_mod ≡ suc i = omega arith in
    rw e (elim (Bool-cases (ltb (suc i) s.num_bits)) [
      | inl more ↦ rw more (first_one-FindsFirst s (suc i) valid (ground arith))
      | inr last ↦ rw last (record {
        from = h;
        upto = omega arith;
        skipped = λ j lo hi. absurd (ground arith);
        found = λ lt. absurd (omega arith);
      })
    ])

-- At a member the search stops; past any other id it gives the same answer.
stops : (s : TupleIdSequence) (i r : ℕ) → FindsFirst s i r → bit_at s i ≡ true → r ≡ i
stops s i r f set = elim (Bool-cases (ltb i r)) [
  | inl later ↦ absurd (ground (arith, f.skipped i))
  | inr here ↦ ground (arith, f.from)
]

passes :
    (s : TupleIdSequence) (i r : ℕ)
    → FindsFirst s i r
    → i < s.num_bits
    → bit_at s i ≡ false
    → FindsFirst s (suc i) r
passes s i r f h unset = record {
  from = elim (Bool-cases (r == i)) [
    | inl same ↦
        let e : r ≡ i = ground arith in
        let set : bit_at s i ≡ true = rw e at (f.found (omega arith)) in ground arith
    | inr other ↦ ground (arith, f.from)
  ];
  upto = f.upto;
  skipped = λ j lo hi. f.skipped j (omega arith) hi;
  found = f.found;
}

ids_from-members :
    (s : TupleIdSequence) (count fuel i r : ℕ)
    → IsValid s
    → s.num_bits < size_t_mod
    → i + count ≡ s.num_bits
    → count ≤ fuel
    → FindsFirst s i r
    → ids_from s fuel r ≡ members s count i
unfolding ids_from members
ids_from-members s zero zero i r valid small h enough f = refl
ids_from-members s zero (suc fuel) i r valid small h enough f = ground (arith, f.from, f.upto)
ids_from-members s (suc count) zero i r valid small h enough f = absurd (omega arith)
ids_from-members s (suc count) (suc fuel) i r valid small h enough f =
    let inside : i < s.num_bits = omega arith in
    elim (Bool-cases (bit_at s i)) [
      | inl set ↦
          let here : r ≡ i = stops s i r f set in
          let rest =
            ids_from-members s count fuel (suc i) (advance s i) valid small (omega arith)
              (omega arith) (advance-FindsFirst s i valid small inside) in
          rw (here, set) (ground (arith, rest))
      | inr unset ↦
          let rest =
            ids_from-members s count (suc fuel) (suc i) r valid small (omega arith) (omega arith)
              (passes s i r f inside unset) in
          rw unset (unfold ids_from in rest)
    ]

-- With enough fuel the loop from `begin` ends and sees the ids of the sequence.
pub ids_from-begin :
    (s : TupleIdSequence) (fuel : ℕ)
    → IsValid s
    → s.num_bits < size_t_mod
    → s.num_bits ≤ fuel
    → ids_from s fuel (begin s) ≡ members s s.num_bits 0
unfolding begin
ids_from-begin s fuel valid small enough = elim (Bool-cases (s.num_bits == 0)) [
  | inl none_ ↦
      let e : s.num_bits ≡ zero = ground arith in
      ids_from-members s s.num_bits fuel 0 (first_one s 0) valid small (omega arith) enough
        (record {
          from = omega arith;
          upto = omega (arith, first_one_empty s 0 e);
          skipped = λ i lo hi. absurd (omega (arith, first_one_empty s 0 e));
          found = λ lt. absurd (omega arith);
        })
  | inr some_ ↦
      ids_from-members s s.num_bits fuel 0 (first_one s 0) valid small (omega arith) enough
        (first_one-FindsFirst s 0 valid (ground arith))
]

-- The loop with the iterators over a well-formed sequence shorter than 2 ^ 64, with the length as
-- fuel, sees just the ids in the sequence, in increasing order, each as a `tuple_id`.
pub ids-members :
    (s : TupleIdSequence)
    → IsValid s
    → s.num_bits < size_t_mod
    → ids s ≡ map to_tuple_id (members s s.num_bits 0)
unfolding ids
ids-members s valid small =
    ap (map to_tuple_id) (ids_from-begin s s.num_bits valid small (omega arith))

members-to_tuple_id :
    (s : TupleIdSequence) (count i : ℕ)
    → i + count ≤ tuple_id_limit
    → map to_tuple_id (members s count i) ≡ members s count i
unfolding members
members-to_tuple_id s zero i h = refl
members-to_tuple_id s (suc count) i h = elim (Bool-cases (bit_at s i)) [
  | inl e ↦ rw e (
      ap₂ ◌∷◌ (to_tuple_id_small i (omega arith))
        (members-to_tuple_id s count (suc i) (omega arith)))
  | inr e ↦ rw e (members-to_tuple_id s count (suc i) (omega arith))
]

-- A `tuple_id` keeps the ids of a sequence that is not longer than there are ids.
pub ids_small :
    (s : TupleIdSequence) → IsValid s → s.num_bits < tuple_id_limit → ids s ≡ members s s.num_bits 0
ids_small s valid small =
    ids-members s valid (omega arith) ∙ members-to_tuple_id s s.num_bits 0 (omega arith)

-- Stepping on from before the first id is the search that `begin` makes.
pub advance-before_begin : (s : TupleIdSequence) → advance s before_begin ≡ begin s
unfolding advance begin
advance-before_begin s = ground (arith, first_one_empty s 0)

length-count_from :
    (s : TupleIdSequence) (count i : ℕ) → length (members s count i) ≡ count_from (bit_at s) count i
unfolding members count_from
length-count_from s zero i = refl
length-count_from s (suc count) i = ground (arith, length-count_from s count (suc i))

-- `num_tuples` of a well-formed sequence is the number of the ids in it.
pub num_tuples-members :
    (s : TupleIdSequence) → IsValid s → num_tuples s ≡ length (members s s.num_bits 0)
unfolding num_tuples
num_tuples-members s valid = ones_count-count_from s valid ∙ sym (length-count_from s s.num_bits 0)

members-le : (s : TupleIdSequence) (count i : ℕ) → length (members s count i) ≤ count
unfolding members
members-le s zero i = omega arith
members-le s (suc count) i = ground (arith, members-le s count (suc i))

pub ids_count-le : (s : TupleIdSequence) → IsValid s → num_tuples s ≤ s.num_bits
ids_count-le s valid = omega (arith, num_tuples-members s valid, members-le s s.num_bits 0)
