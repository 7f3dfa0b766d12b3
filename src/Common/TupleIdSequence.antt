-- ===== src/Common/TupleIdSequence.antt =====
-- `TupleIdSequence` of common/TupleIdSequence.hpp: a set of tuple ids, kept as a bit vector, its one
-- member.
pub mod Iteration
pub mod Sets
use quickstep_streaming.Prelude.{
  ℕ, zero, suc, ◌+◌, ◌%◌, List, [], ◌∷◌, Bool, true, false, not, ltb, ◌==◌, if◌then◌else◌, ◌&&◌,
  ◌-◌, ◌<◌, ◌≡◌, map, arith,
}
use quickstep_streaming.Utility.Word.{Word}
use quickstep_streaming.Utility.BitVector.{BitVector, word_at, first_one}
use quickstep_streaming.Utility.BitVector

abbrev pub TupleIdSequence : Type 0
TupleIdSequence = BitVector

-- One past the largest `std::size_t`, and one past the largest `tuple_id`, which is an `int`.
abbrev pub size_t_mod : ℕ
size_t_mod = 18446744073709551616

abbrev pub tuple_id_limit : ℕ
tuple_id_limit = 2147483648

-- A `std::size_t` as a `tuple_id`, which keeps its low 32 bits. A negative id stands by the
-- `std::size_t` that it is converted to.
unfoldable pub to_tuple_id : ℕ → ℕ
to_tuple_id n =
    let low = n % 4294967296 in
    if ltb low tuple_id_limit then low else low + (size_t_mod - 4294967296)

pub to_tuple_id_small : (n : ℕ) → n < tuple_id_limit → to_tuple_id n ≡ n
unfolding to_tuple_id
to_tuple_id_small n h = ground arith

-- The constructor: no tuple is in the sequence. Its length is a `tuple_id`, as are those that the
-- other operations take.
pub create : ℕ → TupleIdSequence
create length = BitVector.make (to_tuple_id length)

pub set : TupleIdSequence → ℕ → Bool → TupleIdSequence
set s tuple on = BitVector.set_bit s (to_tuple_id tuple) on

pub set_range : TupleIdSequence → ℕ → ℕ → Bool → TupleIdSequence
set_range s first_tuple num_tuples on =
    let first = to_tuple_id first_tuple in
    let count = to_tuple_id num_tuples in
    -- `num_tuples > 0`
    if ltb 0 count && ltb count tuple_id_limit then BitVector.set_bit_range s first count on else s

pub get : TupleIdSequence → ℕ → Bool
get s tuple = BitVector.get_bit s (to_tuple_id tuple)

pub set_word : TupleIdSequence → ℕ → Word → TupleIdSequence
set_word s word_id value = BitVector.set_bit_word s word_id value

pub get_word : TupleIdSequence → ℕ → Word
get_word s word_id = word_at s.data_array word_id

pub empty : TupleIdSequence → Bool
empty s = not (BitVector.any s)

abbrev pub length : TupleIdSequence → ℕ
length s = s.num_bits

pub num_tuples : TupleIdSequence → ℕ
num_tuples s = BitVector.ones_count s

pub invert : TupleIdSequence → TupleIdSequence
invert s = BitVector.flip_bits s

pub assign_from : TupleIdSequence → TupleIdSequence → TupleIdSequence
assign_from s other = BitVector.assign_from s other

pub intersect_with : TupleIdSequence → TupleIdSequence → TupleIdSequence
intersect_with s other = BitVector.intersect_with s other

pub intersect_with_complement : TupleIdSequence → TupleIdSequence → TupleIdSequence
intersect_with_complement s other = BitVector.unset_from s other

pub union_with : TupleIdSequence → TupleIdSequence → TupleIdSequence
union_with s other = BitVector.union_with s other

-- The position of the iterator that `begin` returns, and of `end`.
pub begin : TupleIdSequence → ℕ
begin s = first_one s 0

abbrev pub end : TupleIdSequence → ℕ
end s = s.num_bits

-- The position of `before_begin`, which `operator++` takes to the first id.
abbrev pub before_begin : ℕ
before_begin = 18446744073709551615

-- `operator++` on an iterator's position.
pub advance : TupleIdSequence → ℕ → ℕ
advance s position =
    let search_pos = (position + 1) % size_t_mod in
    if ltb search_pos s.num_bits then first_one s search_pos else s.num_bits

-- `for (it = s.begin(); it != s.end(); ++it)`: the positions of the iterator in the loop, with fuel.
unfoldable pub ids_from : TupleIdSequence → ℕ → ℕ → List ℕ
ids_from s zero position = []
ids_from s (suc fuel) position =
    let rest = ids_from s fuel (advance s position) in
    if position == end s then [] else position ∷ rest

-- The ids that the loop sees, each by `operator*`.
pub ids : TupleIdSequence → List ℕ
unfolding ids_from begin
ids s = map to_tuple_id (ids_from s (end s) (begin s))
