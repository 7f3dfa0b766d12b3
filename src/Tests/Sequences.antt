-- ===== src/Tests/Sequences.antt =====
-- A small sequence of tuple ids.
use quickstep_streaming.Prelude.{
  ℕ, ◌<◌, ◌≡◌, List, map, [], ◌∷◌, true, false, not, ◌==◌, if◌then◌else◌, arith,
}
use quickstep_streaming.Common.TupleIdSequence.{
  TupleIdSequence, create, set, invert, ids, size_t_mod, to_tuple_id,
}
use quickstep_streaming.Common.TupleIdSequence.Iteration.{members, ids-members}
use quickstep_streaming.Common.TupleIdSequence.Sets.{Holds, create-Holds, set-Holds, invert-Holds}
use quickstep_streaming.Types.Values.{null, literal, Tuple}
use quickstep_streaming.Types.Accessor.{positions, id_sequence_adapter}
use quickstep_streaming.Types.Accessor.Iterate.{positions-id_sequence_adapter}

abbrev two_of_three : TupleIdSequence
two_of_three = set (set (create 3) 0 true) 2 true

set-Holds_example : Holds (set (create 3) 0 true) 3 (λ j. if j == 0 then true else false)
set-Holds_example =
    set-Holds (create 3) 3 (λ j. false) 0 true (create-Holds 3 (omega arith)) (omega arith)

two_of_three-Holds :
    Holds two_of_three 3 (λ j. if j == 2 then true else if j == 0 then true else false)
two_of_three-Holds =
    set-Holds (set (create 3) 0 true) 3 (λ j. if j == 0 then true else false) 2 true
      (set-Holds (create 3) 3 (λ j. false) 0 true (create-Holds 3 (omega arith)) (omega arith))
      (omega arith)

small : two_of_three.num_bits < size_t_mod
small = omega (arith, two_of_three-Holds.size)

ids-members_example :
    ids two_of_three ≡ map to_tuple_id (members two_of_three two_of_three.num_bits 0)
ids-members_example = ids-members two_of_three two_of_three-Holds.valid small

invert-Holds_example : Holds (invert (create 3)) 3 (λ j. not false)
invert-Holds_example = invert-Holds (create 3) 3 (λ j. false) (create-Holds 3 (omega arith))

abbrev rows : List (Tuple ℕ)
rows = (literal 1 ∷ []) ∷ (literal 5 ∷ []) ∷ (null ∷ []) ∷ []

positions-id_sequence_adapter_example :
    positions (id_sequence_adapter rows two_of_three) ≡ members two_of_three two_of_three.num_bits 0
positions-id_sequence_adapter_example =
    positions-id_sequence_adapter rows two_of_three two_of_three-Holds.valid small
