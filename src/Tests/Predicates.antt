-- ===== src/Tests/Predicates.antt =====
-- Predicates on the tuples of a small stream.
use quickstep_streaming.Prelude.{
  ℕ, ◌<◌, ◌≡◌, refl, List, [], ◌∷◌, true, false, not, ◌&&◌, ◌||◌, none, ltb, if◌then◌else◌, length,
  arith,
}
use quickstep_streaming.Common.TupleIdSequence.Sets.{Holds}
use quickstep_streaming.Types.Values.{null, literal, Tuple}
use quickstep_streaming.Types.Accessor.{tuple_vector}
use quickstep_streaming.Types.Comparator.{Comparator}
use quickstep_streaming.Expressions.Scalar.{attribute, literal_value}
use quickstep_streaming.Expressions.Comparison.{Comparison, init_static_result}
use quickstep_streaming.Expressions.Comparison
use quickstep_streaming.Expressions.Comparison.Matches.{IsMade, get_all_matches-Holds}
use quickstep_streaming.Expressions.Predicate.{
  Predicate, comparison, nil, matches_for_single_tuple, get_all_matches,
}
use quickstep_streaming.Expressions.Predicate.Build.{
  new_conjunction, new_disjunction, negate_predicate, add_to_conjunction, add_to_disjunction,
  disjunction_flags, disjunction_of,
}
use quickstep_streaming.Expressions.Predicate.Meaning.{
  meaning, IsBuilt, AreBuilt, every_static, some_static,
}
use quickstep_streaming.Expressions.Predicate.Single.{matches_for_single_tuple-meaning}
use quickstep_streaming.Expressions.Predicate.All.{get_all_matches-meaning}
use quickstep_streaming.Expressions.Predicate.Conjoin.{
  add_to_conjunction-IsBuilt, add_to_conjunction-meaning,
}
use quickstep_streaming.Expressions.Predicate.Disjoin.{add_to_disjunction-IsBuilt}
use quickstep_streaming.Expressions.Predicate.Disjoin.Meaning.{add_to_disjunction-meaning}
use quickstep_streaming.Expressions.Predicate.Negate.{negate_predicate-meaning}

abbrev pub less : Comparator ℕ
less = record { functor = ltb; left_nullable = true; right_nullable = false; null_read = true }

-- The attribute 0 is less than 6.
abbrev pub below_six : Comparison ℕ
below_six = record {
  left_operand = attribute 0;
  right_operand = literal_value (literal 6);
  comparator = less;
  static_result = none;
}

abbrev pub stream : List (Tuple ℕ)
stream = (literal 1 ∷ []) ∷ (literal 7 ∷ []) ∷ (null ∷ []) ∷ (literal 5 ∷ []) ∷ []

pub stream-small : length stream < 2147483648
stream-small = omega arith

below_six-IsMade : IsMade below_six
unfolding init_static_result
below_six-IsMade = refl

pub comparison-IsBuilt : IsBuilt (comparison below_six)
unfolding IsBuilt init_static_result
comparison-IsBuilt = refl

get_all_matches-Holds_example :
    Holds
      (Comparison.get_all_matches below_six (tuple_vector stream) none none)
      4
      (λ j. true && Comparison.matches_for_single_tuple below_six (tuple_vector stream) j)
get_all_matches-Holds_example =
    get_all_matches-Holds below_six stream none (λ j. true) stream-small below_six-IsMade
      (λ j. refl)

empty_conjunction-IsBuilt : IsBuilt {V = ℕ} new_conjunction
unfolding IsBuilt AreBuilt every_static
empty_conjunction-IsBuilt = (tt, (tt, record { result = refl; decided = refl }))

empty_disjunction-IsBuilt : IsBuilt {V = ℕ} new_disjunction
unfolding IsBuilt AreBuilt some_static
empty_disjunction-IsBuilt =
    (tt, (tt, record { untouched = refl; decided = refl; result = λ e. refl }))

add_to_conjunction-IsBuilt_example :
    IsBuilt (add_to_conjunction nil nil true true (comparison below_six))
add_to_conjunction-IsBuilt_example =
    add_to_conjunction-IsBuilt nil nil true true (comparison below_six) empty_conjunction-IsBuilt
      comparison-IsBuilt

add_to_conjunction-meaning_example :
    meaning (add_to_conjunction nil nil true true (comparison below_six)) (tuple_vector stream) 1
    ≡ (meaning new_conjunction (tuple_vector stream) 1
        && meaning (comparison below_six) (tuple_vector stream) 1)
add_to_conjunction-meaning_example =
    add_to_conjunction-meaning nil nil true true (comparison below_six) (tuple_vector stream) 1

add_to_disjunction-IsBuilt_example :
    IsBuilt (add_to_disjunction nil nil (disjunction_flags true true true) (comparison below_six))
add_to_disjunction-IsBuilt_example =
    add_to_disjunction-IsBuilt nil nil true true true (comparison below_six)
      empty_disjunction-IsBuilt comparison-IsBuilt

add_to_disjunction-meaning_example :
    meaning
      (add_to_disjunction nil nil (disjunction_flags true true true) (comparison below_six))
      (tuple_vector stream)
      1
    ≡ (if true
        then meaning (comparison below_six) (tuple_vector stream) 1
        else meaning
            (disjunction_of nil nil (disjunction_flags true true true))
            (tuple_vector stream)
            1
          || meaning (comparison below_six) (tuple_vector stream) 1)
add_to_disjunction-meaning_example =
    add_to_disjunction-meaning nil nil (disjunction_flags true true true) (comparison below_six)
      (tuple_vector stream) 1 refl

negate_predicate-meaning_example :
    IsBuilt (negate_predicate (comparison below_six))
    × (meaning (negate_predicate (comparison below_six)) (tuple_vector stream) 1
        ≡ not (meaning (comparison below_six) (tuple_vector stream) 1))
negate_predicate-meaning_example =
    negate_predicate-meaning (comparison below_six) (tuple_vector stream) 1 comparison-IsBuilt

-- A conjunction with one operand.
abbrev both : Predicate ℕ
both = add_to_conjunction nil nil true true (comparison below_six)

both-IsBuilt : IsBuilt both
both-IsBuilt =
    add_to_conjunction-IsBuilt nil nil true true (comparison below_six) empty_conjunction-IsBuilt
      comparison-IsBuilt

matches_for_single_tuple-meaning_example :
    matches_for_single_tuple both (tuple_vector stream) 3 ≡ meaning both (tuple_vector stream) 3
matches_for_single_tuple-meaning_example =
    matches_for_single_tuple-meaning both (tuple_vector stream) 3 both-IsBuilt

get_all_matches-meaning_example :
    Holds
      (get_all_matches both (tuple_vector stream) none none)
      4
      (λ j. true && meaning both (tuple_vector stream) j)
get_all_matches-meaning_example =
    get_all_matches-meaning both stream none (λ j. true) stream-small both-IsBuilt (λ j. refl)
