-- ===== src/Expressions/Predicate.antt =====
-- The predicates of expressions/predicate/: TrivialPredicates.hpp, NegationPredicate.cpp,
-- PredicateWithList.hpp, ConjunctionPredicate.cpp and DisjunctionPredicate.cpp.
pub mod Build
pub mod Meaning
pub mod Single
pub mod All
pub mod Splice
pub mod Conjoin
pub mod Disjoin
pub mod Negate
use quickstep_streaming.Prelude.{
  ℕ, Bool, true, false, not, ◌&&◌, ◌||◌, Option, none, some, if◌then◌else◌,
}
use quickstep_streaming.Common.TupleIdSequence.{
  TupleIdSequence, create, assign_from, set_range, empty, invert, intersect_with, union_with,
}
use quickstep_streaming.Types.Accessor.{ValueAccessor, end_position}
use quickstep_streaming.Expressions.Comparison.{Comparison, generate_sequence_for_static_result}
use quickstep_streaming.Expressions.Comparison

-- The classes of predicates, with their fields: the operands, then `has_static_result_`,
-- `static_result_`, and `fresh_` of a disjunction.
mutual
  pub data Predicate (V : Type 0) : Type 0 where
    true_predicate false_predicate : Predicate V
    comparison : Comparison V → Predicate V
    negation : Predicate V → Bool → Bool → Predicate V
    conjunction : Predicates V → Predicates V → Bool → Bool → Predicate V
    disjunction : Predicates V → Predicates V → Bool → Bool → Bool → Predicate V

  -- `PtrList<Predicate>`
  pub data Predicates (V : Type 0) : Type 0 where
    nil : Predicates V
    cons : Predicate V → Predicates V → Predicates V

unfoldable pub is_static_comparison : Option Bool → Bool
is_static_comparison none = false
is_static_comparison (some b) = true

unfoldable pub static_comparison : Option Bool → Bool
static_comparison none = false
static_comparison (some b) = b

module _ {V : Type 0} where
  unfoldable pub has_static_result : Predicate V → Bool
  unfolding is_static_comparison
  has_static_result true_predicate = true
  has_static_result false_predicate = true
  has_static_result (comparison c) = is_static_comparison c.static_result
  has_static_result (negation p has b) = has
  has_static_result (conjunction statics dynamics has b) = has
  has_static_result (disjunction statics dynamics has b fresh) = has

  -- Called only where `has_static_result`: it is a fatal error otherwise.
  unfoldable pub get_static_result : Predicate V → Bool
  unfolding static_comparison
  get_static_result true_predicate = true
  get_static_result false_predicate = false
  get_static_result (comparison c) = static_comparison c.static_result
  get_static_result (negation p has b) = b
  get_static_result (conjunction statics dynamics has b) = b
  get_static_result (disjunction statics dynamics has b fresh) = b

unfoldable mutual
  pub matches_for_single_tuple : {V : Type 0} → Predicate V → ValueAccessor V → ℕ → Bool
  matches_for_single_tuple true_predicate a tid = true
  matches_for_single_tuple false_predicate a tid = false
  matches_for_single_tuple (comparison c) a tid = Comparison.matches_for_single_tuple c a tid
  matches_for_single_tuple (negation p has b) a tid =
      if has then b else not (matches_for_single_tuple p a tid)
  matches_for_single_tuple (conjunction statics dynamics has b) a tid =
      if has then b else all_match dynamics a tid
  matches_for_single_tuple (disjunction statics dynamics has b fresh) a tid =
      if has then b else any_match dynamics a tid

  -- The loop of a conjunction, which stops at the first operand that fails.
  pub all_match : {V : Type 0} → Predicates V → ValueAccessor V → ℕ → Bool
  all_match nil a tid = true
  all_match (cons p ps) a tid =
      if not (matches_for_single_tuple p a tid) then false else all_match ps a tid

  -- The loop of a disjunction, which stops at the first operand that matches.
  pub any_match : {V : Type 0} → Predicates V → ValueAccessor V → ℕ → Bool
  any_match nil a tid = false
  any_match (cons p ps) a tid =
      if matches_for_single_tuple p a tid then true else any_match ps a tid

-- The filter that a conjunction or a disjunction starts with.
unfoldable pub first_filter :
    {V : Type 0}
    → ValueAccessor V
    → Option TupleIdSequence
    → Option TupleIdSequence
    → TupleIdSequence
first_filter a (some filter) existence_map = assign_from (create (end_position a)) filter
first_filter a none (some existence_map) = assign_from (create (end_position a)) existence_map
first_filter a none none = set_range (create (end_position a)) 0 (end_position a) true

-- `if (sequence != nullptr) matches->intersectWith(*sequence)`
unfoldable pub restrict : Option TupleIdSequence → TupleIdSequence → TupleIdSequence
restrict none matches = matches
restrict (some s) matches = intersect_with matches s

unfoldable mutual
  pub get_all_matches :
      {V : Type 0}
      → Predicate V
      → ValueAccessor V
      → Option TupleIdSequence
      → Option TupleIdSequence
      → TupleIdSequence
  get_all_matches true_predicate a filter existence =
      generate_sequence_for_static_result a filter existence true
  get_all_matches false_predicate a filter existence =
      generate_sequence_for_static_result a filter existence false
  get_all_matches (comparison c) a filter existence =
      Comparison.get_all_matches c a filter existence
  get_all_matches (negation p has b) a filter existence =
      let operand_matches = get_all_matches p a filter existence in
      if has
      then generate_sequence_for_static_result a filter existence b
      else restrict existence (restrict filter (invert operand_matches))
  get_all_matches (conjunction statics dynamics has b) a filter existence =
      let current_filter = filter_all dynamics a (first_filter a filter existence) existence in
      if has then generate_sequence_for_static_result a filter existence b else current_filter
  get_all_matches (disjunction statics dynamics has b fresh) a filter existence =
      let union_result =
        union_all dynamics a (create (end_position a)) (first_filter a filter existence)
          existence in
      if has then generate_sequence_for_static_result a filter existence b else union_result

  -- The loop of a conjunction over its operands, which stops once no tuple is left.
  pub filter_all :
      {V : Type 0}
      → Predicates V
      → ValueAccessor V
      → TupleIdSequence
      → Option TupleIdSequence
      → TupleIdSequence
  filter_all nil a current_filter existence = current_filter
  filter_all (cons p ps) a current_filter existence =
      let operand_result = get_all_matches p a (some current_filter) existence in
      let rest = filter_all ps a (intersect_with current_filter operand_result) existence in
      if empty current_filter then current_filter else rest

  -- The loop of a disjunction, with short circuit: what one operand matched is not asked again.
  pub union_all :
      {V : Type 0}
      → Predicates V
      → ValueAccessor V
      → TupleIdSequence
      → TupleIdSequence
      → Option TupleIdSequence
      → TupleIdSequence
  union_all nil a union_result current_filter existence = union_result
  union_all (cons p ps) a union_result current_filter existence =
      let operand_result = get_all_matches p a (some current_filter) existence in
      union_all ps a (union_with union_result operand_result)
        (intersect_with current_filter (invert operand_result)) existence

-- `splice` at the end of a list.
unfoldable pub splice : {V : Type 0} → Predicates V → Predicates V → Predicates V
splice nil qs = qs
splice (cons p ps) qs = cons p (splice ps qs)
