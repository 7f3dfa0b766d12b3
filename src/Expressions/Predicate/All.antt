-- ===== src/Expressions/Predicate/All.antt =====
-- `getAllMatches` of a predicate, on the tuples of a stream, against `matchesForSingleTuple`.
use quickstep_streaming.Prelude.{
  ℕ, ◌<◌, sym, List, Bool, true, false, not, ◌&&◌, ◌||◌, Option, none, some, if◌then◌else◌, length,
  arith, inl, inr, Bool-cases,
}
use quickstep_streaming.Common.TupleIdSequence.{TupleIdSequence, tuple_id_limit, create, empty}
use quickstep_streaming.Common.TupleIdSequence.Sets.{
  Holds, Holds-ext, create-Holds, set_range-Holds, assign_from-Holds, invert-Holds,
  intersect_with-Holds, union_with-Holds, empty-Holds,
}
use quickstep_streaming.Types.Values.{Tuple}
use quickstep_streaming.Types.Accessor.{end_position, tuple_vector}
use quickstep_streaming.Types.Comparator.Laws.{Filters}
use quickstep_streaming.Types.Accessor.Iterate.{end_position_small}
use quickstep_streaming.Expressions.Comparison.Matches.{static_result-Holds, get_all_matches-Holds}
use quickstep_streaming.Expressions.Predicate.{
  Predicate, Predicates, true_predicate, false_predicate, comparison, negation, conjunction,
  disjunction, nil, cons, matches_for_single_tuple, all_match, any_match, first_filter, restrict,
  get_all_matches, filter_all, union_all,
}
use quickstep_streaming.Expressions.Predicate.Meaning.{meaning, IsBuilt, AreBuilt}
use quickstep_streaming.Expressions.Predicate.Single.{matches_for_single_tuple-meaning}

module _ {V : Type 0} (ts : List (Tuple V)) (small : length ts < tuple_id_limit) where
  first_filter-Holds :
      (filter : Option TupleIdSequence) (φ : ℕ → Bool)
      → Filters filter (length ts) φ
      → Holds (first_filter (tuple_vector ts) filter none) (length ts) φ
  unfolding first_filter
  first_filter-Holds (some f) φ h = rw (end_position_small ts small) (
      assign_from-Holds (create (length ts)) f (length ts) (λ j. false) φ
        (create-Holds (length ts) small) h)
  first_filter-Holds none φ h = rw (end_position_small ts small) (
      Holds-ext _ (length ts) (λ j. true) φ (λ j lt. sym (h j))
        (set_range-Holds (create (length ts)) (length ts) (λ j. false)
          (create-Holds (length ts) small)))

  created : Holds (create (end_position (tuple_vector ts))) (length ts) (λ j. false)
  created = rw (end_position_small ts small) (create-Holds (length ts) small)

  restrict-Holds :
      (filter : Option TupleIdSequence) (φ ψ : ℕ → Bool) (s : TupleIdSequence)
      → Filters filter (length ts) φ
      → Holds s (length ts) ψ
      → Holds (restrict filter s) (length ts) (λ j. φ j && ψ j)
  unfolding restrict
  restrict-Holds (some f) φ ψ s h hs =
      Holds-ext _ (length ts) (λ j. ψ j && φ j) (λ j. φ j && ψ j) (λ j lt. ground arith)
        (intersect_with-Holds s f (length ts) ψ φ hs h)
  restrict-Holds none φ ψ s h hs =
      Holds-ext s (length ts) ψ (λ j. φ j && ψ j) (λ j lt. ground (arith, h j)) hs

-- The answer where the fields of the class hold a static result, and where they do not.
if-Holds :
    (has : Bool) (s s' : TupleIdSequence) (n : ℕ) (p q : ℕ → Bool)
    → Holds s n p
    → Holds s' n q
    → Holds (if has then s else s') n (λ j. if has then p j else q j)
if-Holds true s s' n p q h h' = h
if-Holds false s s' n p q h h' = h'

mutual
  unfolding IsBuilt AreBuilt matches_for_single_tuple all_match any_match get_all_matches filter_all
      union_all restrict

  all :
      {V : Type 0} (ts : List (Tuple V)) (small : length ts < tuple_id_limit) (p : Predicate V)
      (filter : Option TupleIdSequence) (φ : ℕ → Bool)
      → IsBuilt p
      → Filters filter (length ts) φ
      → Holds
          (get_all_matches p (tuple_vector ts) filter none)
          (length ts)
          (λ j. φ j && matches_for_single_tuple p (tuple_vector ts) j)
  all ts small true_predicate filter φ built h = static_result-Holds ts small filter φ true h
  all ts small false_predicate filter φ built h = static_result-Holds ts small filter φ false h
  all ts small (comparison c) filter φ built h = get_all_matches-Holds c ts filter φ small built h
  all {V = V} ts small (negation p has b) filter φ (built, e) h =
      let matched : ℕ → Bool = λ j. matches_for_single_tuple p (tuple_vector ts) j in
      Holds-ext _ (length ts) _ _ (λ j lt. ground arith)
        (if-Holds has _ _ (length ts) (λ j. φ j && b) (λ j. φ j && not (φ j && matched j))
          (static_result-Holds ts small filter φ b h)
          (restrict-Holds ts small filter φ (λ j. not (φ j && matched j)) _ h
            (invert-Holds _ (length ts) (λ j. φ j && matched j) (all ts small p filter φ built h))))
  all ts small (conjunction statics dynamics has b) filter φ (bs, (bd, fits)) h =
      Holds-ext _ (length ts) _ _ (λ j lt. ground arith)
        (if-Holds has _ _ (length ts) (λ j. φ j && b)
          (λ j. φ j && all_match dynamics (tuple_vector ts) j)
          (static_result-Holds ts small filter φ b h)
          (filtered ts small dynamics _ φ bd (first_filter-Holds ts small filter φ h)))
  all ts small (disjunction statics dynamics has b fresh) filter φ (bs, (bd, fits)) h =
      Holds-ext _ (length ts) _ _ (λ j lt. ground arith)
        (if-Holds has _ _ (length ts) (λ j. φ j && b)
          (λ j. false || (φ j && any_match dynamics (tuple_vector ts) j))
          (static_result-Holds ts small filter φ b h)
          (united ts small dynamics _ _ (λ j. false) φ bd (created ts small)
            (first_filter-Holds ts small filter φ h)))

  filtered :
      {V : Type 0} (ts : List (Tuple V)) (small : length ts < tuple_id_limit) (ps : Predicates V)
      (current_filter : TupleIdSequence) (φ : ℕ → Bool)
      → AreBuilt false ps
      → Holds current_filter (length ts) φ
      → Holds
          (filter_all ps (tuple_vector ts) current_filter none)
          (length ts)
          (λ j. φ j && all_match ps (tuple_vector ts) j)
  filtered ts small nil cf φ built h = Holds-ext cf (length ts) φ _ (λ j lt. ground arith) h
  filtered ts small (cons p ps) cf φ (bp, (e, bs)) h =
      let matched : ℕ → Bool = λ j. matches_for_single_tuple p (tuple_vector ts) j in
      let rest : ℕ → Bool = λ j. all_match ps (tuple_vector ts) j in
      let next =
        filtered ts small ps _ (λ j. φ j && (φ j && matched j)) bs
          (intersect_with-Holds cf _ (length ts) φ (λ j. φ j && matched j) h
            (all ts small p (some cf) φ bp h)) in
      elim (Bool-cases (empty cf)) [
        | inl none_left ↦ rw none_left (
            Holds-ext cf (length ts) φ _
              (λ j lt. ground (arith, empty-Holds cf (length ts) φ j h none_left lt)) h)
        | inr some_left ↦ rw some_left (
            Holds-ext _ (length ts) (λ j. (φ j && (φ j && matched j)) && rest j) _
              (λ j lt. ground arith) next)
      ]

  united :
      {V : Type 0} (ts : List (Tuple V)) (small : length ts < tuple_id_limit) (ps : Predicates V)
      (union_result current_filter : TupleIdSequence) (ψ φ : ℕ → Bool)
      → AreBuilt false ps
      → Holds union_result (length ts) ψ
      → Holds current_filter (length ts) φ
      → Holds
          (union_all ps (tuple_vector ts) union_result current_filter none)
          (length ts)
          (λ j. ψ j || (φ j && any_match ps (tuple_vector ts) j))
  united ts small nil u cf ψ φ built hu h = Holds-ext u (length ts) ψ _ (λ j lt. ground arith) hu
  united ts small (cons p ps) u cf ψ φ (bp, (e, bs)) hu h =
      let matched : ℕ → Bool = λ j. matches_for_single_tuple p (tuple_vector ts) j in
      let operand = all ts small p (some cf) φ bp h in
      Holds-ext _ (length ts) _ _ (λ j lt. ground arith)
        (united ts small ps _ _ (λ j. ψ j || (φ j && matched j))
          (λ j. φ j && not (φ j && matched j)) bs
          (union_with-Holds u _ (length ts) ψ (λ j. φ j && matched j) hu operand)
          (intersect_with-Holds cf _ (length ts) φ (λ j. not (φ j && matched j)) h
            (invert-Holds _ (length ts) (λ j. φ j && matched j) operand)))

-- On a stream shorter than 2 ^ 31, with no filter or with one of the length of the stream, and with
-- no existence map, `get_all_matches` of a well-formed predicate answers just the ids that the
-- filter lets through and at which the meaning of the predicate is true.
pub get_all_matches-meaning :
    {V : Type 0} (p : Predicate V) (ts : List (Tuple V)) (filter : Option TupleIdSequence)
    (φ : ℕ → Bool)
    → length ts < tuple_id_limit
    → IsBuilt p
    → Filters filter (length ts) φ
    → Holds
        (get_all_matches p (tuple_vector ts) filter none)
        (length ts)
        (λ j. φ j && meaning p (tuple_vector ts) j)
get_all_matches-meaning p ts filter φ small built h =
    Holds-ext _ (length ts) _ _
      (λ j lt. ground (arith, matches_for_single_tuple-meaning p (tuple_vector ts) j built))
      (all ts small p filter φ built h)
