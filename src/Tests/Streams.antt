-- ===== src/Tests/Streams.antt =====
-- The select operator on a small stream.
use quickstep_streaming.Prelude.{ℕ, ◌+◌, ◌≡◌, refl, [], ◌∷◌, map, none, some}
use quickstep_streaming.Expressions.Predicate.{comparison}
use quickstep_streaming.StreamingOperators.Select.{
  SelectSpec, select_spec, select_of_attributes, open_operator, next,
}
use quickstep_streaming.StreamingOperators.Select.Kept.{AllBuilt}
use quickstep_streaming.StreamingOperators.Select.Outputs.{selected, AllSmall}
use quickstep_streaming.StreamingOperators.Select.Protocol.{
  opened, Steps, done, call, next_after_calls, open_count, close_count, is_open,
  open_count-close_count,
}
use quickstep_streaming.Tests.Predicates.{below_six, stream, stream-small, comparison-IsBuilt}

abbrev spec : SelectSpec ℕ
spec = select_of_attributes (comparison below_six ∷ []) (0 ∷ [])

spec-AllBuilt : AllBuilt spec.predicates
unfolding AllBuilt
spec-AllBuilt = (comparison-IsBuilt, tt)

inputs-AllSmall : AllSmall (stream ∷ [])
unfolding AllSmall
inputs-AllSmall = (stream-small, tt)

calls : Steps none (some spec)
unfolding open_operator
calls = call (opened (select_spec spec) spec-AllBuilt refl) done

next_after_calls_example : next (some spec) (stream ∷ []) ≡ some (map (selected spec) (stream ∷ []))
next_after_calls_example = next_after_calls spec (stream ∷ []) calls inputs-AllSmall

open_count-close_count_example : open_count calls ≡ is_open (some spec) + close_count calls
open_count-close_count_example = open_count-close_count (some spec) calls
