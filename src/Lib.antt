-- ===== src/Lib.antt =====
-- A model of Quickstep Streaming's evaluation of streaming selects, and of its window aggregation.
--
-- A select operator (streaming_operators/StreamingSelectOperator.cpp, its specification in
-- query_specs/SelectSpec.hpp) takes batches of tuples. It evaluates the predicates
-- (expressions/predicate/) on each batch with `getAllMatches`, one after the other, each with what
-- the former left as its filter. A comparison reads columns of scalars (expressions/scalar/) or
-- attributes through a value accessor (types/containers/) and compares them with an unchecked
-- comparator (types/operations/comparisons/). The result is a set of tuple ids
-- (common/TupleIdSequence.hpp), which is a bit vector (utility/BitVector.hpp) on machine words
-- (utility/BitManipulation.hpp). The operator projects the tuples that are left.
--
-- Prelude: the shared names, tests and lemmas on lists.
-- Utility/Word, Utility/BitVector: utility/BitManipulation.hpp and utility/BitVector.hpp. A word is
--   the list of its 64 bits from the most significant; an operation is named as its method.
-- Common/TupleIdSequence: common/TupleIdSequence.hpp, with the iterators as positions; the loops
--   over them have the sequence's length as fuel, which `ids-members` shows to be enough.
-- Types/Values, Types/Accessor: types/TypedValue.hpp, types/containers/Tuple.hpp and the accessors.
--   The C++ type of the literals is the type `V`; NULL is a constructor. The position of an
--   accessor is a `size_t`, which wraps at 2 ^ 64; lengths, ids and absolute positions are
--   `tuple_id`s (basics/Common.hpp), which are `int`s. `to_tuple_id` narrows to one, and the
--   theorems on streams take them to be shorter than 2 ^ 31.
-- Types/ValueType, Types/StringCoercion: types/Type.hpp, types/TypeFactory.cpp and the classes of
--   types. A type has one instance, which is the record of its members; the dispatch on the class is
--   by the id. The enumerators of the messages (types/Type.proto) are a type of their own, with the
--   switches between the two. The methods of strings work on lists of bytes.
-- Types/Comparator: `LiteralUncheckedComparator`, with the functor as a parameter, and what it
--   would answer on a null pointer as another.
-- Types/DateOperators: the sums of dates and year-month intervals in
--   types/DateOperatorOverloads.hpp.
-- Expressions/Scalar, Expressions/Comparison, Expressions/Predicate: expressions/scalar/ and
--   expressions/predicate/, with QUICKSTEP_ENABLE_VECTOR_PREDICATE_SHORT_CIRCUIT and
--   QUICKSTEP_ENABLE_VECTOR_COPY_ELISION_SELECTION set, as CMakeLists.txt has them.
-- Expressions/WindowAggregation: expressions/window_aggregation/WindowAggregationHandle.cpp and
--   WindowAggregationHandleAvg.cpp. The operators of the argument's type are a record; the loops
--   have fuel, and the theorems say how much is enough.
-- StreamingOperators/Select: the operator as a state machine. A specification well formed is one
--   whose predicates have flags that agree with their operands, which is what the constructors and
--   `addPredicate` keep.
-- Threading/SpinSharedMutex: threading/SpinSharedMutex.hpp, a separate part: the steps of any number
--   of threads, one atomic operation each.
-- Utility/Dag: utility/DAG.hpp. The recursion of `hasCycleHelper` and the rounds of
--   `computeStageSequence` have fuel; as much as there are nodes is enough.
-- Utility/PtrVector, Utility/StringUtil, Utility/NameMap: utility/PtrVector.hpp,
--   utility/StringUtil.cpp and the hash map from names, as far as the catalog uses them.
-- Catalog/RelationSchema, Catalog/Database: catalog/CatalogRelationSchema.cpp,
--   catalog/CatalogAttribute.cpp and catalog/CatalogDatabase.cpp, with their protobuf messages as records. A pointer to what a
--   vector owns is its position.
-- Tests: runs on small inputs.
--
-- Not modelled: memory and ownership, the bytes of protobuf messages, printing and system calls,
-- which are the business of libraries; arithmetic and coercion of numbers, which needs floating
-- point; and, so far, scalars other than attributes and literals, joins, the class `Catalog`, the
-- parsing of intervals, the searches of bit vectors from the end and the shifts of their tails, the
-- other locks and utilities.

pub mod Prelude
pub mod Utility
pub mod Catalog
pub mod Common
pub mod Types
pub mod Expressions
pub mod StreamingOperators
pub mod Threading
pub mod Tests
