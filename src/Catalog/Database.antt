-- ===== src/Catalog/Database.antt =====
-- catalog/CatalogDatabase.cpp and its header. A pointer to a relation that the vector owns is its
-- position. Each method runs under the lock of the relations, so it is one step.
pub mod Consistent
pub mod Naming
pub mod Same
pub mod RoundTrip
use quickstep_streaming.Prelude.{
  ℕ, zero, suc, ◌+◌, ◌-◌, ◌%◌, Bool, true, false, ◌&&◌, not, Option, none, some, List, [], ◌∷◌,
  ◌++◌, ltb, ◌==◌, if◌then◌else◌, length, get_or,
}
use quickstep_streaming.Utility.StringUtil.{Name, to_lower}
use quickstep_streaming.Utility.NameMap.{find, is_found, put, erase}
use quickstep_streaming.Utility.PtrVector.{PtrVector, push_back, element_is_null, delete_element}
use quickstep_streaming.Catalog.RelationSchema.{
  Schema, SchemaProto, max_id, get_proto, schema_of_proto,
}
use quickstep_streaming.Catalog.RelationSchema as RelationSchema

-- What the methods throw. `bad_message` stands for a read past the relations of a message, which the
-- code does not check.
pub data Error : Type 0 where
  relation_name_collision relation_name_not_found relation_id_not_found id_overflow bad_message :
      Error

pub data Result {ℓ} (A : Type ℓ) : Type ℓ where
  ok : A → Result A
  throw : Error → Result A

-- A `relation_id` is signed.
pub data RelationId : Type 0 where
  pos : ℕ → RelationId
  negsuc : ℕ → RelationId

pub record Database : Type 0 where
  pub name : Name
  pub rel_vec : PtrVector Schema
  pub rel_map : List (Name × ℕ)

abbrev pub new_database : Name → Database
new_database name = record { name = name; rel_vec = []; rel_map = [] }

unfoldable pub has_relation_with_name : Database → Name → Bool
unfolding is_found
has_relation_with_name db name = is_found (find db.rel_map (to_lower name))

unfoldable pub id_in_range : Database → RelationId → Bool
id_in_range db (pos id) = ltb id (length db.rel_vec)
id_in_range db (negsuc id) = false

unfoldable pub has_relation_at : Database → ℕ → Bool
unfolding id_in_range
has_relation_at db id = id_in_range db (pos id) && not (element_is_null db.rel_vec id)

unfoldable pub has_relation_with_id : Database → RelationId → Bool
unfolding has_relation_at
has_relation_with_id db (pos id) = has_relation_at db id
has_relation_with_id db (negsuc id) = false

unfoldable pub relation_at : Database → ℕ → Option Schema
relation_at db i = get_or db.rel_vec i none

unfoldable pub get_relation_by_name : Database → Name → Option ℕ
get_relation_by_name db name = find db.rel_map (to_lower name)

unfoldable pub get_relation_by_id : Database → RelationId → Option ℕ
unfolding has_relation_with_id
get_relation_by_id db (pos id) = if has_relation_with_id db (pos id) then some id else none
get_relation_by_id db (negsuc id) = none

abbrev pub with_id : Schema → ℕ → Schema
with_id r id = record r { id = some id }

unfoldable pub add_relation : Database → Schema → Result (Database × ℕ)
unfolding has_relation_with_name push_back
add_relation db r =
    let lower : Name = to_lower r.name in
    let id : ℕ = length db.rel_vec in
    if has_relation_with_name db lower
    then throw relation_name_collision
    else if ltb max_id id
    then throw id_overflow
    else ok (
      record db {
        rel_map = put db.rel_map lower id;
        rel_vec = push_back db.rel_vec (some (with_id r id));
      },
      id,
    )

-- `none` is the id -1 of a relation that no database has taken, past the end of any vector.
unfoldable pub drop_at : Database → Name → Option ℕ → Database
unfolding delete_element
drop_at db lower none = record db { rel_map = erase db.rel_map lower }
drop_at db lower (some id) = record db {
  rel_vec = delete_element db.rel_vec id;
  rel_map = erase db.rel_map lower;
}

-- The id of the relation that a pointer leads to.
unfoldable pub id_of : Option Schema → Option ℕ
id_of none = none
id_of (some r) = r.id

unfoldable pub drop_found : Database → Name → Option ℕ → Result Database
unfolding drop_at id_of relation_at
drop_found db lower none = throw relation_name_not_found
drop_found db lower (some i) = ok (drop_at db lower (id_of (relation_at db i)))

unfoldable pub drop_relation_by_name : Database → Name → Result Database
unfolding drop_found
drop_relation_by_name db name = drop_found db (to_lower name) (find db.rel_map (to_lower name))

unfoldable pub name_of : Option Schema → Name
name_of none = []
name_of (some r) = r.name

unfoldable pub drop_relation_by_id : Database → RelationId → Result Database
unfolding has_relation_with_id delete_element name_of relation_at
drop_relation_by_id db (pos id) =
    if has_relation_with_id db (pos id)
    then ok (record db {
      rel_map = erase db.rel_map (to_lower (name_of (relation_at db id)));
      rel_vec = delete_element db.rel_vec id;
    })
    else throw relation_id_not_found
drop_relation_by_id db (negsuc id) = throw relation_id_not_found

unfoldable pub size : Database → ℕ
size db = length db.rel_map

-- The protobuf message.
pub record DatabaseProto : Type 0 where
  pub name : Name
  pub null_relations : List ℕ
  pub relations : List SchemaProto

-- The loop of `getProto` from position `i` on.
unfoldable pub proto_nulls : PtrVector Schema → ℕ → List ℕ
proto_nulls [] i = []
proto_nulls (none ∷ v) i = i ∷ proto_nulls v (suc i)
proto_nulls (some r ∷ v) i = proto_nulls v (suc i)

unfoldable pub proto_relations : PtrVector Schema → List SchemaProto
proto_relations [] = []
proto_relations (none ∷ v) = proto_relations v
proto_relations (some r ∷ v) = RelationSchema.get_proto r ∷ proto_relations v

unfoldable pub get_database_proto : Database → DatabaseProto
unfolding proto_nulls proto_relations
get_database_proto db = record {
  name = db.name;
  null_relations = proto_nulls db.rel_vec 0;
  relations = proto_relations db.rel_vec;
}

unfoldable pub without_id : Result (Database × ℕ) → Result Database
without_id (ok (db, id)) = ok db
without_id (throw e) = throw e

-- A relation of the message is built and added. Its attributes are too many, or its name is taken.
unfoldable pub add_from_proto : Database → Option Schema → Result Database
unfolding add_relation without_id
add_from_proto db none = throw id_overflow
add_from_proto db (some r) = without_id (add_relation db r)

-- The test of the constructor for the next index of a relation that is not there.
unfoldable pub is_next : List ℕ → ℕ → Bool
is_next [] i = false
is_next (n ∷ nulls) i = i == n

unfoldable pub others {ℓ} : {A : Type ℓ} → List A → List A
others [] = []
others (x ∷ xs) = xs

unfoldable pub add_next : List SchemaProto → Database → Result Database
unfolding add_from_proto
add_next [] db = throw bad_message
add_next (p ∷ rels) db = add_from_proto db (RelationSchema.schema_of_proto p)

unfoldable pub and_then : Result Database → (Database → Result Database) → Result Database
and_then (ok db) next = next db
and_then (throw e) next = throw e

-- The loop of the constructor from index `i` on, `count` of them, with the nulls and the relations
-- that are left of the message.
unfoldable pub add_protos : ℕ → ℕ → List ℕ → List SchemaProto → Database → Result Database
unfolding is_next others add_next and_then push_back
add_protos zero i nulls rels db = ok db
add_protos (suc count) i nulls rels db =
    let skip =
      add_protos count (suc i) (others nulls) rels
        (record db { rel_vec = push_back db.rel_vec none }) in
    let add = and_then (add_next rels db) (add_protos count (suc i) nulls (others rels)) in
    if is_next nulls i then skip else add

-- The bound of the loop, an `int`, of which the low 32 bits are kept. Below a negative one there is
-- nothing to do.
unfoldable pub loop_bound : ℕ → ℕ
loop_bound n = let low = n % 4294967296 in if ltb max_id low then 0 else low

unfoldable pub database_of_proto : DatabaseProto → Result Database
unfolding add_protos loop_bound
database_of_proto p =
    add_protos (loop_bound (length p.null_relations + length p.relations)) 0 p.null_relations
      p.relations (new_database p.name)
