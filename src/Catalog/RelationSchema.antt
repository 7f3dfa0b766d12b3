-- ===== src/Catalog/RelationSchema.antt =====
-- catalog/CatalogRelationSchema.cpp and catalog/CatalogAttribute.cpp. A pointer to an attribute that
-- the vector owns is its position. An id of -1 is `none`. The `next` indices are one more than the `current` ones of the code. Sizes wrap at 2 ^ 64.
pub mod Rebuild
pub mod RoundTrip
pub mod Sums
pub mod Added
pub mod Layout
use mathlib.Core.Option
use quickstep_streaming.Prelude.{
  ℕ, zero, suc, ◌+◌, ◌-◌, ◌%◌, Bool, true, false, ◌&&◌, not, Option, none, some, List, [], ◌∷◌,
  ◌++◌, ltb, ◌==◌, if◌then◌else◌, length, get_elem?, get_or, modify, replicate, take, map,
}
use quickstep_streaming.Common.TupleIdSequence.{size_t_mod}
use quickstep_streaming.Types.ValueType.{
  ValueType, maximum_bytes, minimum_bytes, average_bytes, is_variable_length,
}
use quickstep_streaming.Types.ValueType.Proto.{TypeProto, reconstruct_from_proto}
use quickstep_streaming.Types.ValueType.Proto as Proto
use quickstep_streaming.Utility.StringUtil.{Name, to_lower}
use quickstep_streaming.Utility.NameMap.{find, is_found, put}
use quickstep_streaming.Utility.PtrVector.{PtrVector, push_back, element_is_null}

pub record Attribute : Type 0 where
  pub id : Option ℕ
  pub name : Name
  pub display_name : Name
  pub attr_type : ValueType

abbrev pub max_id : ℕ
max_id = 2147483647

pub record Schema : Type 0 where
  pub id : Option ℕ
  pub name : Name
  pub temporary : Bool
  pub attr_vec : PtrVector Attribute
  pub attr_map : List (Name × ℕ)
  pub num_nullable_attributes : ℕ
  pub num_variable_length_attributes : ℕ
  pub max_byte_length : ℕ
  pub min_byte_length : ℕ
  pub estimated_byte_length : ℕ
  pub fixed_byte_length : ℕ
  pub max_variable_byte_length : ℕ
  pub min_variable_byte_length : ℕ
  pub min_variable_byte_length_excluding_nullable : ℕ
  pub estimated_variable_byte_length : ℕ
  pub fixed_length_attribute_offsets : List ℕ
  pub max_byte_lengths : List ℕ
  pub nullable_attribute_indices : List (Option ℕ)
  pub next_nullable_attribute_index : ℕ
  pub variable_length_attribute_indices : List (Option ℕ)
  pub next_variable_length_attribute_index : ℕ

-- `resize` of a vector.
unfoldable pub resize : List ℕ → ℕ → ℕ → List ℕ
resize xs n v = take n xs ++ replicate (n - length xs) v

unfoldable pub add_size : ℕ → ℕ → ℕ
add_size a b = (a + b) % size_t_mod

-- A new schema.
abbrev pub new_schema : Name → Option ℕ → Bool → Schema
new_schema name id temporary = record {
  id = id;
  name = name;
  temporary = temporary;
  attr_vec = [];
  attr_map = [];
  num_nullable_attributes = 0;
  num_variable_length_attributes = 0;
  max_byte_length = 0;
  min_byte_length = 0;
  estimated_byte_length = 0;
  fixed_byte_length = 0;
  max_variable_byte_length = 0;
  min_variable_byte_length = 0;
  min_variable_byte_length_excluding_nullable = 0;
  estimated_variable_byte_length = 0;
  fixed_length_attribute_offsets = [];
  max_byte_lengths = [];
  nullable_attribute_indices = [];
  next_nullable_attribute_index = 0;
  variable_length_attribute_indices = [];
  next_variable_length_attribute_index = 0;
}

-- The parts of `addAttribute`, after the check of the id.
unfoldable pub record_attribute : Schema → Attribute → Schema
record_attribute s a = record s {
  attr_map = put s.attr_map (to_lower a.name) (length s.attr_vec);
  attr_vec = push_back s.attr_vec (some (record a { id = some (length s.attr_vec) }));
}

unfoldable pub add_variable_length : ValueType → Schema → Schema
add_variable_length t s = record s {
  num_variable_length_attributes = s.num_variable_length_attributes + 1;
  variable_length_attribute_indices =
      s.variable_length_attribute_indices ++ some s.next_variable_length_attribute_index ∷ [];
  next_variable_length_attribute_index = s.next_variable_length_attribute_index + 1;
  max_variable_byte_length = add_size s.max_variable_byte_length (maximum_bytes t);
  min_variable_byte_length = add_size s.min_variable_byte_length (minimum_bytes t);
  min_variable_byte_length_excluding_nullable =
      if t.nullable
      then s.min_variable_byte_length_excluding_nullable
      else add_size s.min_variable_byte_length_excluding_nullable (minimum_bytes t);
  estimated_variable_byte_length = add_size s.estimated_variable_byte_length (average_bytes t);
}

unfoldable pub add_fixed_length : ℕ → ValueType → Schema → Schema
add_fixed_length id t s = record s {
  variable_length_attribute_indices = s.variable_length_attribute_indices ++ none ∷ [];
  fixed_length_attribute_offsets =
      resize s.fixed_length_attribute_offsets (id + 1) s.fixed_byte_length;
  fixed_byte_length = add_size s.fixed_byte_length (maximum_bytes t);
}

unfoldable pub add_lengths : ℕ → ValueType → Schema → Schema
add_lengths id t s = record s {
  max_byte_length = add_size s.max_byte_length (maximum_bytes t);
  min_byte_length = add_size s.min_byte_length (minimum_bytes t);
  estimated_byte_length = add_size s.estimated_byte_length (average_bytes t);
  max_byte_lengths = modify (resize s.max_byte_lengths (id + 1) 0) id (λ _. maximum_bytes t);
}

unfoldable pub add_nullable : ValueType → Schema → Schema
add_nullable t s =
    if t.nullable
    then record s {
      num_nullable_attributes = s.num_nullable_attributes + 1;
      nullable_attribute_indices =
          s.nullable_attribute_indices ++ some s.next_nullable_attribute_index ∷ [];
      next_nullable_attribute_index = s.next_nullable_attribute_index + 1;
    }
    else record s { nullable_attribute_indices = s.nullable_attribute_indices ++ none ∷ [] }

unfoldable pub added : Schema → Attribute → Schema
unfolding record_attribute add_nullable add_lengths add_variable_length add_fixed_length
added s a =
    let id : ℕ = length s.attr_vec in
    let t : ValueType = a.attr_type in
    let recorded : Schema = record_attribute s a in
    add_nullable t (
      add_lengths id t (
        if is_variable_length t
        then add_variable_length t recorded
        else add_fixed_length id t recorded))

-- `none` where `addAttribute` throws `CatalogIDOverflow`. No attribute of the name is there yet.
unfoldable pub add_attribute : Schema → Attribute → Option (Schema × ℕ)
add_attribute s a =
    let id : ℕ = length s.attr_vec in if ltb max_id id then none else some (added s a, id)

unfoldable pub has_attribute_with_name : Schema → Name → Bool
unfolding is_found
has_attribute_with_name s name = is_found (find s.attr_map (to_lower name))

unfoldable pub has_attribute_with_id : Schema → ℕ → Bool
has_attribute_with_id s id = ltb id (length s.attr_vec) && not (element_is_null s.attr_vec id)

-- The pointers that the lookups return.
unfoldable pub get_attribute_by_name : Schema → Name → Option ℕ
get_attribute_by_name s name = find s.attr_map (to_lower name)

unfoldable pub get_attribute_by_id : Schema → ℕ → Option ℕ
get_attribute_by_id s id = if has_attribute_with_id s id then some id else none

unfoldable pub gaps_in_attribute_sequence : Schema → Bool
gaps_in_attribute_sequence s = not (length s.attr_map == length s.attr_vec)

-- The protobuf messages. An attribute that is not there is a message that is not initialized.
pub record AttributeProto : Type 0 where
  pub name : Name
  pub attr_type : TypeProto
  pub display_name : Option Name

pub record SchemaProto : Type 0 where
  pub relation_id : Option ℕ
  pub name : Name
  pub temporary : Bool
  pub attributes : List (Option AttributeProto)

-- A display name that is empty is left out of the message.
unfoldable pub display_name_proto : Name → Option Name
display_name_proto [] = none
display_name_proto (c ∷ cs) = some (c ∷ cs)

unfoldable pub display_name_of_proto : Option Name → Name
display_name_of_proto none = []
display_name_of_proto (some name) = name

unfoldable pub get_attribute_proto : Attribute → AttributeProto
get_attribute_proto a = record {
  name = a.name;
  attr_type = Proto.get_proto a.attr_type;
  display_name = display_name_proto a.display_name;
}

unfoldable pub attribute_of_proto : AttributeProto → Attribute
attribute_of_proto p = record {
  id = none;
  name = p.name;
  display_name = display_name_of_proto p.display_name;
  attr_type = reconstruct_from_proto p.attr_type;
}

-- `ProtoIsValid` of an attribute and of the attributes of a schema.
unfoldable pub attributes_are_valid : List (Option AttributeProto) → Bool
attributes_are_valid [] = true
attributes_are_valid (none ∷ ps) = false
attributes_are_valid (some p ∷ ps) = Proto.proto_is_valid p.attr_type && attributes_are_valid ps

abbrev pub has_id : Option ℕ → Bool
has_id none = false
has_id (some id) = true

unfoldable pub proto_is_valid : SchemaProto → Bool
unfolding attributes_are_valid
proto_is_valid p = has_id p.relation_id && attributes_are_valid p.attributes

unfoldable pub get_proto : Schema → SchemaProto
get_proto s = record {
  relation_id = s.id;
  name = s.name;
  temporary = s.temporary;
  attributes = map (λ a. Option.map get_attribute_proto a) s.attr_vec;
}

-- What `addAttribute` throws ends the constructor.
unfoldable pub and_then : Option (Schema × ℕ) → (Schema → Option Schema) → Option Schema
and_then none next = none
and_then (some (s, id)) next = next s

-- The loop of the constructor over the attributes of the message.
unfoldable pub add_attributes : List (Option AttributeProto) → Schema → Option Schema
add_attributes [] s = some s
add_attributes (none ∷ ps) s = add_attributes ps (record s { attr_vec = push_back s.attr_vec none })
add_attributes (some p ∷ ps) s =
    and_then (add_attribute s (attribute_of_proto p)) (add_attributes ps)

unfoldable pub schema_of_proto : SchemaProto → Option Schema
schema_of_proto p =
    add_attributes p.attributes (record (new_schema p.name p.relation_id p.temporary) {
      max_byte_lengths = replicate (length p.attributes) 0;
    })
