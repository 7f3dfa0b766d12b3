-- ===== src/Types/ValueType/Proto.antt =====
-- The protobuf messages of types: `getProto` in types/Type.cpp, types/CharType.cpp and
-- types/VarCharType.cpp, and types/TypeFactory.cpp.
use quickstep_streaming.Prelude.{ℕ, Bool, true, false, Option, none, some}
use quickstep_streaming.Types.ValueType.{
  k_int, k_long, k_float, k_double, k_char, k_var_char, k_date, k_datetime, k_datetime_interval,
  k_year_month_interval, k_null_type, TypeId, ValueType, instance_of, string_instance,
}

-- The enumerators of the message.
pub data ProtoTypeId : Type 0 where
  proto_int proto_long proto_float proto_double : ProtoTypeId
  proto_char proto_var_char proto_datetime proto_datetime_interval : ProtoTypeId
  proto_year_month_interval proto_null_type proto_date : ProtoTypeId

-- The message, of which the two required fields are there.
pub record TypeProto : Type 0 where
  pub type_id : ProtoTypeId
  pub nullable : Bool
  pub char_length : Option ℕ
  pub var_char_length : Option ℕ

abbrev pub plain_proto : ProtoTypeId → Bool → TypeProto
plain_proto id nullable = record {
  type_id = id;
  nullable = nullable;
  char_length = none;
  var_char_length = none;
}

abbrev pub char_proto : ℕ → Bool → TypeProto
char_proto length nullable = record (plain_proto proto_char nullable) { char_length = some length }

abbrev pub var_char_proto : ℕ → Bool → TypeProto
var_char_proto length nullable = record (plain_proto proto_var_char nullable) {
  var_char_length = some length;
}

-- The switch of `Type::getProto`, with the two methods that override it.
abbrev pub proto_of : TypeId → ValueType → TypeProto
proto_of k_int t = plain_proto proto_int t.nullable
proto_of k_long t = plain_proto proto_long t.nullable
proto_of k_float t = plain_proto proto_float t.nullable
proto_of k_double t = plain_proto proto_double t.nullable
proto_of k_char t = char_proto t.string_length t.nullable
proto_of k_var_char t = var_char_proto t.string_length t.nullable
proto_of k_date t = plain_proto proto_date t.nullable
proto_of k_datetime t = plain_proto proto_datetime t.nullable
proto_of k_datetime_interval t = plain_proto proto_datetime_interval t.nullable
proto_of k_year_month_interval t = plain_proto proto_year_month_interval t.nullable
proto_of k_null_type t = plain_proto proto_null_type t.nullable

unfoldable pub get_proto : ValueType → TypeProto
get_proto t = proto_of t.type_id t

abbrev pub is_set : Option ℕ → Bool
is_set none = false
is_set (some n) = true

abbrev pub id_is_valid : ProtoTypeId → TypeProto → Bool
id_is_valid proto_char p = is_set p.char_length
id_is_valid proto_var_char p = is_set p.var_char_length
id_is_valid proto_null_type p = p.nullable
id_is_valid _ p = true

unfoldable pub proto_is_valid : TypeProto → Bool
proto_is_valid p = id_is_valid p.type_id p

-- `GetExtension`, which reads 0 where nothing is set.
abbrev pub get_extension : Option ℕ → ℕ
get_extension none = 0
get_extension (some n) = n

-- The switch of `ReconstructFromProto`.
abbrev pub type_of : ProtoTypeId → TypeProto → ValueType
type_of proto_int p = instance_of k_int p.nullable
type_of proto_long p = instance_of k_long p.nullable
type_of proto_float p = instance_of k_float p.nullable
type_of proto_double p = instance_of k_double p.nullable
type_of proto_char p = string_instance k_char (get_extension p.char_length) p.nullable
type_of proto_var_char p = string_instance k_var_char (get_extension p.var_char_length) p.nullable
type_of proto_date p = instance_of k_date p.nullable
type_of proto_datetime p = instance_of k_datetime p.nullable
type_of proto_datetime_interval p = instance_of k_datetime_interval p.nullable
type_of proto_year_month_interval p = instance_of k_year_month_interval p.nullable
type_of proto_null_type p = instance_of k_null_type true

unfoldable pub reconstruct_from_proto : TypeProto → ValueType
reconstruct_from_proto p = type_of p.type_id p
