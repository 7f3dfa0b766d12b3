-- ===== src/Tests/Catalogs.antt =====
-- Schemas and a database with two relations and a gap.
use quickstep_streaming.Prelude.{ℕ, ◌≡◌, refl, true, false, some, none, [], ◌∷◌, arith}
use quickstep_streaming.Utility.StringUtil.{Name, to_lower, same_name}
use quickstep_streaming.Utility.NameMap.{find, put, erase}
use quickstep_streaming.Utility.PtrVector.{
  PtrVector, push_back, delete_element, begin_skip, skip_loop,
}
use quickstep_streaming.Utility.PtrVector.Skipping.{skip_loop-elements}
use quickstep_streaming.Types.ValueType.{
  ValueType, k_int, k_var_char, instance_of, string_instance, is_variable_length,
}
use quickstep_streaming.Catalog.RelationSchema.{Attribute, Schema, new_schema, added, add_attribute}
use quickstep_streaming.Catalog.RelationSchema.Layout.{
  HasLayout, add_attribute-HasLayout, new_schema-HasLayout,
}
use quickstep_streaming.Catalog.Database.{
  Database, ok, throw, relation_name_collision, new_database, add_relation,
}
use quickstep_streaming.Catalog.Database.Consistent.{
  IsConsistent, taken, taken-IsConsistent, dropped, dropped-IsConsistent, new_database-IsConsistent,
}
use quickstep_streaming.Catalog.Database.Naming.{
  Adds, DropsByName, DropsById, add_relation-named, drop_relation_by_name-named,
  drop_relation_by_id-name,
}

abbrev int_type : ValueType
int_type = instance_of k_int true

abbrev text_type : ValueType
text_type = string_instance k_var_char 10 false

abbrev attribute : Name → ValueType → Attribute
attribute name t = record { id = none; name = name; display_name = []; attr_type = t }

abbrev one_column : Schema
one_column = added (new_schema (65 ∷ 66 ∷ []) none false) (attribute (67 ∷ []) text_type)

abbrev two_columns : Schema
two_columns = added one_column (attribute (68 ∷ []) int_type)

one_column-HasLayout : HasLayout (text_type ∷ []) one_column
one_column-HasLayout =
    (add_attribute-HasLayout [] (new_schema (65 ∷ 66 ∷ []) none false)
      (attribute (67 ∷ []) text_type) (new_schema-HasLayout (65 ∷ 66 ∷ []) none false)
      (omega arith)).1

add_attribute-HasLayout_example :
    (add_attribute one_column (attribute (68 ∷ []) int_type) ≡ some (two_columns, 1))
    × HasLayout (text_type ∷ int_type ∷ []) two_columns
add_attribute-HasLayout_example =
    add_attribute-HasLayout (text_type ∷ []) one_column (attribute (68 ∷ []) int_type)
      one_column-HasLayout (omega arith)

-- The schema with two columns as the first relation of a database.
abbrev placed_columns : Schema
placed_columns = record two_columns { id = some 0 }

abbrev gapped : PtrVector ℕ
gapped = none ∷ some 5 ∷ none ∷ []

skip_loop-elements_example : skip_loop 3 gapped (begin_skip gapped) ≡ some (5 ∷ [])
skip_loop-elements_example = skip_loop-elements gapped 3 (omega arith)

abbrev no_relations : Database
no_relations = new_database (100 ∷ [])

abbrev one_relation : Database
one_relation = taken no_relations two_columns

abbrev two_relations : Database
two_relations = taken one_relation (new_schema (90 ∷ []) none true)

one_relation-IsConsistent : IsConsistent one_relation
unfolding find to_lower added
one_relation-IsConsistent =
    taken-IsConsistent no_relations two_columns (new_database-IsConsistent (100 ∷ [])) refl

two_relations-IsConsistent : IsConsistent two_relations
unfolding find put to_lower same_name added is_variable_length push_back
two_relations-IsConsistent =
    taken-IsConsistent one_relation (new_schema (90 ∷ []) none true) one_relation-IsConsistent refl

abbrev with_gap : Database
with_gap = dropped two_relations (97 ∷ 98 ∷ []) 0

with_gap-IsConsistent : IsConsistent with_gap
unfolding find put to_lower same_name added is_variable_length push_back
with_gap-IsConsistent =
    dropped-IsConsistent two_relations (97 ∷ 98 ∷ []) 0 two_relations-IsConsistent refl

add_relation-named_example : Adds one_relation (new_schema (90 ∷ []) none true)
add_relation-named_example =
    add_relation-named one_relation one_relation-IsConsistent (new_schema (90 ∷ []) none true)

drop_relation_by_name-named_example : DropsByName two_relations (65 ∷ 66 ∷ [])
drop_relation_by_name-named_example =
    drop_relation_by_name-named two_relations two_relations-IsConsistent (65 ∷ 66 ∷ [])

drop_relation_by_id-name_example : DropsById with_gap 1
drop_relation_by_id-name_example = drop_relation_by_id-name with_gap with_gap-IsConsistent 1

new_name : add_relation with_gap two_columns ≡ ok (taken with_gap two_columns, 2)
unfolding add_relation find put erase to_lower same_name added is_variable_length push_back
    delete_element
new_name = refl

old_name : add_relation two_relations two_columns ≡ throw relation_name_collision
unfolding add_relation find put erase to_lower same_name added is_variable_length push_back
old_name = refl
