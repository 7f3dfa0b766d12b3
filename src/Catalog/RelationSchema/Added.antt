-- ===== src/Catalog/RelationSchema/Added.antt =====
-- What `addAttribute` does to the fields that describe the layout.
use quickstep_streaming.Prelude.{
  ◌+◌, ◌%◌, ◌≡◌, none, some, [], ◌∷◌, ◌++◌, if◌then◌else◌, length, arith, length-append,
}
use quickstep_streaming.Common.TupleIdSequence.{size_t_mod}
use quickstep_streaming.Utility.PtrVector.{push_back}
use quickstep_streaming.Catalog.RelationSchema.{Attribute, Schema, resize, add_size, added}
use quickstep_streaming.Types.ValueType.{ValueType, is_variable_length, maximum_bytes}
use quickstep_streaming.Catalog.RelationSchema.Sums.{one_if}

module _ (s : Schema) (a : Attribute) where
  abbrev pub the_type : ValueType
  the_type = a.attr_type

  pub added-fixed : (added s a).fixed_byte_length ≡ (
      if is_variable_length the_type
      then s.fixed_byte_length
      else (s.fixed_byte_length + maximum_bytes the_type) % size_t_mod)
  unfolding added add_size
  added-fixed = ground arith

  pub added-offsets : (added s a).fixed_length_attribute_offsets ≡ (
      if is_variable_length the_type
      then s.fixed_length_attribute_offsets
      else resize s.fixed_length_attribute_offsets (length s.attr_vec + 1) s.fixed_byte_length)
  unfolding added
  added-offsets = ground arith

  pub added-nullable :
      (added s a).nullable_attribute_indices
      ≡ s.nullable_attribute_indices
        ++ (if the_type.nullable then some s.next_nullable_attribute_index else none) ∷ []
  unfolding added
  added-nullable = ground arith

  pub added-next_nullable :
      (added s a).next_nullable_attribute_index
      ≡ s.next_nullable_attribute_index + one_if the_type.nullable
  unfolding added
  added-next_nullable = ground arith

  pub added-variable :
      (added s a).variable_length_attribute_indices
      ≡ s.variable_length_attribute_indices
        ++ (if is_variable_length the_type
            then some s.next_variable_length_attribute_index
            else none)
          ∷ []
  unfolding added
  added-variable = ground arith

  pub added-next_variable :
      (added s a).next_variable_length_attribute_index
      ≡ s.next_variable_length_attribute_index + one_if (is_variable_length the_type)
  unfolding added
  added-next_variable = ground arith

  pub added-size : length (added s a).attr_vec ≡ length s.attr_vec + 1
  unfolding added push_back
  added-size =
      ground
        (arith, length-append s.attr_vec (some (record a { id = some (length s.attr_vec) }) ∷ []))
