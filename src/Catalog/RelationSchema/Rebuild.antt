-- ===== src/Catalog/RelationSchema/Rebuild.antt =====
-- The constructor from a protobuf message adds the attributes again.
use mathlib.Core.Option
use mathlib.Core.List.{map-append}
use quickstep_streaming.Prelude.{
  ℕ, ◌≡◌, refl, sym, ap, ap₂, ◌∙◌, subst, Bool, false, inl, inr, Option, none, some, List, [], ◌∷◌,
  ◌++◌, map, ltb, length, arith, Bool-cases,
}
use quickstep_streaming.Utility.StringUtil.{Name}
use quickstep_streaming.Utility.PtrVector.{push_back}
use quickstep_streaming.Types.ValueType.Messages.{IsMade, reconstruct_from_proto-get_proto}
use quickstep_streaming.Catalog.RelationSchema.{
  Attribute, Schema, AttributeProto, new_schema, added, add_attribute, get_attribute_proto,
  attribute_of_proto, add_attributes, max_id, and_then, display_name_proto, display_name_of_proto,
}

-- The schemas that the program can build: by the constructor, by adding attributes of types that the
-- factory gives, and by being given an id when a database takes them.
pub data IsBuilt : Schema → Type 0 where
  fresh : (name : Name) (id : Option ℕ) (temporary : Bool) → IsBuilt (new_schema name id temporary)
  extended :
      {s t : Schema} {i : ℕ} (a : Attribute)
      → IsMade a.attr_type
      → IsBuilt s
      → add_attribute s a ≡ some (t, i)
      → IsBuilt t
  placed : {s : Schema} (id : Option ℕ) → IsBuilt s → IsBuilt (record s { id = id })

display_name_of_proto-display_name_proto :
    (d : Name) → display_name_of_proto (display_name_proto d) ≡ d
unfolding display_name_of_proto display_name_proto
display_name_of_proto-display_name_proto [] = refl
display_name_of_proto-display_name_proto (c ∷ cs) = refl

attribute_of_proto-get_attribute_proto :
    (a : Attribute)
    → IsMade a.attr_type
    → attribute_of_proto (get_attribute_proto a) ≡ record a { id = none }
unfolding attribute_of_proto get_attribute_proto
attribute_of_proto-get_attribute_proto a made =
    ap₂ (λ d t. record a { id = none; display_name = d; attr_type = t })
      (display_name_of_proto-display_name_proto a.display_name)
      (reconstruct_from_proto-get_proto a.attr_type made).0

-- The id that an attribute had does not matter.
added-id : (s : Schema) (a : Attribute) (id : Option ℕ) → added s (record a { id = id }) ≡ added s a
unfolding added
added-id s a id = refl

abbrev pub protos : List (Option Attribute) → List (Option AttributeProto)
protos v = map (λ a. Option.map get_attribute_proto a) v

pub add_attribute-eq :
    (s t : Schema) (i : ℕ) (a : Attribute)
    → add_attribute s a ≡ some (t, i)
    → (t ≡ added s a) × (ltb max_id (length s.attr_vec) ≡ false)
unfolding add_attribute
add_attribute-eq s t i a h = elim (Bool-cases (ltb max_id (length s.attr_vec))) [
  | inl e ↦ absurd (ground arith)
  | inr e ↦ (ground arith, e)
]

pub and_then-added :
    (s : Schema) (a : Attribute) (next : Schema → Option Schema)
    → ltb max_id (length s.attr_vec) ≡ false
    → and_then (add_attribute s a) next ≡ next (added s a)
unfolding add_attribute and_then
and_then-added s a next e = rw e refl

one_more :
    (s : Schema) (a : Attribute) (id : Option ℕ)
    → IsMade a.attr_type
    → ltb max_id (length s.attr_vec) ≡ false
    → add_attributes (some (get_attribute_proto (record a { id = id })) ∷ []) s ≡ some (added s a)
unfolding add_attributes
one_more s a id made e =
    ap (λ b. and_then (add_attribute s b) some)
      (attribute_of_proto-get_attribute_proto (record a { id = id }) made)
    ∙ and_then-added s (record a { id = none }) some e
    ∙ ap some (added-id s a none)

and_then-goes_on :
    (r : Option (Schema × ℕ)) (next others : Schema → Option Schema) (t : Schema)
    (x : Option Schema)
    → ((u : Schema) → next u ≡ some t → others u ≡ x)
    → and_then r next ≡ some t
    → and_then r others ≡ x
unfolding and_then
and_then-goes_on none next others t x step h = cc
and_then-goes_on (some (u, id)) next others t x step h = step u h

add_attributes-append :
    (ps qs : List (Option AttributeProto)) (s t : Schema)
    → add_attributes ps s ≡ some t
    → add_attributes (ps ++ qs) s ≡ add_attributes qs t
unfolding add_attributes
add_attributes-append [] qs s t h = ap (add_attributes qs) (ground arith)
add_attributes-append (none ∷ ps) qs s t h = add_attributes-append ps qs _ t h
add_attributes-append (some p ∷ ps) qs s t h =
    and_then-goes_on (add_attribute s (attribute_of_proto p)) (add_attributes ps)
      (add_attributes (ps ++ qs)) t (add_attributes qs t) (λ u k. add_attributes-append ps qs u t k)
      h

-- The id of a relation has no part in adding attributes.
abbrev place : Option ℕ → Schema → Schema
place id s = record s { id = id }

added-place :
    (s : Schema) (a : Attribute) (id : Option ℕ) → added (place id s) a ≡ place id (added s a)
unfolding added
added-place s a id = ground arith

and_then-place :
    (s : Schema) (a : Attribute) (id : Option ℕ) (next : Schema → Option Schema) (t : Schema)
    → ((u : Schema) → next u ≡ some t → next (place id u) ≡ some (place id t))
    → and_then (add_attribute s a) next ≡ some t
    → and_then (add_attribute (place id s) a) next ≡ some (place id t)
unfolding add_attribute and_then
and_then-place s a id next t step h = elim (Bool-cases (ltb max_id (length s.attr_vec))) [
  | inl e ↦ absurd (ground arith)
  | inr e ↦ rw (e, added-place s a id) (step (added s a) (rw e at h))
]

add_attributes-place :
    (ps : List (Option AttributeProto)) (s t : Schema) (id : Option ℕ)
    → add_attributes ps s ≡ some t
    → add_attributes ps (place id s) ≡ some (place id t)
unfolding add_attributes push_back
add_attributes-place [] s t id h = ground arith
add_attributes-place (none ∷ ps) s t id h = add_attributes-place ps _ t id h
add_attributes-place (some p ∷ ps) s t id h =
    and_then-place s (attribute_of_proto p) id (add_attributes ps) t
      (λ u k. add_attributes-place ps u t id k) h

-- What the constructor makes of the attributes, but for the lengths that it starts with.
abbrev pub rebuild : Schema → Option Schema
rebuild s = add_attributes (protos s.attr_vec) (new_schema s.name s.id s.temporary)

rebuild_fresh :
    (name : Name) (id : Option ℕ) (temporary : Bool)
    → rebuild (new_schema name id temporary) ≡ some (new_schema name id temporary)
unfolding add_attributes
rebuild_fresh name id temporary = refl

pub added_keeps :
    (s : Schema) (a : Attribute)
    → ((added s a).attr_vec ≡ s.attr_vec ++ some (record a { id = some (length s.attr_vec) }) ∷ [])
      × (new_schema (added s a).name (added s a).id (added s a).temporary
          ≡ new_schema s.name s.id s.temporary)
unfolding added push_back
added_keeps s a = (ground arith, ground arith)

rebuild-added :
    (s : Schema) (a : Attribute)
    → IsMade a.attr_type
    → ltb max_id (length s.attr_vec) ≡ false
    → rebuild s ≡ some s
    → rebuild (added s a) ≡ some (added s a)
rebuild-added s a made fits h =
    let new : Option Attribute = some (record a { id = some (length s.attr_vec) }) in
    ap₂ add_attributes (ap protos (added_keeps s a).0 ∙ map-append _ s.attr_vec (new ∷ []))
      (added_keeps s a).1
    ∙ add_attributes-append (protos s.attr_vec) (protos (new ∷ [])) _ s h
    ∙ one_more s a (some (length s.attr_vec)) made fits

pub rebuild_lem : (s : Schema) → IsBuilt s → rebuild s ≡ some s
rebuild_lem s (fresh name id temporary) = rebuild_fresh name id temporary
rebuild_lem s (extended {s = old} {i = i} a made b e) =
    let (t, fits) = add_attribute-eq old s i a e in
    subst (λ k. rebuild k ≡ some k) (sym t) (rebuild-added old a made fits (rebuild_lem old b))
rebuild_lem s (placed {s = old} id b) =
    add_attributes-place (protos old.attr_vec) (new_schema old.name old.id old.temporary) old id
      (rebuild_lem old b)
