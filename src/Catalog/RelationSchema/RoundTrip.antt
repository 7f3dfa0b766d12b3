-- ===== src/Catalog/RelationSchema/RoundTrip.antt =====
-- A schema comes back from its protobuf message.
use quickstep_streaming.Prelude.{
  ℕ, suc, ◌-◌, ◌≡◌, refl, sym, ap, ◌∙◌, Bool, Option, none, some, List, [], ◌∷◌, ◌++◌, length,
  replicate, arith,
}
use quickstep_streaming.Utility.StringUtil.{Name}
use quickstep_streaming.Catalog.RelationSchema.{
  Attribute, Schema, AttributeProto, new_schema, resize, added, attribute_of_proto, get_proto,
  add_attributes, schema_of_proto,
}
use quickstep_streaming.Catalog.RelationSchema.Rebuild.{
  IsBuilt, fresh, extended, placed, protos, add_attribute-eq, and_then-added, rebuild_lem,
  added_keeps,
}

append-none :
    (v w : List (Option Attribute)) (a : Attribute)
    → v ++ some a ∷ [] ≡ none ∷ w
    → (u : List (Option Attribute)) × (v ≡ none ∷ u)
append-none [] w a h = absurd (cc)
append-none (x ∷ v) w a h = (v, cc)

-- No attribute of a built schema is missing.
first_present : (s : Schema) → IsBuilt s → (v : List (Option Attribute)) → s.attr_vec ≡ none ∷ v → ⊥
first_present s (fresh name id temporary) v e = cc
first_present s (extended {s = old} {i = i} a made b q) v e =
    let (t, fits) = add_attribute-eq old s i a q in
    let (u, k) =
      append-none old.attr_vec v (record a { id = some (length old.attr_vec) })
        (sym (ap (λ (x : Schema). x.attr_vec) t ∙ (added_keeps old a).0) ∙ e) in
    first_present old b u k
first_present s (placed {s = old} id b) v e = first_present old b v e

protos-none :
    (v : List (Option Attribute)) (qs : List (Option AttributeProto))
    → protos v ≡ none ∷ qs
    → (w : List (Option Attribute)) × (v ≡ none ∷ w)
protos-none [] qs e = absurd (cc)
protos-none (none ∷ v) qs e = (v, refl)
protos-none (some a ∷ v) qs e = absurd (cc)

first_resize : (xs : List ℕ) → resize (0 ∷ xs) 1 0 ≡ resize [] 1 0
unfolding resize
first_resize xs = let past : 1 - suc (length xs) ≡ 0 = omega arith in rw past refl

abbrev start_with : List ℕ → Name → Option ℕ → Bool → Schema
start_with xs name id temporary = record (new_schema name id temporary) { max_byte_lengths = xs }

added_first :
    (xs : List ℕ) (name : Name) (id : Option ℕ) (temporary : Bool) (a : Attribute)
    → added (start_with (0 ∷ xs) name id temporary) a ≡ added (new_schema name id temporary) a
unfolding added
added_first xs name id temporary a = ground (arith, first_resize xs)

same_start :
    (ps : List (Option AttributeProto)) (name : Name) (id : Option ℕ) (temporary : Bool)
    → ((qs : List (Option AttributeProto)) → ps ≡ none ∷ qs → ⊥)
    → add_attributes ps (start_with (replicate (length ps) 0) name id temporary)
      ≡ add_attributes ps (new_schema name id temporary)
unfolding add_attributes
same_start [] name id temporary present = refl
same_start (none ∷ ps) name id temporary present = absurd (present ps refl)
same_start (some p ∷ ps) name id temporary present =
    let a = attribute_of_proto p in
    let xs : List ℕ = replicate (length ps) 0 in
    and_then-added (start_with (0 ∷ xs) name id temporary) a (add_attributes ps) (refl)
    ∙ ap (add_attributes ps) (added_first xs name id temporary a)
    ∙ sym (and_then-added (new_schema name id temporary) a (add_attributes ps) (refl))

pub comes_back : (s : Schema) → IsBuilt s → schema_of_proto (get_proto s) ≡ some s
unfolding schema_of_proto get_proto
comes_back s b =
    same_start (protos s.attr_vec) s.name s.id s.temporary
      (λ qs e. let (v, k) = protos-none s.attr_vec qs e in first_present s b v k)
    ∙ rebuild_lem s b
