-- ===== src/Catalog/RelationSchema/Layout.antt =====
-- Where the attributes of a tuple lie.
use quickstep_streaming.Prelude.{
  ℕ, ◌+◌, ◌%◌, ◌≤◌, ◌<◌, ◌≡◌, refl, sym, ap, ◌∙◌, Bool, true, false, inl, inr, Option, none, some,
  List, [], ◌∷◌, ◌++◌, if◌then◌else◌, ltb, length, get_elem?, get_or, arith, Bool-cases,
  length-append,
}
use quickstep_streaming.Common.TupleIdSequence.{size_t_mod}
use quickstep_streaming.Catalog.RelationSchema.{
  Attribute, Schema, added, add_attribute, new_schema, max_id,
}
use quickstep_streaming.Types.ValueType.{ValueType, is_variable_length}
use quickstep_streaming.Catalog.RelationSchema.Sums.{
  sum_before, fixed_bytes, one_if, sum_before-append, numbered, snoc_cases, numbered-append,
  get_or-resize, length-resize,
}
use quickstep_streaming.Catalog.RelationSchema.Added.{
  added-fixed, added-offsets, added-nullable, added-next_nullable, added-variable,
  added-next_variable, added-size,
}

pub record HasLayout (ts : List ValueType) (s : Schema) : Type 0 where
  pub size : length s.attr_vec ≡ length ts
  pub fixed_total : s.fixed_byte_length ≡ sum_before fixed_bytes ts (length ts) % size_t_mod
  pub few_offsets : length s.fixed_length_attribute_offsets ≤ length ts
  pub offsets :
      (i : ℕ) (t : ValueType)
      → get_elem? ts i ≡ some t
      → is_variable_length t ≡ false
      → (i < length s.fixed_length_attribute_offsets)
        × (get_or s.fixed_length_attribute_offsets i 0 ≡ sum_before fixed_bytes ts i % size_t_mod)
  pub nullable_size : length s.nullable_attribute_indices ≡ length ts
  pub next_nullable :
      s.next_nullable_attribute_index ≡ sum_before (λ u. one_if u.nullable) ts (length ts)
  pub nullable_indices :
      (i : ℕ) (t : ValueType)
      → get_elem? ts i ≡ some t
      → get_or s.nullable_attribute_indices i none ≡ numbered (λ u. u.nullable) ts i t
  pub variable_size : length s.variable_length_attribute_indices ≡ length ts
  pub next_variable :
      s.next_variable_length_attribute_index
      ≡ sum_before (λ u. one_if (is_variable_length u)) ts (length ts)
  pub variable_indices :
      (i : ℕ) (t : ValueType)
      → get_elem? ts i ≡ some t
      → get_or s.variable_length_attribute_indices i none ≡ numbered is_variable_length ts i t

module _ (ts : List ValueType) (s : Schema) (a : Attribute) (h : HasLayout ts s) where
  fixed_step :
      (added s a).fixed_byte_length
      ≡ sum_before fixed_bytes (ts ++ a.attr_type ∷ []) (length ts + 1) % size_t_mod
  fixed_step =
      let sums = sum_before-append fixed_bytes ts a.attr_type (length ts + 1) in
      let now = added-fixed s a in let old = h.fixed_total in ground arith

  offsets_step :
      (i : ℕ) (u : ValueType)
      → get_elem? (ts ++ a.attr_type ∷ []) i ≡ some u
      → is_variable_length u ≡ false
      → (i < length (added s a).fixed_length_attribute_offsets)
        × (get_or (added s a).fixed_length_attribute_offsets i 0
            ≡ sum_before fixed_bytes (ts ++ a.attr_type ∷ []) i % size_t_mod)
  offsets_step i u e fixed =
      let sums = sum_before-append fixed_bytes ts a.attr_type i in
      let n : ℕ = length s.attr_vec + 1 in
      let fits : length s.fixed_length_attribute_offsets ≤ n =
        omega (arith, h.few_offsets, h.size) in
      let size = length-resize s.fixed_length_attribute_offsets n s.fixed_byte_length fits in
      let at = get_or-resize s.fixed_length_attribute_offsets n s.fixed_byte_length i fits in
      elim (snoc_cases ts a.attr_type u i e) [
        | inl (l, q) ↦
            let (inside, old) = h.offsets i u q fixed in
            elim (Bool-cases (is_variable_length a.attr_type)) [
              | inl v ↦ rw (added-offsets s a, v) (inside, ground arith)
              | inr v ↦
                  rw (added-offsets s a, v)
                    (omega (arith, size, h.size), ground (arith, at, h.size))
            ]
        | inr (l, q) ↦
            let v : is_variable_length a.attr_type ≡ false =
              sym (ap is_variable_length q) ∙ fixed in
            rw (added-offsets s a, v)
              (
                omega (arith, size, h.size),
                ground (arith, at, h.size, h.few_offsets, h.fixed_total),
              )
      ]

  few_step : length (added s a).fixed_length_attribute_offsets ≤ length (ts ++ a.attr_type ∷ [])
  few_step =
      let n : ℕ = length s.attr_vec + 1 in
      let fits : length s.fixed_length_attribute_offsets ≤ n =
        omega (arith, h.few_offsets, h.size) in
      let size = length-resize s.fixed_length_attribute_offsets n s.fixed_byte_length fits in
      let long : length (ts ++ a.attr_type ∷ []) ≡ length ts + 1 =
        length-append ts (a.attr_type ∷ []) in
      elim (Bool-cases (is_variable_length a.attr_type)) [
        | inl v ↦ rw (added-offsets s a, v) (omega (arith, h.few_offsets, long))
        | inr v ↦ rw (added-offsets s a, v) (omega (arith, size, h.size, long))
      ]

  next_step :
      (has : ValueType → Bool) (next : ℕ)
      → next ≡ sum_before (λ u. one_if (has u)) ts (length ts)
      → next + one_if (has a.attr_type)
        ≡ sum_before (λ u. one_if (has u)) (ts ++ a.attr_type ∷ []) (length ts + 1)
  next_step has next e =
      let sums = sum_before-append (λ u. one_if (has u)) ts a.attr_type (length ts + 1) in
      let past : ltb (length ts) (length ts + 1) ≡ true = ground arith in
      rw (sums, past) (omega arith)

  added-HasLayout : HasLayout (ts ++ a.attr_type ∷ []) (added s a)
  added-HasLayout =
      let grown = length-append ts (a.attr_type ∷ []) in
      let long : length (ts ++ a.attr_type ∷ []) ≡ length ts + 1 = grown in
      record {
        size = omega (arith, added-size s a, h.size, long);
        fixed_total = rw long fixed_step;
        few_offsets = few_step;
        offsets = offsets_step;
        nullable_size = rw (added-nullable s a) (
            omega (
              arith,
              length-append s.nullable_attribute_indices (
                  (if a.attr_type.nullable then some s.next_nullable_attribute_index else none)
                  ∷ []),
              h.nullable_size,
              long,
            ));
        next_nullable =
            rw (added-next_nullable s a, long)
              (next_step (λ t. t.nullable) s.next_nullable_attribute_index h.next_nullable);
        nullable_indices = λ i u e. rw (added-nullable s a) (
            numbered-append (λ t. t.nullable) ts a.attr_type s.nullable_attribute_indices
              s.next_nullable_attribute_index h.nullable_size h.next_nullable h.nullable_indices i u
              e);
        variable_size = rw (added-variable s a) (
            omega (
              arith,
              length-append s.variable_length_attribute_indices (
                  (if is_variable_length a.attr_type
                    then some s.next_variable_length_attribute_index
                    else none)
                  ∷ []),
              h.variable_size,
              long,
            ));
        next_variable =
            rw (added-next_variable s a, long)
              (next_step is_variable_length s.next_variable_length_attribute_index h.next_variable);
        variable_indices = λ i u e. rw (added-variable s a) (
            numbered-append is_variable_length ts a.attr_type s.variable_length_attribute_indices
              s.next_variable_length_attribute_index h.variable_size h.next_variable
              h.variable_indices i u e);
      }

  -- `add_attribute` to a schema of fewer than 2 ^ 31 attributes gives the attribute the next id,
  -- and keeps the layout: the offset of each fixed-length attribute is the bytes of those before
  -- it, modulo 2 ^ 64, and the nullable and the variable-length attributes are numbered in order,
  -- the others not.
  pub add_attribute-HasLayout :
      length ts ≤ max_id
      → (add_attribute s a ≡ some (added s a, length ts))
        × HasLayout (ts ++ a.attr_type ∷ []) (added s a)
  unfolding add_attribute
  add_attribute-HasLayout few =
      let fits : ltb max_id (length s.attr_vec) ≡ false = ground (arith, h.size) in
      (rw fits (ap (λ n. some (added s a, n)) h.size), added-HasLayout)

-- A new schema has no attributes.
pub new_schema-HasLayout :
    (name : List ℕ) (id : Option ℕ) (temporary : Bool) → HasLayout [] (new_schema name id temporary)
new_schema-HasLayout name id temporary = record {
  size = refl;
  fixed_total = refl;
  few_offsets = omega arith;
  offsets = λ i t e f. absurd (ground arith);
  nullable_size = refl;
  next_nullable = refl;
  nullable_indices = λ i t e. absurd (ground arith);
  variable_size = refl;
  next_variable = refl;
  variable_indices = λ i t e. absurd (ground arith);
}
