-- ===== src/ApiDocs/Laws/Depth.antt =====
-- How deeply the view of a schema is nested.
use Prim.Native.Nat.{max}
use omni_tun.Prelude.{
  ◌-◌, ℕ, suc, ◌+◌, ◌≤◌, String, Bool, true, false, ◌≡◌, Option, none, some, List, ltb, arith,
  split_on, Bool-cases, inl, inr, if◌then◌else◌,
}
use omni_tun.ApiDocs.Defs.{
  SchemaFacts, Schema, schema, Properties, no_properties, properties, Fields, end, field,
  ItemSchema, no_items, items, Branches, no_branches, all_of, Schemas, no_more, also,
}
use omni_tun.ApiDocs.Views.{
  last_part, View, nothing, dots, any, ref_name, enum_line, plain, array, stack, fields, Views,
  no_views, and_view, FieldViews, no_fields, field_view, filled, has_properties, shown_at_depth,
  schema_view, branches_view, schemas_view, item_view, object_view, fields_view, items_below,
  other_view, after_ref,
}

-- The arrays and objects around the innermost part.
mutual
  pub nesting : View → ℕ
  nesting (array v) = suc (nesting v)
  nesting (stack vs) = nesting_all vs
  nesting (fields fs) = suc (nesting_fields fs)
  nesting nothing = 0
  nesting dots = 0
  nesting any = 0
  nesting (ref_name r) = 0
  nesting (enum_line vs) = 0
  nesting (plain t f) = 0

  pub nesting_all : Views → ℕ
  nesting_all no_views = 0
  nesting_all (and_view v vs) = max (nesting v) (nesting_all vs)

  pub nesting_fields : FieldViews → ℕ
  nesting_fields no_fields = 0
  nesting_fields (field_view line v w fs) = max (max (nesting v) (nesting w)) (nesting_fields fs)

abbrev nesting_or : Option View → ℕ
nesting_or none = 0
nesting_or (some v) = nesting v

other_view-nesting :
    (n : ℕ) (f : SchemaFacts) (item : View) (object : Option View)
    → suc (nesting item) ≤ n
    → nesting_or object ≤ n
    → nesting (other_view f item object) ≤ n
unfolding nesting
other_view-nesting n f item object hi ho = ground arith

after_ref-nesting :
    (n : ℕ) (stacked : Option View) (f : SchemaFacts) (item : View) (object : Option View)
    → nesting_or stacked ≤ n
    → suc (nesting item) ≤ n
    → nesting_or object ≤ n
    → nesting (after_ref stacked f item object) ≤ n
after_ref-nesting n (some v) f item object hs hi ho = hs
after_ref-nesting n none f item object hs hi ho = other_view-nesting n f item object hi ho

ref-nesting :
    (n : ℕ) (ref : Option String) (v : View)
    → nesting v ≤ n
    → nesting (elim ref [ some r ↦ ref_name (last_part "" (split_on "/" r)) | none ↦ v ]) ≤ n
unfolding nesting
ref-nesting n none v h = h
ref-nesting n (some r) v h = omega arith

-- What one level shows is bounded by its parts; there is a level above the fifth only.
shown_at_depth-nesting :
    (d n : ℕ) (f : SchemaFacts) (stacked : Option View) (item : View) (object : Option View)
    → d + n ≡ 5
    → nesting_or stacked ≤ n
    → (d ≤ 4 → suc (nesting item) ≤ n)
    → (d ≤ 4 → nesting_or object ≤ n)
    → nesting (shown_at_depth d f stacked item object) ≤ n
shown_at_depth-nesting d n f stacked item object e hs hi ho = elim (Bool-cases (ltb 4 d)) [
  | inl deep ↦ rw deep (unfold nesting in omega arith)
  | inr shallow ↦
      let d-le : d ≤ 4 = ground (arith, shallow) in
      rw shallow (
        ref-nesting n (filled f.ref) (after_ref stacked f item object)
          (after_ref-nesting n stacked f item object hs (hi d-le) (ho d-le)))
]

if-nesting : (b : Bool) (v : View) (n : ℕ) → nesting v ≤ n → nesting (if b then v else nothing) ≤ n
unfolding nesting
if-nesting true v n h = h
if-nesting false v n h = omega arith

mutual
  unfolding schema_view nesting

  schema_view-nesting : (s : Schema) (d n : ℕ) → d + n ≡ 5 → nesting (schema_view s d) ≤ n
  schema_view-nesting (schema f ps its bs) d n e =
      shown_at_depth-nesting d n f (branches_view bs d) (item_view its d)
        (object_view ps f.required d) e (branches_view-nesting bs d n e)
        (item_view-nesting its d n e) (object_view-nesting ps f.required d n e)

  branches_view-nesting :
      (bs : Branches) (d n : ℕ) → d + n ≡ 5 → nesting_or (branches_view bs d) ≤ n
  branches_view-nesting no_branches d n e = omega arith
  branches_view-nesting (all_of ss) d n e = schemas_view-nesting ss d n e

  schemas_view-nesting : (ss : Schemas) (d n : ℕ) → d + n ≡ 5 → nesting_all (schemas_view ss d) ≤ n
  schemas_view-nesting no_more d n e = omega arith
  schemas_view-nesting (also s ss) d n e =
      omega (arith, schema_view-nesting s d n e, schemas_view-nesting ss d n e)

  item_view-nesting :
      (its : ItemSchema) (d n : ℕ) → d + n ≡ 5 → d ≤ 4 → suc (nesting (item_view its d)) ≤ n
  item_view-nesting no_items d n e h = omega arith
  item_view-nesting (items s) d n e h =
      omega (arith, schema_view-nesting s (suc d) (n - 1) (omega arith))

  object_view-nesting :
      (ps : Properties) (required : Option (List String)) (d n : ℕ)
      → d + n ≡ 5
      → d ≤ 4
      → nesting_or (object_view ps required d) ≤ n
  object_view-nesting no_properties required d n e h = omega arith
  object_view-nesting (properties fs) required d n e h =
      omega (arith, fields_view-nesting fs required d n e h)

  fields_view-nesting :
      (fs : Fields) (required : Option (List String)) (d n : ℕ)
      → d + n ≡ 5
      → d ≤ 4
      → suc (nesting_fields (fields_view fs required d)) ≤ n
  fields_view-nesting end required d n e h = omega arith
  fields_view-nesting (field key s fs) required d n e h = omega (
    arith,
    if-nesting (has_properties s) (schema_view s (suc d)) (n - 1)
        (schema_view-nesting s (suc d) (n - 1) (omega arith)),
    items_below-nesting s d n e h,
    fields_view-nesting fs required d n e h,
  )

  items_below-nesting :
      (s : Schema) (d n : ℕ) → d + n ≡ 5 → d ≤ 4 → suc (nesting (items_below s d)) ≤ n
  items_below-nesting (schema f ps no_items bs) d n e h = omega arith
  items_below-nesting (schema f ps (items s) bs) d n e h =
      omega (arith, schema_view-nesting s (suc d) (n - 1) (omega arith))

-- Whatever the schema, its view has at most five arrays and objects around any of its parts.
pub nesting-schema_view-le : (s : Schema) → nesting (schema_view s 0) ≤ 5
nesting-schema_view-le s = schema_view-nesting s 0 5 (omega arith)
