-- ===== src/ApiDocs/Views.antt =====
-- `SchemaView`: what is shown of a schema, as a tree.
use omni_tun.Prelude.{
  ℕ, suc, String, Bool, true, false, Option, none, some, List, [], ◌∷◌, ◌==◌, ltb, split_on,
  if◌then◌else◌,
}
use omni_tun.ApiDocs.Defs.{
  SchemaFacts, Schema, schema, Properties, no_properties, properties, Fields, end, field,
  ItemSchema, no_items, items, Branches, no_branches, all_of, Schemas, no_more, also,
}

-- The line of a property, before what is nested in it.
pub record FieldLine : Type 0 where
  pub key : String
  pub is_required : Bool
  pub type : Option String
  pub format : Option String
  pub enum : Option (List String)
  pub description : Option String

mutual
  pub data View : Type 0 where
    nothing dots any : View
    ref_name : String → View
    enum_line : List String → View
    plain : Option String → Option String → View
    array : View → View
    stack : Views → View
    fields : FieldViews → View

  pub data Views : Type 0 where
    no_views : Views
    and_view : View → Views → Views

  -- Each property with the view of its properties and that of its items.
  pub data FieldViews : Type 0 where
    no_fields : FieldViews
    field_view : FieldLine → View → View → FieldViews → FieldViews

-- `parts.pop()`
abbrev pub last_part : String → List String → String
last_part otherwise [] = otherwise
last_part otherwise (p ∷ ps) = last_part p ps

-- `schema.$ref`, unless it is missing or empty.
abbrev pub filled : Option String → Option String
filled none = none
filled (some s) = if s == "" then none else some s

abbrev pub is_type : String → Option String → Bool
is_type name none = false
is_type name (some s) = s == name

abbrev pub lists : String → Option (List String) → Bool
lists k none = false
lists k (some []) = false
lists k (some (j ∷ js)) = if j == k then true else lists k (some js)

abbrev pub field_line : String → Option (List String) → SchemaFacts → FieldLine
field_line key required f = record {
  key = key;
  is_required = lists key required;
  type = f.type;
  format = f.format;
  enum = f.enum;
  description = f.description;
}

abbrev pub facts_of : Schema → SchemaFacts
facts_of (schema f ps its bs) = f

abbrev pub has_properties : Schema → Bool
has_properties (schema f no_properties its bs) = false
has_properties (schema f (properties fs) its bs) = true

-- What follows `schema.allOf`: an enumeration, an array, an object, or its type.
abbrev pub other_view : SchemaFacts → View → Option View → View
other_view f item_shown object_shown = elim f.enum [
  | some values ↦ enum_line values
  | none ↦
      if is_type "array" f.type
      then array item_shown
      else if is_type "object" f.type
      then elim object_shown [ none ↦ plain f.type f.format | some shown ↦ shown ]
      else plain f.type f.format
]

abbrev pub after_ref : Option View → SchemaFacts → View → Option View → View
after_ref (some stacked) f item_shown object_shown = stacked
after_ref none f item_shown object_shown = other_view f item_shown object_shown

abbrev pub shown_at_depth : ℕ → SchemaFacts → Option View → View → Option View → View
shown_at_depth depth f stacked item_shown object_shown =
    if ltb 4 depth then dots else elim (filled f.ref) [
      | some ref ↦ ref_name (last_part "" (split_on "/" ref))
      | none ↦ after_ref stacked f item_shown object_shown
    ]

-- `none` where there is no `allOf`, and where there are no properties.
unfoldable mutual
  pub schema_view : Schema → ℕ → View
  schema_view (schema f ps its bs) depth =
      shown_at_depth depth f (branches_view bs depth) (item_view its depth)
        (object_view ps f.required depth)

  pub branches_view : Branches → ℕ → Option View
  branches_view no_branches depth = none
  branches_view (all_of ss) depth = some (stack (schemas_view ss depth))

  pub schemas_view : Schemas → ℕ → Views
  schemas_view no_more depth = no_views
  schemas_view (also s ss) depth = and_view (schema_view s depth) (schemas_view ss depth)

  pub item_view : ItemSchema → ℕ → View
  item_view no_items depth = any
  item_view (items s) depth = schema_view s (suc depth)

  pub object_view : Properties → Option (List String) → ℕ → Option View
  object_view no_properties required depth = none
  object_view (properties fs) required depth = some (fields (fields_view fs required depth))

  -- `prop.properties && …` and `prop.items && …`
  pub fields_view : Fields → Option (List String) → ℕ → FieldViews
  fields_view end required depth = no_fields
  fields_view (field key s fs) required depth =
      field_view (field_line key required (facts_of s))
        (if has_properties s then schema_view s (suc depth) else nothing) (items_below s depth)
        (fields_view fs required depth)

  pub items_below : Schema → ℕ → View
  items_below (schema f ps no_items bs) depth = nothing
  items_below (schema f ps (items s) bs) depth = schema_view s (suc depth)
