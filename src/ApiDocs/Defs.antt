-- ===== src/ApiDocs/Defs.antt =====
-- The types of the document, and its operations grouped by their tags.
use omni_tun.Prelude.{
  String, Bool, Option, none, some, List, [], ◌∷◌, ◌++◌, Dict, get, put, contains, if◌then◌else◌,
  ◌>>=◌,
}
use omni_tun.Js.{Value}

-- `Schema`, without the parts that are schemas again.
pub record SchemaFacts : Type 0 where
  pub type : Option String
  pub format : Option String
  pub description : Option String
  pub required : Option (List String)
  pub example : Value
  pub enum : Option (List String)
  pub ref : Option String

-- A schema with its `properties`, its `items` and its `allOf`.
mutual
  pub data Schema : Type 0 where
    schema : SchemaFacts → Properties → ItemSchema → Branches → Schema

  pub data Properties : Type 0 where
    no_properties : Properties
    properties : Fields → Properties

  pub data Fields : Type 0 where
    end : Fields
    field : String → Schema → Fields → Fields

  pub data ItemSchema : Type 0 where
    no_items : ItemSchema
    items : Schema → ItemSchema

  pub data Branches : Type 0 where
    no_branches : Branches
    all_of : Schemas → Branches

  pub data Schemas : Type 0 where
    no_more : Schemas
    also : Schema → Schemas → Schemas

-- `Parameter`; `place` is its property `in`.
pub record Parameter : Type 0 where
  pub name : String
  pub place : String
  pub description : Option String
  pub required : Option Bool
  pub schema : Schema

pub record RequestBody : Type 0 where
  pub description : Option String
  pub required : Option Bool
  pub content : Dict Schema

pub record DocResponse : Type 0 where
  pub description : String
  pub content : Option (Dict Schema)

pub record PathOperation : Type 0 where
  pub summary : Option String
  pub description : Option String
  pub operation_id : Option String
  pub tags : Option (List String)
  pub parameters : Option (List Parameter)
  pub request_body : Option RequestBody
  pub responses : Dict DocResponse
  pub deprecated : Option Bool

pub record OpenApiSpec : Type 0 where
  pub openapi : String
  pub title : String
  pub version : String
  pub description : Option String
  pub paths : Dict (Dict PathOperation)
  pub tags : Dict String

-- What a group holds.
pub record Endpoint : Type 0 where
  pub path : String
  pub method : String
  pub op : PathOperation

-- `op.tags?.[0] ?? 'Other'`
unfoldable pub tag_of : PathOperation → String
tag_of op = elim op.tags [
  | none ↦ "Other"
  | some tags ↦ elim tags [ [] ↦ "Other" | tag ∷ rest ↦ tag ]
]

abbrev pub or_none : Option (List Endpoint) → List Endpoint
or_none none = []
or_none (some es) = es

-- The names of the properties that every object inherits from `Object.prototype`.
abbrev pub inherited_names : List String
inherited_names =
    "constructor" ∷ "__defineGetter__" ∷ "__defineSetter__" ∷ "hasOwnProperty" ∷ "__lookupGetter__"
    ∷ "__lookupSetter__" ∷ "isPrototypeOf" ∷ "propertyIsEnumerable" ∷ "toString" ∷ "valueOf"
    ∷ "__proto__" ∷ "toLocaleString" ∷ []

-- The body of the inner loop. An inherited property is no array, but it counts as a group that is there,
-- and `groups[tag].push` throws: none.
unfoldable pub put_endpoint : Endpoint → Dict (List Endpoint) → Option (Dict (List Endpoint))
put_endpoint e groups =
    let tag = tag_of e.op in
    if contains tag inherited_names
    then none
    else some (put tag (or_none (get tag groups) ++ (e ∷ [])) groups)

-- The inner loop over the methods of a path, and the outer one over the paths.
unfoldable pub group_methods :
    String → Dict PathOperation → Dict (List Endpoint) → Option (Dict (List Endpoint))
group_methods path [] groups = some groups
group_methods path ((method, op) ∷ methods) groups =
    put_endpoint (record { path = path; method = method; op = op }) groups
    >>= (λ gs. group_methods path methods gs)

unfoldable pub group_paths :
    Dict (Dict PathOperation) → Dict (List Endpoint) → Option (Dict (List Endpoint))
group_paths [] groups = some groups
group_paths ((path, methods) ∷ paths) groups =
    group_methods path methods groups >>= (λ gs. group_paths paths gs)

unfoldable pub grouped_paths : OpenApiSpec → Option (Dict (List Endpoint))
grouped_paths spec = group_paths spec.paths []
