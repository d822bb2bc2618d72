-- ===== src/ApiDocs/Reference/Parts.antt =====
-- The pieces that the operations of the built-in document repeat.
use omni_tun.Prelude.{String, true, Option, none, some, List, [], ◌∷◌, Dict, map}
use omni_tun.Js.{undefined, str}
use omni_tun.ApiDocs.Defs.{
  SchemaFacts, Schema, schema, no_properties, properties, Fields, no_items, items, no_branches,
  Parameter, RequestBody, DocResponse, PathOperation,
}

abbrev pub typed : String → SchemaFacts
typed name = record {
  type = some name;
  format = none;
  description = none;
  required = none;
  example = undefined;
  enum = none;
  ref = none;
}

abbrev pub leaf : SchemaFacts → Schema
leaf f = schema f no_properties no_items no_branches

abbrev pub of_type : String → Schema
of_type name = leaf (typed name)

abbrev pub uuid : Schema
uuid = leaf (record (typed "string") { format = some "uuid" })

abbrev pub described : String → String → Schema
described name description = leaf (record (typed name) { description = some description })

abbrev pub one_of : List String → Schema
one_of values = leaf (record (typed "string") { enum = some values })

abbrev pub like : String → Schema
like example = leaf (record (typed "string") { example = str example })

abbrev pub list_of_schema : Schema → Schema
list_of_schema s = schema (typed "array") no_properties (items s) no_branches

abbrev pub object_with : List String → Fields → Schema
object_with required fs =
    schema (record (typed "object") { required = some required }) (properties fs) no_items
      no_branches

-- `id`, which is in the path.
abbrev pub id_param : Parameter
id_param = record {
  name = "id";
  place = "path";
  description = none;
  required = some true;
  schema = uuid;
}

abbrev pub query_param : String → Schema → Parameter
query_param name s = record {
  name = name;
  place = "query";
  description = none;
  required = none;
  schema = s;
}

abbrev pub json_body : Schema → RequestBody
json_body s = record {
  description = none;
  required = some true;
  content = ("application/json", s) ∷ [];
}

abbrev pub answer : String × String → String × DocResponse
answer (status, description) = (status, record { description = description; content = none })

abbrev pub operation :
    String
    → String
    → String
    → Option (List Parameter)
    → Option RequestBody
    → Dict String
    → PathOperation
operation summary operation_id tag parameters request_body responses = record {
  summary = some summary;
  description = none;
  operation_id = some operation_id;
  tags = some (tag ∷ []);
  parameters = parameters;
  request_body = request_body;
  responses = map answer responses;
  deprecated = none;
}
