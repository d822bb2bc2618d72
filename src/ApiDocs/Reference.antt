-- ===== src/ApiDocs/Reference.antt =====
-- `mockSpec`, the document that is shown until the server's is there.
mod Parts
mod Paths
use omni_tun.Prelude.{Bool, false, String, true, Option, none, some, List, [], ◌∷◌, ◌++◌, Dict, map}
use omni_tun.Js.{undefined, str}
use omni_tun.ApiDocs.Defs.{
  SchemaFacts, Schema, schema, no_properties, properties, Fields, end, field, no_items, items,
  no_branches, Parameter, RequestBody, DocResponse, PathOperation, OpenApiSpec,
}
use omni_tun.ApiDocs.Reference.Paths.{tunnel_paths, domain_paths, network_paths, auth_paths}

unfoldable pub mock_spec : OpenApiSpec
mock_spec = record {
  openapi = "3.0.3";
  title = "OmniTun API";
  version = "v1";
  description =
      some
        "Enterprise Network Tunneling Platform REST API. Create and manage tunnels, domains, and mesh networks programmatically.";
  paths = tunnel_paths ++ (domain_paths ++ (network_paths ++ auth_paths));
  tags =
      ("Tunnels", "Create and manage tunnels")
      ∷ ("Domains", "Custom domain management")
      ∷ ("Networks", "Mesh network operations")
      ∷ ("Auth", "Authentication and API keys")
      ∷ [];
}

-- `specQuery.data ?? mockSpec`, and `specQuery.isError && !specQuery.data`.
unfoldable pub shown_spec : Option OpenApiSpec → OpenApiSpec
shown_spec none = mock_spec
shown_spec (some spec) = spec

unfoldable pub shows_error : Bool → Option OpenApiSpec → Bool
shows_error is_error none = is_error
shows_error is_error (some spec) = false
