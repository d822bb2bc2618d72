-- ===== src/ApiDocs/Reference/Paths.antt =====
-- The paths of the built-in document with their operations.
use omni_tun.Prelude.{none, some, [], ◌∷◌, Dict}
use omni_tun.ApiDocs.Defs.{end, field, PathOperation}
use omni_tun.ApiDocs.Reference.Parts.{
  of_type, uuid, described, one_of, like, list_of_schema, object_with, id_param, query_param,
  json_body, operation,
}

abbrev pub tunnel_paths : Dict (Dict PathOperation)
tunnel_paths =
    (
      "/v1/tunnels",
      (
        "get",
        operation "List tunnels" "listTunnels" "Tunnels"
            (some (
              query_param "status" (one_of ("active" ∷ "stopped" ∷ "error" ∷ []))
              ∷ query_param "protocol" (one_of ("tcp" ∷ "http" ∷ "https" ∷ []))
              ∷ query_param "page" (of_type "integer")
              ∷ query_param "per_page" (of_type "integer")
              ∷ []))
            none (("200", "Paginated list of tunnels") ∷ ("401", "Unauthorized") ∷ []),
      )
          ∷ (
            "post",
            operation "Create a tunnel" "createTunnel" "Tunnels" none
                (some (
                  json_body (
                    object_with ("name" ∷ "protocol" ∷ "local_port" ∷ []) (
                      field "name" (described "string" "Tunnel name") (
                        field "protocol" (one_of ("tcp" ∷ "http" ∷ "https" ∷ [])) (
                          field "local_port" (described "integer" "Local port to forward") (
                            field "remote_port" (of_type "integer") (
                              field "domain" (of_type "string") (
                                field "tags" (list_of_schema (of_type "string")) (
                                  field "auth_mode" (one_of ("none" ∷ "basic" ∷ "oauth" ∷ [])) (
                                    field "tls_mode" (one_of ("off" ∷ "flexible" ∷ "strict" ∷ []))
                                      (field "compression" (of_type "boolean") end))))))))))))
                (("201", "Tunnel created")
                  ∷ ("400", "Validation error")
                  ∷ ("401", "Unauthorized")
                  ∷ []),
          )
          ∷ [],
    )
    ∷ (
      "/v1/tunnels/{id}",
      (
        "get",
        operation "Get tunnel by ID" "getTunnel" "Tunnels" (some (id_param ∷ [])) none
            (("200", "Tunnel details") ∷ ("404", "Tunnel not found") ∷ []),
      )
          ∷ (
            "patch",
            operation "Update tunnel" "updateTunnel" "Tunnels" (some (id_param ∷ [])) none
                (("200", "Tunnel updated") ∷ ("404", "Tunnel not found") ∷ []),
          )
          ∷ (
            "delete",
            operation "Delete tunnel" "deleteTunnel" "Tunnels" (some (id_param ∷ [])) none
                (("204", "Tunnel deleted") ∷ ("404", "Tunnel not found") ∷ []),
          )
          ∷ [],
    )
    ∷ (
      "/v1/tunnels/{id}/start",
      (
        "post",
        operation "Start tunnel" "startTunnel" "Tunnels" (some (id_param ∷ [])) none (
            ("200", "Tunnel started")
            ∷ ("400", "Tunnel already running")
            ∷ ("404", "Tunnel not found")
            ∷ []),
      )
          ∷ [],
    )
    ∷ (
      "/v1/tunnels/{id}/stop",
      (
        "post",
        operation "Stop tunnel" "stopTunnel" "Tunnels" (some (id_param ∷ [])) none
            (("200", "Tunnel stopped") ∷ ("404", "Tunnel not found") ∷ []),
      )
          ∷ [],
    )
    ∷ []

abbrev pub domain_paths : Dict (Dict PathOperation)
domain_paths =
    (
      "/v1/domains",
      (
        "get",
        operation "List domains" "listDomains" "Domains" none none
            (("200", "Paginated list of domains") ∷ []),
      )
          ∷ (
            "post",
            operation "Add custom domain" "createDomain" "Domains" none
                (some (
                  json_body (
                    object_with ("domain" ∷ []) (
                      field "domain" (described "string" "Custom domain name")
                        (field "tunnel_id" (uuid) end)))))
                (("201", "Domain added") ∷ ("409", "Domain already exists") ∷ []),
          )
          ∷ [],
    )
    ∷ (
      "/v1/domains/{id}",
      (
        "get",
        operation "Get domain" "getDomain" "Domains" (some (id_param ∷ [])) none
            (("200", "Domain details") ∷ []),
      )
          ∷ (
            "delete",
            operation "Remove domain" "deleteDomain" "Domains" (some (id_param ∷ [])) none
                (("204", "Domain removed") ∷ []),
          )
          ∷ [],
    )
    ∷ []

abbrev pub network_paths : Dict (Dict PathOperation)
network_paths =
    (
      "/v1/networks",
      (
        "get",
        operation "List networks" "listNetworks" "Networks" none none
            (("200", "Paginated list of mesh networks") ∷ []),
      )
          ∷ (
            "post",
            operation "Create mesh network" "createNetwork" "Networks" none
                (some (
                  json_body (
                    object_with ("name" ∷ "cidr" ∷ [])
                      (field "name" (of_type "string") (field "cidr" (like "10.0.0.0/24") end)))))
                (("201", "Network created") ∷ []),
          )
          ∷ [],
    )
    ∷ (
      "/v1/networks/{id}",
      (
        "get",
        operation "Get network" "getNetwork" "Networks" (some (id_param ∷ [])) none
            (("200", "Network details") ∷ []),
      )
          ∷ (
            "delete",
            operation "Delete network" "deleteNetwork" "Networks" (some (id_param ∷ [])) none
                (("204", "Network deleted") ∷ []),
          )
          ∷ [],
    )
    ∷ (
      "/v1/networks/join",
      (
        "post",
        operation "Join network by invite" "joinNetwork" "Networks" none
            (some (
              json_body
                (object_with ("invite_code" ∷ []) (field "invite_code" (of_type "string") end))))
            (("200", "Joined network successfully") ∷ []),
      )
          ∷ [],
    )
    ∷ (
      "/v1/networks/{id}/leave",
      (
        "post",
        operation "Leave network" "leaveNetwork" "Networks" (some (id_param ∷ [])) none
            (("204", "Left network") ∷ []),
      )
          ∷ [],
    )
    ∷ []

abbrev pub auth_paths : Dict (Dict PathOperation)
auth_paths =
    (
      "/v1/auth/refresh",
      (
        "post",
        operation "Refresh access token" "refreshToken" "Auth" none
            (some (
              json_body (
                object_with ("refresh_token" ∷ []) (field "refresh_token" (of_type "string") end))))
            (("200", "New token pair") ∷ ("401", "Invalid refresh token") ∷ []),
      )
          ∷ [],
    )
    ∷ []
