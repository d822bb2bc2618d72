-- ===== src/TunnelsPage/Filling.antt =====
-- The form of a new tunnel.
use omni_tun.Prelude.{
  contains, snoc, without, ℕ, String, Bool, true, ◌||◌, none, some, List, [], ◌∷◌, ◌==◌,
  if◌then◌else◌, false,
}
use Prim.Native.String
use omni_tun.Types.{Protocol, tcp, http, Tunnel, TunnelTemplate}

pub record NewTunnel : Type 0 where
  pub name : String
  pub protocol : Protocol
  pub local_port : ℕ
  pub remote_port : ℕ
  pub domain : String
  pub tags : List String

pub data CreateTab : Type 0 where
  scratch templates : CreateTab

-- The form, what is typed as a tag, the open tab, and whether the dialog is open.
pub record Form : Type 0 where
  pub new_tunnel : NewTunnel
  pub tag_input : String
  pub create_tab : CreateTab
  pub show_create : Bool

abbrev pub empty_tunnel : NewTunnel
empty_tunnel = record {
  name = "";
  protocol = tcp;
  local_port = 0;
  remote_port = 0;
  domain = "";
  tags = [];
}

abbrev pub new_form : Form
new_form = record {
  new_tunnel = empty_tunnel;
  tag_input = "";
  create_tab = scratch;
  show_create = false;
}

abbrev pub template :
    String → String → String → Protocol → ℕ → String → Bool → String → TunnelTemplate
template id name icon protocol local_port tls_mode compression description = record {
  id = id;
  name = name;
  icon = icon;
  protocol = protocol;
  local_port = local_port;
  tls_mode = tls_mode;
  compression = compression;
  description = description;
}

abbrev pub tunnel_templates : List TunnelTemplate
tunnel_templates =
    template "http-api" "HTTP API" "Globe" http 8080 "edge" false
      "REST API with TLS and compression"
    ∷ template "grpc" "gRPC" "Radio" tcp 50051 "edge" false "gRPC service with HTTP/2"
    ∷ template "websocket" "WebSocket" "Layers" tcp 3001 "edge" true
        "Persistent WebSocket connections"
    ∷ template "tcp-database" "TCP Database" "Database" tcp 5432 "none" false
        "Database tunnel for PostgreSQL/MySQL"
    ∷ template "ssh" "SSH" "Terminal" tcp 22 "none" false "Secure shell tunnel"
    ∷ []

-- `trim` is the platform's.
unfoldable pub handle_add_tag : (String → String) → Form → Form
handle_add_tag trim f =
    let tag = trim f.tag_input in
    if tag == "" || contains tag f.new_tunnel.tags then f else record f {
      new_tunnel = record f.new_tunnel { tags = snoc f.new_tunnel.tags tag };
      tag_input = "";
    }

unfoldable pub handle_remove_tag : String → Form → Form
handle_remove_tag tag f = record f {
  new_tunnel = record f.new_tunnel { tags = without tag f.new_tunnel.tags };
}

unfoldable pub handle_clone : Tunnel → Form → Form
handle_clone tunnel f = record f {
  new_tunnel = record {
    name = String.◌++◌ tunnel.name "-copy";
    protocol = tunnel.protocol;
    local_port = tunnel.local_port;
    remote_port = tunnel.remote_port;
    domain = "";
    tags = elim tunnel.tags [ none ↦ [] | some tags ↦ tags ];
  };
  create_tab = scratch;
  show_create = true;
}

unfoldable pub apply_template : TunnelTemplate → Form → Form
apply_template tmpl f = record f {
  new_tunnel = record f.new_tunnel {
    name = tmpl.name;
    protocol = tmpl.protocol;
    local_port = tmpl.local_port;
  };
  create_tab = scratch;
}
