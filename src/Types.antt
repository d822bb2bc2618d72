-- ===== src/Types.antt =====
-- web/src/lib/types.ts: the records that the modelled pages read.
use omni_tun.Prelude.{String, Bool, ℕ, Option, List}

pub data Protocol : Type 0 where
  tcp http https : Protocol

abbrev pub protocol_text : Protocol → String
protocol_text tcp = "tcp"
protocol_text http = "http"
protocol_text https = "https"

pub data TunnelStatus : Type 0 where
  active stopped error : TunnelStatus

-- `Tunnel`; an optional field is `none` where it is missing.
pub record Tunnel : Type 0 where
  pub id : String
  pub name : String
  pub protocol : Protocol
  pub local_port : ℕ
  pub remote_port : ℕ
  pub domain : Option String
  pub status : TunnelStatus
  pub traffic_in : ℕ
  pub traffic_out : ℕ
  pub tags : Option (List String)
  pub auth_mode : Option String
  pub tls_mode : Option String
  pub compression : Option Bool
  pub created_at : String
  pub updated_at : String

pub record TunnelTemplate : Type 0 where
  pub id : String
  pub name : String
  pub icon : String
  pub protocol : Protocol
  pub local_port : ℕ
  pub tls_mode : String
  pub compression : Bool
  pub description : String
