-- ===== src/Pages/TunnelDetail/Defs.antt =====
-- The state of the page, the dialog with its call, the buttons, and the points of the chart.
use omni_tun.Prelude.{
  ℕ, zero, suc, ◌*◌, ℤ, pos, sub_ℕ, String, Bool, true, false, Option, none, some, List, [], ◌∷◌,
  ◌++◌, drop,
}
use omni_tun.Types.{Tunnel, active, stopped, error}
use omni_tun.Js.{Value, num, str, Entries, entry, no_entries}
use omni_tun.Js.Env.{Js}
use omni_tun.Api.{Request, Reply, Result, ok, throw, App, World, request}
use omni_tun.Queries.{
  Queries, plain, update_tunnel, start_tunnel, stop_tunnel, restart_tunnel, mutate, query_by,
  is_enabled, tunnel_path,
}

pub record TrafficPoint : Type 0 where
  pub timestamp : String
  pub bytes_in : ℕ
  pub bytes_out : ℕ

pub data AuthMode : Type 0 where
  no_auth basic oauth : AuthMode

abbrev pub auth_text : AuthMode → String
auth_text no_auth = "none"
auth_text basic = "basic"
auth_text oauth = "oauth"

-- The toasts are translation keys, the latest first.
pub record TunnelDetail : Type 0 where
  pub show_edit : Bool
  pub edit_name : String
  pub edit_auth_mode : AuthMode
  pub edit_max_connections : ℤ
  pub mock_traffic : List TrafficPoint
  pub toasts : List String
  pub queries : Queries

-- The points of `i - 1` down to 0 steps of five seconds before `now`. `iso` is
-- `new Date(…).toISOString()`, and `drawn_in i` and `drawn_out i` are the numbers drawn for step `i`.
abbrev pub points_before : (ℤ → String) → (ℕ → ℕ) → (ℕ → ℕ) → ℕ → ℕ → List TrafficPoint
points_before iso drawn_in drawn_out now zero = []
points_before iso drawn_in drawn_out now (suc i) =
    record {
      timestamp = iso (sub_ℕ now (i * 5000));
      bytes_in = drawn_in i;
      bytes_out = drawn_out i;
    }
    ∷ points_before iso drawn_in drawn_out now i

unfoldable pub generate_mock_traffic : (ℤ → String) → (ℕ → ℕ) → (ℕ → ℕ) → ℕ → List TrafficPoint
generate_mock_traffic iso drawn_in drawn_out now = points_before iso drawn_in drawn_out now 30

-- The page as it is mounted.
unfoldable pub new_detail : List TrafficPoint → Queries → TunnelDetail
new_detail traffic q = record {
  show_edit = false;
  edit_name = "";
  edit_auth_mode = no_auth;
  edit_max_connections = pos 10;
  mock_traffic = traffic;
  toasts = [];
  queries = q;
}

-- The timer of five seconds: `[...prev.slice(1)]`, and `push`.
unfoldable pub on_point : TrafficPoint → TunnelDetail → TunnelDetail
on_point p s = record s { mock_traffic = drop 1 s.mock_traffic ++ (p ∷ []) }

-- `openEdit`, with the tunnel that the query has.
unfoldable pub open_edit : Option Tunnel → TunnelDetail → TunnelDetail
open_edit none s = s
open_edit (some tunnel) s = record s { edit_name = tunnel.name; show_edit = true }

unfoldable pub close_edit : TunnelDetail → TunnelDetail
close_edit s = record s { show_edit = false }

-- The argument of `updateTunnel.mutateAsync`.
unfoldable pub edit_input : String → TunnelDetail → Entries
edit_input id s = entry "id" (str id) (
    entry "name" (str s.edit_name) (
      entry "auth_mode" (str (auth_text s.edit_auth_mode))
        (entry "max_connections" (num s.edit_max_connections) no_entries)))

module _ (js : Js) (app : App) (net : List Request → Request → Reply) where
  -- `refetch()`: one call of the query of the tunnel.
  unfoldable pub refetch_tunnel : String → Queries → Queries
  refetch_tunnel id q = record q { api = (request js app net (tunnel_path id "") plain q.api).1 }

  -- What follows the mutation: the rest of the `try`, or the empty `catch`.
  unfoldable pub edited : String → Result Value → TunnelDetail → TunnelDetail
  edited id (throw e) s = s
  edited id (ok v) s = record s {
    show_edit = false;
    toasts = "tunnel_detail.updated" ∷ s.toasts;
    queries = refetch_tunnel id s.queries;
  }

  -- `handleEdit`; the id is that of the route, which may be missing.
  unfoldable pub handle_edit : Option String → TunnelDetail → TunnelDetail
  handle_edit route_id s = elim (is_enabled route_id) [
    | none ↦ s
    | some id ↦
        let (result, q) = mutate js app net (update_tunnel (edit_input id s)) s.queries in
        edited id result (record s { queries = q })
  ]

  -- The first button: it starts a tunnel that is not active, and stops an active one.
  unfoldable pub switch_tunnel : Tunnel → TunnelDetail → TunnelDetail
  switch_tunnel tunnel s = elim tunnel.status [
    | active ↦ record s { queries = (mutate js app net (stop_tunnel tunnel.id) s.queries).1 }
    | stopped ↦ record s { queries = (mutate js app net (start_tunnel tunnel.id) s.queries).1 }
    | error ↦ record s { queries = (mutate js app net (start_tunnel tunnel.id) s.queries).1 }
  ]

  unfoldable pub restart_button : Tunnel → TunnelDetail → TunnelDetail
  restart_button tunnel s = record s {
    queries = (mutate js app net (restart_tunnel tunnel.id) s.queries).1;
  }

  -- The log of the tunnel, which is asked for every five seconds; `none` where it is not enabled.
  unfoldable pub query_logs : Option String → World → Option (Result Value × World)
  query_logs = query_by js app net (λ id. tunnel_path id "/logs")
