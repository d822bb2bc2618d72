-- ===== src/Pages/NetworkDetail.antt =====
-- web/src/pages/NetworkDetail.tsx: the invite of a network and the removal of a node.
use omni_tun.Prelude.{String, Option, none, some, List, [], ◌∷◌}
use omni_tun.Js.{Value}
use omni_tun.Js.Env.{Js}
use omni_tun.Api.{Request, Reply, Result, ok, throw, App}
use omni_tun.Queries.{Queries, create_invite, remove_node, mutate, is_enabled}

-- The id of the node to remove, and the toasts, as translation keys, the latest first.
pub record NetworkDetail : Type 0 where
  pub remove_target : Option String
  pub toasts : List String
  pub queries : Queries

unfoldable pub new_network_detail : Queries → NetworkDetail
new_network_detail q = record { remove_target = none; toasts = []; queries = q }

unfoldable pub choose_node : Option String → NetworkDetail → NetworkDetail
choose_node target s = record s { remove_target = target }

module _ (js : Js) (app : App) (net : List Request → Request → Reply) where
  abbrev pub invite_created : Result Value → NetworkDetail → NetworkDetail
  invite_created (ok v) s = record s { toasts = "network_detail.invite_created" ∷ s.toasts }
  invite_created (throw e) s = s

  -- `handleCreateInvite`; the id is that of the route, which may be missing.
  unfoldable pub handle_create_invite : Option String → NetworkDetail → NetworkDetail
  handle_create_invite route_id s = elim (is_enabled route_id) [
    | none ↦ s
    | some id ↦
        let (result, q) = mutate js app net (create_invite route_id id) s.queries in
        invite_created result (record s { queries = q })
  ]

  abbrev pub node_removed : Result Value → NetworkDetail → NetworkDetail
  node_removed (ok v) s = record s {
    remove_target = none;
    toasts = "network_detail.node_removed" ∷ s.toasts;
  }
  node_removed (throw e) s = s

  unfoldable pub handle_remove_node : Option String → NetworkDetail → NetworkDetail
  handle_remove_node route_id s = elim s.remove_target [
    | none ↦ s
    | some node_id ↦
        let (result, q) = mutate js app net (remove_node route_id node_id) s.queries in
        node_removed result (record s { queries = q })
  ]
