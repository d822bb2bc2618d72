-- ===== src/Pages/Networks.antt =====
-- web/src/pages/Networks.tsx: the dialogs over the mutations of the networks.
use omni_tun.Prelude.{String, Bool, false, Option, none, some, List, ◌∷◌}
use omni_tun.Js.{Value, str, entry, no_entries}
use omni_tun.Js.Env.{Js}
use omni_tun.Api.{Request, Reply, Result, ok, throw, App}
use omni_tun.Queries.{Queries, create_network, join_network, delete_network, mutate}

-- The id of the network to delete, and the toasts, as translation keys, the latest first.
pub record NetworksPage : Type 0 where
  pub show_create : Bool
  pub show_join : Bool
  pub delete_target : Option String
  pub name : String
  pub cidr : String
  pub invite_code : String
  pub toasts : List String
  pub queries : Queries

module _ (js : Js) (app : App) (net : List Request → Request → Reply) where
  -- An error stays with the mutation.
  abbrev pub network_created : Result Value → NetworksPage → NetworksPage
  network_created (ok v) s = record s {
    show_create = false;
    name = "";
    cidr = "";
    toasts = "networks.created" ∷ s.toasts;
  }
  network_created (throw e) s = s

  unfoldable pub handle_create_network : NetworksPage → NetworksPage
  handle_create_network s =
      let (result, q) =
        mutate js app net
          (create_network (entry "name" (str s.name) (entry "cidr" (str s.cidr) no_entries)))
          s.queries in
      network_created result (record s { queries = q })

  abbrev pub network_joined : Result Value → NetworksPage → NetworksPage
  network_joined (ok v) s = record s {
    show_join = false;
    invite_code = "";
    toasts = "networks.joined" ∷ s.toasts;
  }
  network_joined (throw e) s = s

  unfoldable pub handle_join_network : NetworksPage → NetworksPage
  handle_join_network s =
      let (result, q) =
        mutate js app net (join_network (entry "invite_code" (str s.invite_code) no_entries))
          s.queries in
      network_joined result (record s { queries = q })

  abbrev pub network_deleted : Result Value → NetworksPage → NetworksPage
  network_deleted (ok v) s = record s {
    delete_target = none;
    toasts = "networks.deleted" ∷ s.toasts;
  }
  network_deleted (throw e) s = s

  unfoldable pub handle_delete_network : NetworksPage → NetworksPage
  handle_delete_network s = elim s.delete_target [
    | none ↦ s
    | some id ↦
        let (result, q) = mutate js app net (delete_network id) s.queries in
        network_deleted result (record s { queries = q })
  ]
