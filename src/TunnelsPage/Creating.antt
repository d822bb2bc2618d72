-- ===== src/TunnelsPage/Creating.antt =====
-- The creation of a tunnel from the form, with the call that sets its tags, and the deletion.
use omni_tun.Prelude.{
  ℕ, ◌+◌, pos, String, Option, none, some, List, [], ◌∷◌, ltb, length, ◌==◌, if◌then◌else◌,
}
use Prim.Native.String
use omni_tun.Types.{Tunnel, protocol_text}
use omni_tun.Js.{Value, undefined, num, str, obj, arr, Entries, entry, no_entries}
use omni_tun.Js.Env.{Js}
use omni_tun.Api.{Request, Options, Reply, Result, ok, throw, World, App, request}
use omni_tun.Queries.{Queries, create_tunnel, delete_tunnel, mutate}
use omni_tun.TunnelsPage.Listing.{id_items}
use omni_tun.TunnelsPage.Filling.{NewTunnel, Form, new_form}

-- The queries with the form, the tunnel whose deletion is asked for, and the number of success toasts.
pub record Page : Type 0 where
  pub queries : Queries
  pub form : Form
  pub delete_target : Option Tunnel
  pub toasts : ℕ

-- `domain || undefined`
unfoldable pub create_input : NewTunnel → Entries
create_input t = entry "name" (str t.name) (
    entry "protocol" (str (protocol_text t.protocol)) (
      entry "local_port" (num (pos t.local_port)) (
        entry "remote_port" (num (pos t.remote_port))
          (entry "domain" (if t.domain == "" then undefined else str t.domain) no_entries))))

-- `tunnels[0]?.id`
abbrev pub first_id : List Tunnel → String
first_id [] = "undefined"
first_id (t ∷ tunnels) = t.id

abbrev pub tags_path : List Tunnel → String
tags_path tunnels = String.◌++◌ "/v1/tunnels/" (String.◌++◌ (first_id tunnels) "/tags")

abbrev pub tags_options : Js → List String → Options
tags_options js tags = record {
  method = some "PUT";
  headers = [];
  body = some (js.stringify (obj (entry "tags" (arr (id_items tags)) no_entries)));
}

module _ (js : Js) (app : App) (net : List Request → Request → Reply) where
  -- The call for the tags, whose result is dropped.
  unfoldable pub put_tags : List Tunnel → List String → World → World
  put_tags tunnels tags w =
      if ltb 0 (length tags)
      then (request js app net (tags_path tunnels) (tags_options js tags) w).1
      else w

  -- What follows the mutation: the rest of the `try`, or the empty `catch`.
  unfoldable pub created : List Tunnel → Result Value → Page → Page
  created tunnels (throw e) p = p
  created tunnels (ok v) p = record p {
    queries = record p.queries { api = put_tags tunnels p.form.new_tunnel.tags p.queries.api };
    form = new_form;
    toasts = p.toasts + 1;
  }

  -- `handleCreate`; `tunnels` is the list that was shown when the handler was made.
  unfoldable pub handle_create : List Tunnel → Page → Page
  handle_create tunnels p =
      let (result, q) =
        mutate js app net (create_tunnel (create_input p.form.new_tunnel)) p.queries in
      created tunnels result (record p { queries = q })

  unfoldable pub deleted : Result Value → Page → Page
  deleted (throw e) p = p
  deleted (ok v) p = record p { delete_target = none; toasts = p.toasts + 1 }

  unfoldable pub handle_delete : Page → Page
  handle_delete p = elim p.delete_target [
    | none ↦ p
    | some tunnel ↦
        let (result, q) = mutate js app net (delete_tunnel tunnel.id) p.queries in
        deleted result (record p { queries = q })
  ]
