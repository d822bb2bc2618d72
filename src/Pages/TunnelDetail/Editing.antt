-- ===== src/Pages/TunnelDetail/Editing.antt =====
-- What the edit dialog sends, after whatever has happened on the page before.
use omni_tun.Prelude.{
  ℤ, pos, String, ◌≡◌, refl, Option, none, some, List, [], ◌∷◌, arith, ◌≢◌, ◌==◌, Bool-cases, inl,
  inr, ne→eq_false,
}
use omni_tun.Types.{Tunnel}
use omni_tun.Js.{Value, num, str, Entries, entry, no_entries}
use omni_tun.Js.Env.{Js}
use omni_tun.Api.{Request, Reply, Result, ok, throw, App}
use omni_tun.Queries.{Queries, update_tunnel, mutate}
use omni_tun.Pages.TunnelDetail.Defs.{
  TrafficPoint, AuthMode, no_auth, auth_text, TunnelDetail, new_detail, on_point, open_edit,
  close_edit, edit_input, edited, handle_edit, switch_tunnel, restart_button,
}

-- What can happen on the page. The dialog is opened for what the query of the tunnel has by then;
-- the field of the connections has a whole number.
pub data DetailEvent : Type 0 where
  point : TrafficPoint → DetailEvent
  opens : Option Tunnel → DetailEvent
  types_name : String → DetailEvent
  chooses_auth : AuthMode → DetailEvent
  types_max : ℤ → DetailEvent
  cancels saves : DetailEvent
  switches restarts : Tunnel → DetailEvent

-- The name that the dialog has after an event, and the same of its other two fields.
abbrev pub name_after : DetailEvent → String → String
name_after (opens (some tunnel)) name = tunnel.name
name_after (types_name typed) name = typed
name_after _ name = name

abbrev pub auth_after : DetailEvent → AuthMode → AuthMode
auth_after (chooses_auth chosen) mode = chosen
auth_after _ mode = mode

abbrev pub max_after : DetailEvent → ℤ → ℤ
max_after (types_max typed) n = typed
max_after _ n = n

-- The latest name on the page, and the latest choices, `"none"` and 10 before the first one. The
-- latest event comes first.
abbrev pub last_name : List DetailEvent → String
last_name [] = ""
last_name (ev ∷ evs) = name_after ev (last_name evs)

abbrev pub last_auth : List DetailEvent → AuthMode
last_auth [] = no_auth
last_auth (ev ∷ evs) = auth_after ev (last_auth evs)

abbrev pub last_max : List DetailEvent → ℤ
last_max [] = pos 10
last_max (ev ∷ evs) = max_after ev (last_max evs)

abbrev pub input_of : String → List DetailEvent → Entries
input_of id evs = entry "id" (str id) (
    entry "name" (str (last_name evs)) (
      entry "auth_mode" (str (auth_text (last_auth evs)))
        (entry "max_connections" (num (last_max evs)) no_entries)))

-- The three fields of the dialog.
pub record Fields (s : TunnelDetail) (name : String) (mode : AuthMode) (n : ℤ) : Type 0 where
  pub name_is : s.edit_name ≡ name
  pub auth_is : s.edit_auth_mode ≡ mode
  pub max_is : s.edit_max_connections ≡ n

module _ (js : Js) (app : App) (net : List Request → Request → Reply) where
  edited-Fields :
      {s : TunnelDetail} {name : String} {mode : AuthMode} {n : ℤ} (id : String) (r : Result Value)
      (q : Queries)
      → Fields s name mode n
      → Fields (edited js app net id r (record s { queries = q })) name mode n
  unfolding edited
  edited-Fields id (ok v) q f = record {
    name_is = f.name_is;
    auth_is = f.auth_is;
    max_is = f.max_is;
  }
  edited-Fields id (throw e) q f = record {
    name_is = f.name_is;
    auth_is = f.auth_is;
    max_is = f.max_is;
  }

  handle_edit-Fields :
      (route_id : Option String) {s : TunnelDetail} {name : String} {mode : AuthMode} {n : ℤ}
      → Fields s name mode n
      → Fields (handle_edit js app net route_id s) name mode n
  unfolding handle_edit
  handle_edit-Fields none f = f
  handle_edit-Fields (some id) {s} f =
      let call = mutate js app net (update_tunnel (edit_input id s)) s.queries in
      elim (Bool-cases (id == "")) [
        | inl missing ↦ rw (missing, handle_edit) f
        | inr there ↦ rw (there, handle_edit) (edited-Fields id call.0 call.1 f)
      ]

module _ (js : Js) (app : App) (net : List Request → Request → Reply)
    (route_id : Option String) where
  abbrev pub handle_detail : DetailEvent → TunnelDetail → TunnelDetail
  handle_detail (point p) s = on_point p s
  handle_detail (opens tunnel) s = open_edit tunnel s
  handle_detail (types_name typed) s = record s { edit_name = typed }
  handle_detail (chooses_auth mode) s = record s { edit_auth_mode = mode }
  handle_detail (types_max n) s = record s { edit_max_connections = n }
  handle_detail cancels s = close_edit s
  handle_detail saves s = handle_edit js app net route_id s
  handle_detail (switches tunnel) s = switch_tunnel js app net tunnel s
  handle_detail (restarts tunnel) s = restart_button js app net tunnel s

  abbrev pub after_events : List DetailEvent → TunnelDetail → TunnelDetail
  after_events [] s = s
  after_events (ev ∷ evs) s = handle_detail ev (after_events evs s)

  switch_tunnel-Fields :
      {s : TunnelDetail} {name : String} {mode : AuthMode} {n : ℤ} (tunnel : Tunnel)
      → Fields s name mode n
      → Fields (switch_tunnel js app net tunnel s) name mode n
  unfolding switch_tunnel
  switch_tunnel-Fields tunnel f = ground arith

  handle_detail-Fields :
      (ev : DetailEvent) {s : TunnelDetail} {name : String} {mode : AuthMode} {n : ℤ}
      → Fields s name mode n
      → Fields (handle_detail ev s) (name_after ev name) (auth_after ev mode) (max_after ev n)
  unfolding on_point open_edit close_edit restart_button
  handle_detail-Fields (point p) f = ground arith
  handle_detail-Fields (opens none) f = f
  handle_detail-Fields (opens (some tunnel)) f = ground arith
  handle_detail-Fields (types_name typed) f = ground arith
  handle_detail-Fields (chooses_auth mode) f = ground arith
  handle_detail-Fields (types_max n) f = ground arith
  handle_detail-Fields cancels f = ground arith
  handle_detail-Fields saves f = handle_edit-Fields js app net route_id f
  handle_detail-Fields (switches tunnel) f = switch_tunnel-Fields tunnel f
  handle_detail-Fields (restarts tunnel) f = ground arith

  after_events-Fields :
      (evs : List DetailEvent) (traffic : List TrafficPoint) (q : Queries)
      → Fields
          (after_events evs (new_detail traffic q))
          (last_name evs)
          (last_auth evs)
          (last_max evs)
  unfolding new_detail
  after_events-Fields [] traffic q = record { name_is = refl; auth_is = refl; max_is = refl }
  after_events-Fields (ev ∷ evs) traffic q =
      handle_detail-Fields ev (after_events-Fields evs traffic q)

edit_input-Fields :
    (id : String) {s : TunnelDetail} {name : String} {mode : AuthMode} {n : ℤ}
    → Fields s name mode n
    → edit_input id s
      ≡ entry "id" (str id) (
          entry "name"
            (str name)
            (entry "auth_mode" (str (auth_text mode)) (entry "max_connections" (num n) no_entries)))
unfolding edit_input
edit_input-Fields id f = rw (f.name_is, f.auth_is, f.max_is)

-- Whatever has happened on the page before, whichever tunnel the dialog was opened for and whatever mode
-- that tunnel has: "save" sends the latest name on the page with the auth mode and the number of
-- connections that were last chosen on it, which are "none" and 10 if none were.
pub handle_edit-after_events :
    (js : Js) (app : App) (net : List Request → Request → Reply) (id : String)
    (evs : List DetailEvent) (traffic : List TrafficPoint) (q : Queries)
    → id ≢ ""
    → (let s = after_events js app net (some id) evs (new_detail traffic q) in
        handle_edit js app net (some id) s ≡ (
          let (result, q') = mutate js app net (update_tunnel (input_of id evs)) s.queries in
          edited js app net id result (record s { queries = q' })))
unfolding handle_edit
handle_edit-after_events js app net id evs traffic q there =
    let f = after_events-Fields js app net (some id) evs traffic q in
    rw (ne→eq_false id "" there, handle_edit) (rw (edit_input-Fields id f))
