-- ===== src/Queries/Invalidation.antt =====
-- What a mutation invalidates, and when.
use omni_tun.Prelude.{◌≡◌, refl, List, [], ◌∷◌, ◌++◌, String, Bool, false, any, ◌==◌}
use omni_tun.Js.{Value}
use omni_tun.Js.Env.{Js}
use omni_tun.Api.{Request, Options, Reply, Result, ok, throw, World, App, request, build_url}
use omni_tun.Api.Laws.Errors.{Ends, request-Ends}
use omni_tun.Queries.Defs.{
  Queries, Mutation, create_tunnel, update_tunnel, delete_tunnel, start_tunnel, stop_tunnel,
  restart_tunnel, create_network, join_network, delete_network, create_invite, remove_node, path_of,
  options_of, keys_of, on_success, send_mutation, mutate,
}

abbrev pub begins_with : String → List String → Bool
begins_with part [] = false
begins_with part (k ∷ key) = k == part

-- The query of a single tunnel, `['tunnel', id]`, is invalidated by no mutation: no key that one
-- invalidates begins with its first part.
pub keys_of-misses_tunnel : (mu : Mutation) → any (begins_with "tunnel") (keys_of mu) ≡ false
unfolding keys_of
keys_of-misses_tunnel (create_tunnel input) = refl
keys_of-misses_tunnel (update_tunnel input) = refl
keys_of-misses_tunnel (delete_tunnel id) = refl
keys_of-misses_tunnel (start_tunnel id) = refl
keys_of-misses_tunnel (stop_tunnel id) = refl
keys_of-misses_tunnel (restart_tunnel id) = refl
keys_of-misses_tunnel (create_network input) = refl
keys_of-misses_tunnel (join_network input) = refl
keys_of-misses_tunnel (delete_network id) = refl
keys_of-misses_tunnel (create_invite network_id id) = refl
keys_of-misses_tunnel (remove_node network_id node_id) = refl

module _ (js : Js) (app : App) (net : List Request → Request → Reply) where
  -- On success the keys are invalidated and the server has answered the path with a 2xx response; on
  -- failure nothing is invalidated.
  abbrev pub Outcome : String → List (List String) → Queries → Result Value → Queries → Type 0
  Outcome path keys before (ok v) after =
      (after.invalidated ≡ keys ++ before.invalidated)
      × Ends js app net (build_url js app net path) after.api v
  Outcome path keys before (throw e) after = after.invalidated ≡ before.invalidated

  on_success-Outcome :
      (path : String) (keys : List (List String)) (s : Queries) (result : Result Value) (w : World)
      → ((v : Value) → result ≡ ok v → Ends js app net (build_url js app net path) w v)
      → Outcome path keys s result (on_success js app net keys result (record s { api = w }))
  on_success-Outcome path keys s (ok v) w h = (refl, h v refl)
  on_success-Outcome path keys s (throw e) w h = refl

  pub send_mutation-Outcome :
      (path : String) (options : Options) (keys : List (List String)) (s : Queries)
      → Outcome path keys s
          (send_mutation js app net path options keys s).0
          (send_mutation js app net path options keys s).1
  unfolding send_mutation
  send_mutation-Outcome path options keys s =
      let call = request js app net path options s.api in
      on_success-Outcome path keys s call.0 call.1 (request-Ends js app net path options s.api)

  -- A mutation that returns a value has invalidated its keys, and the last request sent went to the URL
  -- of its path and was answered with a 2xx response; one that throws invalidates nothing.
  pub mutate-Outcome :
      (mu : Mutation) (s : Queries)
      → Outcome (path_of js mu) (keys_of mu) s (mutate js app net mu s).0 (mutate js app net mu s).1
  unfolding mutate
  mutate-Outcome mu s = send_mutation-Outcome (path_of js mu) (options_of js mu) (keys_of mu) s
