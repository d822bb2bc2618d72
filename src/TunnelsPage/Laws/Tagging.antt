-- ===== src/TunnelsPage/Laws/Tagging.antt =====
-- Which tunnel gets the tags of the form.
use Prim.Native.String
use omni_tun.Prelude.{String, ◌≡◌, refl, List, [], ◌∷◌, length, ◌<◌, arith}
use omni_tun.Types.{Tunnel}
use omni_tun.Js.{Value}
use omni_tun.Js.Env.{Js}
use omni_tun.Api.{Request, Reply, ok, World, App, request}
use omni_tun.Queries.{create_tunnel, mutate}
use omni_tun.TunnelsPage.Filling.{new_form}
use omni_tun.TunnelsPage.Creating.{
  Page, create_input, tags_path, tags_options, put_tags, created, handle_create,
}

module _ (js : Js) (app : App) (net : List Request → Request → Reply) where
  put_tags-some :
      (tunnels : List Tunnel) (tags : List String) (w : World)
      → 0 < length tags
      → put_tags js app net tunnels tags w
        ≡ (request js app net (tags_path tunnels) (tags_options js tags) w).1
  unfolding put_tags
  put_tags-some tunnels [] w h = absurd (omega arith)
  put_tags-some tunnels (t ∷ tags) w h = ground arith

  -- After the creation has succeeded the tags go to the first tunnel of the list shown before it,
  -- whatever tunnel the creation returned; the form is empty again.
  pub handle_create-tags_first :
      (first : Tunnel) (tunnels : List Tunnel) (p : Page) (v : Value)
      → 0 < length p.form.new_tunnel.tags
      → (mutate js app net (create_tunnel (create_input p.form.new_tunnel)) p.queries).0 ≡ ok v
      → ((handle_create js app net (first ∷ tunnels) p).queries.api
          ≡ (request js app net
              (String.◌++◌ "/v1/tunnels/" (String.◌++◌ first.id "/tags"))
              (tags_options js p.form.new_tunnel.tags)
              (mutate js app net
                (create_tunnel (create_input p.form.new_tunnel))
                p.queries).1.api).1)
        × ((handle_create js app net (first ∷ tunnels) p).form ≡ new_form)
  unfolding handle_create created
  handle_create-tags_first first tunnels p v h succeeded =
      rw succeeded (put_tags-some (first ∷ tunnels) p.form.new_tunnel.tags _ h, refl)
