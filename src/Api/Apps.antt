-- ===== src/Api/Apps.antt =====
-- The two applications, and the client of the administration (admin/src/lib/api.ts), which is that of
-- the web application at its own keys and refresh path.
use omni_tun.Prelude.{String, List}
use omni_tun.Js.{Value}
use omni_tun.Js.Env.{Js}
use omni_tun.Token.{Storage, web_keys, admin_keys}
use omni_tun.Api.Http.{Request, Options, Reply, Result, World, App}
use omni_tun.Api.Client.{new_client, set_token, clear_token, build_url, do_refresh, request}

-- `base_url` is `''` but in a production build.
abbrev pub web_app : String → App
web_app base_url = record {
  keys = web_keys;
  base_url = base_url;
  refresh_path = "/v1/auth/refresh";
}

abbrev pub admin_app : String → App
admin_app base_url = record {
  keys = admin_keys;
  base_url = base_url;
  refresh_path = "/api/admin/v1/auth/refresh";
}

module _ (js : Js) (base_url : String) (net : List Request → Request → Reply) where
  unfoldable pub admin_new_client : Storage → World
  admin_new_client = new_client js (admin_app base_url) net

  unfoldable pub admin_set_token : Value → World → World
  admin_set_token = set_token js (admin_app base_url) net

  unfoldable pub admin_clear_token : World → World
  admin_clear_token = clear_token js (admin_app base_url) net

  unfoldable pub admin_build_url : String → String
  admin_build_url = build_url js (admin_app base_url) net

  unfoldable pub admin_do_refresh : World → Value × World
  admin_do_refresh = do_refresh js (admin_app base_url) net

  unfoldable pub admin_request : String → Options → World → Result Value × World
  admin_request = request js (admin_app base_url) net
