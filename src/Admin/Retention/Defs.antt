-- ===== src/Admin/Retention/Defs.antt =====
-- The settings, which the first render takes from the query, and the two mutations.
use omni_tun.Prelude.{
  String, Bool, true, false, Option, none, some, List, [], ◌∷◌, Dict, get, put, if◌then◌else◌,
}
use omni_tun.Js.{Value, undefined, str, entry, no_entries}
use omni_tun.Js.Env.{Js}
use omni_tun.Api.{Request, Reply, Result, App}
use omni_tun.Queries.{Queries, bare, with_body, send_mutation}

abbrev pub Settings : Type 0
Settings = Dict String

-- `Object.keys(settings).length === 0`
abbrev pub is_empty_settings : Settings → Bool
is_empty_settings [] = true
is_empty_settings (s ∷ rest) = false

-- A render calls `setSettings`, and so asks for another one, where there is data and no setting; the
-- data are the settings that the query gave.
unfoldable pub wants_settings : Option Settings → Settings → Bool
wants_settings none settings = false
wants_settings (some given) settings = is_empty_settings settings

abbrev pub given_settings : Option Settings → Settings
given_settings none = []
given_settings (some given) = given

unfoldable pub render : Option Settings → Settings → Settings
render given settings = if wants_settings given settings then given_settings given else settings

unfoldable pub handle_select_change : String → String → Settings → Settings
handle_select_change key value settings = put key value settings

abbrev pub setting_value : Option String → Value
setting_value none = undefined
setting_value (some v) = str v

abbrev pub retention_key : List String
retention_key = "admin" ∷ "retention" ∷ []

module _ (js : Js) (app : App) (net : List Request → Request → Reply) where
  unfoldable pub handle_save_setting : String → Settings → Queries → Result Value × Queries
  handle_save_setting data_type settings =
      send_mutation js app net "/api/admin/v1/retention"
        (with_body js "PUT" (entry data_type (setting_value (get data_type settings)) no_entries))
        (retention_key ∷ [])

  unfoldable pub clean_up_data : Queries → Result Value × Queries
  clean_up_data =
      send_mutation js app net "/api/admin/v1/retention/cleanup" (bare "POST") (retention_key ∷ [])
