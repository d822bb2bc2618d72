-- ===== src/Admin/Roles/Defs.antt =====
-- The page: the list of the roles, the dialog and its calls.
use Prim.Native.String
use omni_tun.Prelude.{
  ◌>>=◌, String, Bool, true, false, Option, none, some, List, [], ◌∷◌, if◌then◌else◌,
}
use omni_tun.Js.{
  Value, undefined, str, obj, arr, Entries, entry, no_entries, Elements, element, no_elements, prop,
  own, or_else,
}
use omni_tun.Js.Env.{Js}
use omni_tun.Api.{
  Request, Reply, Result, ok, throw, Thrown, api_error, native_error, thrown, App, World, request,
}
use omni_tun.Queries.{plain, bare, with_body, error_message}
use omni_tun.Forms.{is_blank, is_code}
use omni_tun.Admin.Roles.Permissions.{toggle_permission, toggle_category}

-- `CustomRole`, without the dates and the number of its users.
pub record CustomRole : Type 0 where
  pub id : String
  pub name : String
  pub permissions : List String

-- The roles and the templates are what the server sent; `alerts` are the messages in what `alert` showed.
pub record RolesPage : Type 0 where
  pub roles : Value
  pub templates : Value
  pub is_loading : Bool
  pub dialog_open : Bool
  pub editing : Option CustomRole
  pub form_name : String
  pub form_perms : List String
  pub is_saving : Bool
  pub alerts : List Value
  pub api : World

unfoldable pub open_create : RolesPage → RolesPage
open_create s = record s { editing = none; form_name = ""; form_perms = []; dialog_open = true }

unfoldable pub open_edit : CustomRole → RolesPage → RolesPage
open_edit role s = record s {
  editing = some role;
  form_name = role.name;
  form_perms = role.permissions;
  dialog_open = true;
}

-- A list of texts, as the type of the templates says.
abbrev pub texts_of : Elements → Option (List String)
texts_of no_elements = some []
texts_of (element (str s) vs) = texts_of vs >>= λ rest. some (s ∷ rest)
texts_of (element v vs) = none

abbrev pub template_perms : String → Value → Option (List String)
template_perms name (obj fs) = elim (own name fs) [ arr items ↦ texts_of items | _ ↦ none ]
template_perms name v = none

unfoldable pub apply_role_template : String → RolesPage → RolesPage
apply_role_template name s = elim (template_perms name s.templates) [
  | none ↦ s
  | some perms ↦ record s { form_perms = perms }
]

abbrev pub tick_permission : String → RolesPage → RolesPage
tick_permission perm s = record s { form_perms = toggle_permission perm s.form_perms }

abbrev pub tick_category : List String → Bool → RolesPage → RolesPage
tick_category perms checked s = record s { form_perms = toggle_category perms checked s.form_perms }

abbrev pub roles_path : String
roles_path = "/api/admin/v1/roles"

-- `data.roles || []` and `data.templates || {}`; `none` where the reply has no properties.
abbrev pub listed_roles : Value → Option (Value × Value)
listed_roles reply = do
  roles ← prop reply "roles"
  templates ← prop reply "templates"
  some (or_else roles (arr no_elements), or_else templates (obj no_entries))

abbrev pub show_list : Option (Value × Value) → RolesPage → RolesPage
show_list none s = record s { roles = arr no_elements; is_loading = false }
show_list (some (roles, templates)) s = record s {
  roles = roles;
  templates = templates;
  is_loading = false;
}

abbrev pub list_read : Result Value → RolesPage → RolesPage
list_read (ok reply) s = show_list (listed_roles reply) s
list_read (throw e) s = show_list none s

-- `e.code` of what a call throws.
abbrev pub error_code : Thrown → Value
error_code (api_error e) = e.code
error_code (native_error message) = undefined
error_code (thrown v) = elim (prop v "code") [ none ↦ undefined | some code ↦ code ]

module _ (js : Js) (app : App) (net : List Request → Request → Reply) where
  unfoldable pub fetch_roles : RolesPage → RolesPage
  fetch_roles s =
      let (result, w) = request js app net roles_path plain s.api in
      list_read result (record s { api = w; is_loading = true })

  abbrev pub texts : List String → Elements
  texts [] = no_elements
  texts (p ∷ ps) = element (str p) (texts ps)

  -- The path of a role of the list.
  abbrev pub role_path : CustomRole → String
  role_path role = String.◌++◌ roles_path (String.◌++◌ "/" (js.encode_uri_component role.id))

  -- `trim` is `String.prototype.trim`.
  abbrev pub role_body : (String → String) → RolesPage → Entries
  role_body trim s =
      entry "name" (str (trim s.form_name))
        (entry "permissions" (arr (texts s.form_perms)) no_entries)

  abbrev pub save_call : (String → String) → RolesPage → Result Value × World
  save_call trim s = elim s.editing [
    | none ↦ request js app net roles_path (with_body js "POST" (role_body trim s)) s.api
    | some role ↦ request js app net (role_path role) (with_body js "PUT" (role_body trim s)) s.api
  ]

  abbrev pub role_saved : Result Value → RolesPage → RolesPage
  role_saved (ok v) s = record (fetch_roles (record s { dialog_open = false })) {
    is_saving = false;
  }
  role_saved (throw e) s = record s { is_saving = false }

  abbrev pub is_empty_list : List String → Bool
  is_empty_list [] = true
  is_empty_list (x ∷ xs) = false

  unfoldable pub handle_save_role : (String → String) → RolesPage → RolesPage
  handle_save_role trim s =
      if is_blank s.form_name
      then s
      else if is_empty_list s.form_perms
      then s
      else (let (result, w) = save_call trim s in
          role_saved result (record s { api = w; is_saving = true }))

  -- The alert is `Cannot delete: ` with this message.
  abbrev pub role_deleted : Result Value → RolesPage → RolesPage
  role_deleted (ok v) s = fetch_roles s
  role_deleted (throw e) s =
      if is_code "has_users" (error_code e)
      then record s { alerts = error_message e ∷ s.alerts }
      else s

  -- The first argument is the answer to `confirm`.
  unfoldable pub handle_delete_role : Bool → CustomRole → RolesPage → RolesPage
  handle_delete_role confirmed role s =
      if confirmed
      then (let (result, w) = request js app net (role_path role) (bare "DELETE") s.api in
          role_deleted result (record s { api = w }))
      else s
