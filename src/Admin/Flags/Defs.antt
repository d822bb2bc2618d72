-- ===== src/Admin/Flags/Defs.antt =====
-- The page: the list of the flags, the dialog and its calls.
use Prim.Native.String
use omni_tun.Prelude.{String, Bool, true, false, not, ◌||◌, Option, none, some, List, if◌then◌else◌}
use omni_tun.Js.{Value, bool, str, arr, Entries, entry, no_entries, no_elements, prop, or_else}
use omni_tun.Js.Env.{Js}
use omni_tun.Api.{Request, Reply, Result, ok, throw, App, World, request}
use omni_tun.Queries.{plain, bare, with_body}
use omni_tun.Forms.{is_blank}

-- What is typed; `type_name` is `type`.
pub record FlagForm : Type 0 where
  pub key : String
  pub name : String
  pub description : String
  pub type_name : String
  pub value : String
  pub enabled : Bool

-- A flag, without its dates.
pub record Flag : Type 0 where
  pub id : String
  pub fields : FlagForm

pub record FlagsPage : Type 0 where
  pub flags : Value
  pub is_loading : Bool
  pub dialog_open : Bool
  pub editing : Option Flag
  pub form : FlagForm
  pub is_saving : Bool
  pub api : World

abbrev pub new_flag : FlagForm
new_flag = record {
  key = "";
  name = "";
  description = "";
  type_name = "boolean";
  value = "{\"enabled\":true}";
  enabled = true;
}

unfoldable pub open_create_flag : FlagsPage → FlagsPage
open_create_flag s = record s { editing = none; form = new_flag; dialog_open = true }

unfoldable pub open_edit_flag : Flag → FlagsPage → FlagsPage
open_edit_flag flag s = record s { editing = some flag; form = flag.fields; dialog_open = true }

abbrev pub type_flag : FlagForm → FlagsPage → FlagsPage
type_flag typed s = record s { form = typed }

abbrev pub flags_path : String
flags_path = "/api/admin/v1/feature-flags"

abbrev pub flag_entries : FlagForm → Entries
flag_entries f = entry "key" (str f.key) (
    entry "name" (str f.name) (
      entry "description" (str f.description) (
        entry "type" (str f.type_name)
          (entry "value" (str f.value) (entry "enabled" (bool f.enabled) no_entries)))))

-- `trim` is `String.prototype.trim`.
abbrev pub trimmed : (String → String) → FlagForm → FlagForm
trimmed trim f = record f { key = trim f.key; name = trim f.name; description = trim f.description }

-- `data.flags || []`; `none` where the reply has no properties.
abbrev pub listed_flags : Result Value → Value
listed_flags (throw e) = arr no_elements
listed_flags (ok reply) = elim (prop reply "flags") [
  | none ↦ arr no_elements
  | some flags ↦ or_else flags (arr no_elements)
]

module _ (js : Js) (app : App) (net : List Request → Request → Reply) where
  unfoldable pub fetch_flags : FlagsPage → FlagsPage
  fetch_flags s =
      let (result, w) = request js app net flags_path plain s.api in
      record s { api = w; flags = listed_flags result; is_loading = false }

  abbrev pub flag_path : Flag → String
  flag_path flag =
      String.◌++◌ flags_path (String.◌++◌ "/" (js.encode_uri_component flag.fields.key))

  abbrev pub save_flag_call : (String → String) → FlagsPage → Result Value × World
  save_flag_call trim s = elim s.editing [
    | none ↦
        request js app net flags_path (with_body js "POST" (flag_entries (trimmed trim s.form)))
          s.api
    | some flag ↦
        request js app net (flag_path flag)
          (with_body js "PUT" (flag_entries (trimmed trim s.form))) s.api
  ]

  abbrev pub flag_saved : Result Value → FlagsPage → FlagsPage
  flag_saved (ok v) s = record (fetch_flags (record s { dialog_open = false })) {
    is_saving = false;
  }
  flag_saved (throw e) s = record s { is_saving = false }

  unfoldable pub handle_save_flag : (String → String) → FlagsPage → FlagsPage
  handle_save_flag trim s =
      if is_blank s.form.key || is_blank s.form.name
      then s
      else (let (result, w) = save_flag_call trim s in
          flag_saved result (record s { api = w; is_saving = true }))

  -- The list is fetched again after a success; an error is ignored.
  abbrev pub fetch_after : Result Value → FlagsPage → FlagsPage
  fetch_after (ok v) s = fetch_flags s
  fetch_after (throw e) s = s

  unfoldable pub handle_toggle_flag : Flag → FlagsPage → FlagsPage
  handle_toggle_flag flag s =
      let (result, w) =
        request js app net (flag_path flag)
          (with_body js "PUT"
            (flag_entries (record flag.fields { enabled = not flag.fields.enabled })))
          s.api in
      fetch_after result (record s { api = w })

  -- The first argument is the answer to `confirm`.
  unfoldable pub handle_delete_flag : Bool → Flag → FlagsPage → FlagsPage
  handle_delete_flag confirmed flag s =
      if confirmed
      then (let (result, w) = request js app net (flag_path flag) (bare "DELETE") s.api in
          fetch_after result (record s { api = w }))
      else s
