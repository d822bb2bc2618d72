-- ===== src/Admin/IpWhitelist/Defs.antt =====
-- The form, its submission, and the deletion of an entry. An error is a text or a translation key.
use omni_tun.Prelude.{String, Option, none, some, List, [], ◌∷◌, ◌==◌, if◌then◌else◌}
use Prim.Native.String
use omni_tun.Js.{Value, str, entry, no_entries}
use omni_tun.Js.Env.{Js}
use omni_tun.Api.{Request, Options, Reply, Result, ok, throw, App, World, request}
use omni_tun.Queries.{Queries, plain, bare, error_message, with_body, send_mutation}
use omni_tun.Forms.{is_blank}
use omni_tun.Admin.IpWhitelist.Cidr.{validate_cidr}

pub record Whitelist : Type 0 where
  pub org_id : String
  pub new_cidr : String
  pub new_label : String
  pub add_error : Value
  pub queries : Queries

abbrev pub whitelist_key : List String
whitelist_key = "admin" ∷ "ip-whitelist" ∷ []

abbrev pub whitelist_path : String → String → String
whitelist_path org rest =
    String.◌++◌ "/api/admin/v1/organizations/" (String.◌++◌ org (String.◌++◌ "/ip-whitelist" rest))

module _ (js : Js) (app : App) (net : List Request → Request → Reply) where
  -- `onSuccess` and `onError` of the addition.
  abbrev pub added : Result Value → Whitelist → Whitelist
  added (ok v) s = record s { new_cidr = ""; new_label = ""; add_error = str "" }
  added (throw e) s = record s { add_error = error_message e }

  abbrev pub entry_body : Whitelist → Options
  entry_body s = with_body js "POST" (
      entry "cidr" (str s.new_cidr)
        (entry "label" (str (if s.new_label == "" then s.new_cidr else s.new_label)) no_entries))

  unfoldable pub handle_add : Whitelist → Whitelist
  handle_add s =
      if validate_cidr s.new_cidr
      then (let (result, q) =
            send_mutation js app net (whitelist_path s.org_id "") (entry_body s)
              (whitelist_key ∷ []) s.queries in
          added result (record s { queries = q }))
      else record s { add_error = str "ipWhitelist.invalidCidr" }

  unfoldable pub delete_entry : String → Whitelist → Whitelist
  delete_entry id s =
      let (result, q) =
        send_mutation js app net (whitelist_path s.org_id (String.◌++◌ "/" id)) (bare "DELETE")
          (whitelist_key ∷ []) s.queries in
      record s { queries = q }

  -- The query, where it is enabled; `trim` is `String.prototype.trim`.
  unfoldable pub query_whitelist : (String → String) → Whitelist → Option (Result Value × World)
  query_whitelist trim s =
      if is_blank s.org_id
      then none
      else some (request js app net (whitelist_path (trim s.org_id) "") plain s.queries.api)
