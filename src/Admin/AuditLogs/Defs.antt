-- ===== src/Admin/AuditLogs/Defs.antt =====
-- The filters and the page, with the query that they make.
use Prim.Native.String
use omni_tun.Prelude.{
  ℕ, ◌+◌, ◌-◌, ◌*◌, ◌/◌, String, not, ◌&&◌, Option, none, some, List, [], ◌∷◌, ◌++◌, ◌==◌, nat_eq,
  leb, ltb, if◌then◌else◌,
}
use omni_tun.Js.{Value}
use omni_tun.Js.Env.{Js}
use omni_tun.Api.{Request, Reply, Result, App, World, request}
use omni_tun.Queries.{plain}

pub record Filters : Type 0 where
  pub org_id : String
  pub action : String
  pub resource_type : String
  pub user_id : String
  pub from : String
  pub to : String

pub record AuditLogs : Type 0 where
  pub filters : Filters
  pub page : ℕ
  pub expanded_row : Option String

abbrev pub no_filters : Filters
no_filters = record {
  org_id = "";
  action = "";
  resource_type = "";
  user_id = "";
  from = "";
  to = "";
}

abbrev pub new_logs : AuditLogs
new_logs = record { filters = no_filters; page = 0; expanded_row = none }

abbrev pub limit : ℕ
limit = 50

-- The keys of the filters.
pub data FilterKey : Type 0 where
  org_id_key action_key resource_type_key user_id_key from_key to_key : FilterKey

abbrev pub with_filter : FilterKey → String → Filters → Filters
with_filter org_id_key v f = record f { org_id = v }
with_filter action_key v f = record f { action = v }
with_filter resource_type_key v f = record f { resource_type = v }
with_filter user_id_key v f = record f { user_id = v }
with_filter from_key v f = record f { from = v }
with_filter to_key v f = record f { to = v }

-- A changed filter goes back to the first page.
unfoldable pub handle_filter_change : FilterKey → String → AuditLogs → AuditLogs
handle_filter_change key value s = record s { filters = with_filter key value s.filters; page = 0 }

abbrev pub param_if : String → String → List (String × String)
param_if name value = if value == "" then [] else (name, value) ∷ []

-- `URLSearchParams` with its `set` calls, and `String(n)`, which is `number_text`.
unfoldable pub query_params : (ℕ → String) → AuditLogs → List (String × String)
query_params number_text s =
    param_if "org_id" s.filters.org_id
    ++ (param_if "action" s.filters.action
        ++ (param_if "resource_type" s.filters.resource_type
            ++ (param_if "user_id" s.filters.user_id
                ++ (param_if "from" s.filters.from
                    ++ (param_if "to" s.filters.to
                        ++ (("limit", number_text limit)
                            ∷ ("offset", number_text (s.page * limit))
                            ∷ []))))))

-- `Math.ceil(total / limit)`
unfoldable pub total_pages : ℕ → ℕ
total_pages total = (total + (limit - 1)) / limit

-- The buttons, which are shown where there is more than one page, and disabled at the ends.
unfoldable pub click_next : ℕ → AuditLogs → AuditLogs
click_next total s =
    if ltb 1 (total_pages total) && not (leb (total_pages total - 1) s.page)
    then record s { page = s.page + 1 }
    else s

unfoldable pub click_previous : ℕ → AuditLogs → AuditLogs
click_previous total s =
    if ltb 1 (total_pages total) && not (nat_eq s.page 0) then record s { page = s.page - 1 } else s

unfoldable pub toggle_row : String → AuditLogs → AuditLogs
toggle_row id s = record s {
  expanded_row = elim s.expanded_row [
    | none ↦ some id
    | some prev ↦ if prev == id then none else some id
  ];
}

-- `encode` is `URLSearchParams.prototype.toString`.
unfoldable pub query_logs :
    Js
    → App
    → (List Request → Request → Reply)
    → (List (String × String) → String)
    → (ℕ → String)
    → AuditLogs
    → World
    → Result Value × World
query_logs js app net encode number_text s w =
    request js app net
      (String.◌++◌ "/api/admin/v1/audit-logs?" (encode (query_params number_text s))) plain w
