-- ===== src/Admin/Reports.antt =====
-- admin/src/pages/AuditReports.tsx: the form of a report and its call.
use Prim.Native.String
use omni_tun.Prelude.{String, Bool, ◌||◌, List, [], ◌∷◌, ◌++◌, ◌==◌, if◌then◌else◌}
use omni_tun.Js.{Value}
use omni_tun.Js.Env.{Js}
use omni_tun.Api.{Request, Reply, Result, App, World, request}
use omni_tun.Queries.{Queries, plain, send_mutation}
use omni_tun.Admin.AuditLogs.{param_if}

pub data ReportsTab : Type 0 where
  generate history : ReportsTab

pub record Reports : Type 0 where
  pub selected_template : String
  pub from_date : String
  pub to_date : String
  pub org_filter : String
  pub format : String
  pub active_tab : ReportsTab
  pub queries : Queries

unfoldable pub new_reports : Queries → Reports
new_reports q = record {
  selected_template = "";
  from_date = "";
  to_date = "";
  org_filter = "";
  format = "json";
  active_tab = generate;
  queries = q;
}

unfoldable pub report_params : Reports → List (String × String)
report_params s =
    (("template", s.selected_template) ∷ ("from", s.from_date) ∷ ("to", s.to_date) ∷ [])
    ++ (param_if "org_id" s.org_filter ++ (("format", s.format) ∷ []))

abbrev pub is_incomplete : Reports → Bool
is_incomplete s = (s.selected_template == "") || (s.from_date == "") || (s.to_date == "")

abbrev pub history_key : List String
history_key = "admin" ∷ "reports" ∷ "history" ∷ []

module _ (js : Js) (app : App) (net : List Request → Request → Reply) where
  -- `encode` is `URLSearchParams.prototype.toString`.
  unfoldable pub handle_generate : (List (String × String) → String) → Reports → Reports
  handle_generate encode s = if is_incomplete s then s else record s {
    queries =
        (send_mutation js app net
          (String.◌++◌ "/api/admin/v1/reports/audit?" (encode (report_params s))) plain
          (history_key ∷ []) s.queries).1;
  }

  unfoldable pub query_history : World → Result Value × World
  query_history w = request js app net "/api/admin/v1/reports/history" plain w
