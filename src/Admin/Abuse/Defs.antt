-- ===== src/Admin/Abuse/Defs.antt =====
-- The blacklist with its form, and the reports with their filter.
use Prim.Native.String
use omni_tun.Prelude.{String, Bool, false, ◌||◌, List, [], ◌∷◌, ◌==◌, select, if◌then◌else◌}
use omni_tun.Js.{Value, str, entry, no_entries, coalesce}
use omni_tun.Js.Env.{Js}
use omni_tun.Api.{Request, Reply, Result, ok, throw, App}
use omni_tun.Queries.{Queries, bare, with_body, error_message, send_mutation}
use omni_tun.Forms.{is_blank}
use omni_tun.Palette.{includes}

-- An error is a text or a translation key.
pub record Blacklist : Type 0 where
  pub new_cidr : String
  pub new_reason : String
  pub add_error : Value
  pub queries : Queries

abbrev pub blacklist_key : List String
blacklist_key = "admin" ∷ "abuse" ∷ "blacklist" ∷ []

abbrev pub reports_key : List String
reports_key = "admin" ∷ "abuse" ∷ "reports" ∷ []

abbrev pub blacklist_path : String
blacklist_path = "/api/admin/v1/abuse/blacklist"

pub data ReportStatus : Type 0 where
  pending investigating resolved dismissed : ReportStatus

-- A report, without its dates, its reporter and its resolution.
pub record AbuseReport : Type 0 where
  pub id : String
  pub org_id : String
  pub tunnel_id : String
  pub reason : String
  pub description : String
  pub status : ReportStatus

-- `to_lower` is `toLowerCase`.
unfoldable pub report_matches : (String → String) → String → AbuseReport → Bool
report_matches to_lower search r =
    includes (to_lower search) (to_lower r.reason)
    || includes (to_lower search) (to_lower r.org_id)
    || includes (to_lower search) (to_lower r.tunnel_id)
    || (if r.description == "" then false else includes (to_lower search) (to_lower r.description))

unfoldable pub filtered_reports : (String → String) → String → List AbuseReport → List AbuseReport
filtered_reports to_lower search reports = select (report_matches to_lower search) reports

module _ (js : Js) (app : App) (net : List Request → Request → Reply) where
  -- `onSuccess` and `onError` of the addition.
  abbrev pub blacklisted : Result Value → Blacklist → Blacklist
  blacklisted (ok v) s = record s { new_cidr = ""; new_reason = ""; add_error = str "" }
  blacklisted (throw e) s = record s {
    add_error = coalesce (error_message e) (str "blacklist.cidrRequired");
  }

  abbrev pub or_manual : String → String
  or_manual reason = if reason == "" then "manual block" else reason

  -- `trim` is `String.prototype.trim`.
  unfoldable pub add_to_blacklist : (String → String) → Blacklist → Blacklist
  add_to_blacklist trim s =
      if is_blank s.new_cidr
      then record s { add_error = str "blacklist.cidrRequired" }
      else (let (result, q) =
            send_mutation js app net blacklist_path
              (with_body js "POST" (
                entry "cidr" (str (trim s.new_cidr))
                  (entry "reason" (str (or_manual (trim s.new_reason))) no_entries)))
              (blacklist_key ∷ []) s.queries in
          blacklisted result (record s { queries = q }))

  unfoldable pub remove_from_blacklist : String → Blacklist → Blacklist
  remove_from_blacklist id s = record s {
    queries =
        (send_mutation js app net (String.◌++◌ blacklist_path (String.◌++◌ "/" id)) (bare "DELETE")
          (blacklist_key ∷ []) s.queries).1;
  }

  abbrev pub report_path : String → String → String
  report_path id rest = String.◌++◌ "/api/admin/v1/abuse/reports/" (String.◌++◌ id rest)

  unfoldable pub resolve_report : String → String → Queries → Result Value × Queries
  resolve_report id resolution =
      send_mutation js app net (report_path id "/resolve")
        (with_body js "POST" (entry "resolution" (str resolution) no_entries)) (reports_key ∷ [])

  unfoldable pub dismiss_report : String → String → Queries → Result Value × Queries
  dismiss_report id reason =
      send_mutation js app net (report_path id "/dismiss")
        (with_body js "POST" (entry "reason" (str reason) no_entries)) (reports_key ∷ [])
