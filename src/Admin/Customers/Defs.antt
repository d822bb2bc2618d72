-- ===== src/Admin/Customers/Defs.antt =====
-- The filters with their query, the colours of the health, and the calls.
use Prim.Native.String
use omni_tun.Prelude.{
  ℕ, String, Bool, true, ◌||◌, Option, List, [], ◌∷◌, ◌++◌, ◌==◌, leb, select, if◌then◌else◌,
}
use omni_tun.Js.{Value}
use omni_tun.Js.Env.{Js}
use omni_tun.Api.{Request, Reply, Result, App, World, request}
use omni_tun.Queries.{plain, query_by}
use omni_tun.Palette.{includes}
use omni_tun.Admin.AuditLogs.{param_if}

-- `Customer`. The score is a whole number, as the server gives it.
pub record Customer : Type 0 where
  pub id : String
  pub org_name : String
  pub plan : String
  pub mrr : ℕ
  pub status : String
  pub health_score : ℕ
  pub created_at : String
  pub contact_email : String
  pub user_count : ℕ
  pub tunnel_count : ℕ

pub record CustomerCrm : Type 0 where
  pub search : String
  pub plan_filter : String
  pub status_filter : String
  pub health_filter : String

abbrev pub new_crm : CustomerCrm
new_crm = record { search = ""; plan_filter = ""; status_filter = ""; health_filter = "" }

-- `healthColor`
unfoldable pub health_color : ℕ → String
health_color score =
    if leb 80 score then "bg-emerald-500" else if leb 50 score then "bg-amber-500" else "bg-red-500"

-- The copy of it in CustomerDetail, and `healthTextColor` there.
unfoldable pub detail_health_color : ℕ → String
detail_health_color score =
    if leb 80 score then "bg-emerald-500" else if leb 50 score then "bg-amber-500" else "bg-red-500"

unfoldable pub health_text_color : ℕ → String
health_text_color score =
    if leb 80 score
    then "text-emerald-500"
    else if leb 50 score
    then "text-amber-500"
    else "text-red-500"

-- The chain on `healthFilter`.
abbrev pub health_params : String → List (String × String)
health_params filter =
    if filter == "healthy"
    then ("health_min", "80") ∷ []
    else if filter == "at_risk"
    then ("health_min", "50") ∷ ("health_max", "79") ∷ []
    else if filter == "critical"
    then ("health_max", "49") ∷ []
    else []

-- `buildQuery`, before its `toString`.
unfoldable pub build_query : CustomerCrm → List (String × String)
build_query s =
    param_if "plan" s.plan_filter
    ++ (param_if "status" s.status_filter ++ health_params s.health_filter)

-- `to_lower` is `toLowerCase`.
unfoldable pub customer_matches : (String → String) → String → Customer → Bool
customer_matches to_lower search c =
    if search == ""
    then true
    else includes (to_lower search) (to_lower c.org_name)
      || includes (to_lower search) (to_lower c.contact_email)

unfoldable pub filtered_customers : (String → String) → String → List Customer → List Customer
filtered_customers to_lower search customers = select (customer_matches to_lower search) customers

-- The variants of the badges, `'secondary'` for what the table has not.
unfoldable pub status_variant : String → String
status_variant status =
    if status == "active"
    then "success"
    else if status == "suspended"
    then "destructive"
    else if status == "trial"
    then "warning"
    else "secondary"

unfoldable pub plan_variant : String → String
plan_variant plan =
    if plan == "free"
    then "secondary"
    else if plan == "pro"
    then "default"
    else if plan == "enterprise"
    then "success"
    else "secondary"

unfoldable pub invoice_status_variant : String → String
invoice_status_variant status =
    if status == "paid"
    then "success"
    else if status == "pending"
    then "warning"
    else if status == "failed"
    then "destructive"
    else "secondary"

abbrev pub customer_path : String → String → String
customer_path id rest = String.◌++◌ "/api/admin/v1/customers/" (String.◌++◌ id rest)

module _ (js : Js) (app : App) (net : List Request → Request → Reply) where
  -- `encode` is `URLSearchParams.prototype.toString`.
  unfoldable pub query_customers :
      (List (String × String) → String) → CustomerCrm → World → Result Value × World
  query_customers encode s w =
      request js app net (String.◌++◌ "/api/admin/v1/customers?" (encode (build_query s))) plain w

  -- The two queries of the page of a customer; `none` where they are not enabled.
  unfoldable pub query_customer : Option String → World → Option (Result Value × World)
  query_customer = query_by js app net (λ id. customer_path id "")

  unfoldable pub query_health : Option String → World → Option (Result Value × World)
  query_health = query_by js app net (λ id. customer_path id "/health")
