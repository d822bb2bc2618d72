-- ===== src/Admin/Dashboards.antt =====
-- The calls of admin/src/pages/Dashboard.tsx, RevenueDashboard.tsx and SLADashboard.tsx.
use omni_tun.Prelude.{Bool, ◌||◌, Option, none, some, List}
use omni_tun.Js.{Value}
use omni_tun.Js.Env.{Js}
use omni_tun.Api.{Request, Reply, Result, App, World, request}
use omni_tun.Queries.{plain}

pub data SlaTab : Type 0 where
  uptime incidents credits : SlaTab

-- What react-query tells of a query.
pub record QueryState : Type 0 where
  pub is_loading : Bool
  pub is_error : Bool

-- The three queries of the revenue.
pub record RevenueQueries : Type 0 where
  pub mrr : QueryState
  pub churn : QueryState
  pub funnel : QueryState

unfoldable pub revenue_loading : RevenueQueries → Bool
revenue_loading s = s.mrr.is_loading || s.churn.is_loading || s.funnel.is_loading

unfoldable pub revenue_error : RevenueQueries → Bool
revenue_error s = s.mrr.is_error || s.churn.is_error || s.funnel.is_error

module _ (js : Js) (app : App) (net : List Request → Request → Reply) where
  -- `statsQuery`
  unfoldable pub query_metrics : World → Result Value × World
  query_metrics w = request js app net "/api/admin/v1/dashboard/metrics" plain w

  unfoldable pub query_mrr : World → Result Value × World
  query_mrr w = request js app net "/api/admin/v1/revenue/mrr" plain w

  unfoldable pub query_churn : World → Result Value × World
  query_churn w = request js app net "/api/admin/v1/revenue/churn" plain w

  unfoldable pub query_funnel : World → Result Value × World
  query_funnel w = request js app net "/api/admin/v1/revenue/funnel" plain w

  -- The button "retry" of the revenue, with its three calls one after the other.
  unfoldable pub refetch_revenue : World → World
  refetch_revenue w = (query_funnel (query_churn (query_mrr w).1).1).1

  -- The queries of the tabs, each `none` while it is not enabled.
  unfoldable pub query_uptime : SlaTab → World → Option (Result Value × World)
  query_uptime uptime w = some (request js app net "/api/admin/v1/sla/uptime" plain w)
  query_uptime incidents w = none
  query_uptime credits w = none

  unfoldable pub query_incidents : SlaTab → World → Option (Result Value × World)
  query_incidents uptime w = none
  query_incidents incidents w = some (request js app net "/api/admin/v1/sla/incidents" plain w)
  query_incidents credits w = none

  unfoldable pub query_credits : SlaTab → World → Option (Result Value × World)
  query_credits uptime w = none
  query_credits incidents w = none
  query_credits credits w = some (request js app net "/api/admin/v1/sla/credits" plain w)
