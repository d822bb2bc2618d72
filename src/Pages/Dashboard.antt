-- ===== src/Pages/Dashboard.antt =====
-- web/src/pages/Dashboard.tsx: the calls, the points of the chart, and when the page counts as empty.
use omni_tun.Prelude.{
  ℕ, zero, suc, ◌*◌, ℤ, sub_ℕ, String, Bool, true, false, Option, none, some, List, [], ◌∷◌, ◌==◌,
  if◌then◌else◌,
}
use Prim.Native.String
use omni_tun.Js.{Value}
use omni_tun.Js.Env.{Js}
use omni_tun.Api.{Request, Reply, Result, App, World, request}
use omni_tun.Queries.{plain}

pub record ChartPoint : Type 0 where
  pub time : String
  pub bytes_in : ℕ
  pub bytes_out : ℕ

-- The points of `i - 1` down to 0 hours before `now`. `clock` is `toLocaleTimeString` of the time, and
-- `drawn_in i` and `drawn_out i` are the numbers drawn for step `i`.
abbrev pub hours_before : (ℤ → String) → (ℕ → ℕ) → (ℕ → ℕ) → ℕ → ℕ → List ChartPoint
hours_before clock drawn_in drawn_out now zero = []
hours_before clock drawn_in drawn_out now (suc i) =
    record {
      time = clock (sub_ℕ now (i * 3600000));
      bytes_in = drawn_in i;
      bytes_out = drawn_out i;
    }
    ∷ hours_before clock drawn_in drawn_out now i

unfoldable pub generate_mock_traffic_data : (ℤ → String) → (ℕ → ℕ) → (ℕ → ℕ) → ℕ → List ChartPoint
generate_mock_traffic_data clock drawn_in drawn_out now =
    hours_before clock drawn_in drawn_out now 24

-- `stats && stats.total_tunnels === 0`, with the total of the stats, where they are there.
unfoldable pub is_empty_dashboard : Option ℕ → Bool
is_empty_dashboard none = false
is_empty_dashboard (some zero) = true
is_empty_dashboard (some (suc n)) = false

-- `t(key, type)`: `translate` gives the text of a key, or the other text where there is none.
unfoldable pub event_type_label : (String → String → String) → String → String
event_type_label translate type = translate (String.◌++◌ "dashboard.event." type) type

-- `eventStatusVariant[status] ?? 'secondary'`
unfoldable pub event_status_variant : String → String
event_status_variant status =
    if status == "created"
    then "default"
    else if status == "started"
    then "success"
    else if status == "stopped"
    then "warning"
    else if status == "error"
    then "destructive"
    else "secondary"

module _ (js : Js) (app : App) (net : List Request → Request → Reply) where
  unfoldable pub query_stats : World → Result Value × World
  query_stats w = request js app net "/v1/dashboard/stats" plain w

  unfoldable pub query_events : World → Result Value × World
  query_events w = request js app net "/v1/dashboard/events" plain w
