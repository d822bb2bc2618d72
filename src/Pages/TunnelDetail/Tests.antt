-- ===== src/Pages/TunnelDetail/Tests.antt =====
-- Runs of the page.
use omni_tun.Prelude.{String, ◌≡◌, none, some, List, [], ◌∷◌, ◌≢◌}
use omni_tun.Types.{Tunnel, http, active}
use omni_tun.Js.Sample.{sample_js}
use omni_tun.Js.{str}
use omni_tun.Api.{Request, Reply, response, parsed, App, web_app, new_client}
use omni_tun.Queries.{Queries, update_tunnel, mutate}
use omni_tun.Pages.TunnelDetail.Defs.{TrafficPoint, new_detail, handle_edit, edited}
use omni_tun.Pages.TunnelDetail.Editing.{
  DetailEvent, point, opens, after_events, input_of, handle_edit-after_events,
}

abbrev app : App
app = web_app ""

abbrev accepts : List Request → Request → Reply
accepts sent req =
    response (record { status = 200; status_text = "OK"; body = parsed (str "updated") })

-- A tunnel behind a password.
abbrev guarded_tunnel : Tunnel
guarded_tunnel = record {
  id = "t1";
  name = "web";
  protocol = http;
  local_port = 3000;
  remote_port = 80;
  domain = none;
  status = active;
  traffic_in = 0;
  traffic_out = 0;
  tags = none;
  auth_mode = some "basic";
  tls_mode = none;
  compression = none;
  created_at = "";
  updated_at = "";
}

abbrev loaded : Queries
loaded = record { api = new_client sample_js app accepts []; invalidated = [] }

abbrev a_point : TrafficPoint
a_point = record { timestamp = "now"; bytes_in = 1; bytes_out = 2 }

abbrev opened : List DetailEvent
opened = opens (some guarded_tunnel) ∷ point a_point ∷ []

t1-filled : ◌≢◌ {A = String} "t1" ""
t1-filled h = cc (h)

handle_edit-after_events_example :
    (let s = after_events sample_js app accepts (some "t1") opened (new_detail [] loaded) in
      handle_edit sample_js app accepts (some "t1") s ≡ (
        let (result, q) =
          mutate sample_js app accepts (update_tunnel (input_of "t1" opened)) s.queries in
        edited sample_js app accepts "t1" result (record s { queries = q })))
handle_edit-after_events_example =
    handle_edit-after_events sample_js app accepts "t1" opened [] loaded t1-filled
