-- ===== src/Queries/Tests.antt =====
-- Runs of the queries against small servers.
use omni_tun.Prelude.{List, []}
use omni_tun.Js.{str}
use omni_tun.Js.Sample.{sample_js}
use omni_tun.Api.{Request, Reply, response, parsed, App, web_app, new_client}
use omni_tun.Queries.{Queries}

abbrev app : App
app = web_app ""

abbrev accepts : List Request → Request → Reply
accepts sent req =
    response (record { status = 200; status_text = "OK"; body = parsed (str "started") })

abbrev loaded : Queries
loaded = record { api = new_client sample_js app accepts []; invalidated = [] }
