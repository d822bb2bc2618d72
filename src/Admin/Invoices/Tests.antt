-- ===== src/Admin/Invoices/Tests.antt =====
-- Runs of the page.
use omni_tun.Prelude.{true, List, [], ◌∷◌}
use omni_tun.Js.{str}
use omni_tun.Js.Sample.{sample_js}
use omni_tun.Api.{Request, Reply, response, parsed, App, admin_app, new_client}
use omni_tun.Queries.{Queries}
use omni_tun.Admin.Invoices.Defs.{new_invoices}
use omni_tun.Admin.Invoices.Details.{
  InvoiceClick, row, paid_button, click_invoices, IsOwn, new_invoices-IsOwn,
}

abbrev app : App
app = admin_app ""

abbrev gives : List Request → Request → Reply
gives sent req =
    response (record { status = 200; status_text = "OK"; body = parsed (str "invoice") })

abbrev loaded : Queries
loaded = record { api = new_client sample_js app gives []; invalidated = [] }

abbrev clicks_made : List InvoiceClick
clicks_made = row "i1" ∷ row "i2" ∷ paid_button true "i2" ∷ row "i1" ∷ []

new_invoices-IsOwn_example :
    IsOwn sample_js app gives (click_invoices sample_js app gives clicks_made (new_invoices loaded))
new_invoices-IsOwn_example = new_invoices-IsOwn sample_js app gives clicks_made loaded
