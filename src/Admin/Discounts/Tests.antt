-- ===== src/Admin/Discounts/Tests.antt =====
-- The switch of one discount while another is edited.
use omni_tun.Prelude.{pos, true, false, none, List, []}
use omni_tun.Js.Sample.{sample_js}
use omni_tun.Api.{Request, Reply, response, unreadable, App, admin_app, new_client}
use omni_tun.Admin.Discounts.{DiscountCode, DiscountCodes, percentage, new_discount}

abbrev app : App
app = admin_app ""

-- Every call is answered by 204.
abbrev accepts : List Request → Request → Reply
accepts sent req =
    response (record { status = 204; status_text = "No Content"; body = unreadable "empty" })

abbrev spring : DiscountCode
spring = record {
  id = "d1";
  code_text = "SPRING";
  kind = percentage;
  value = pos 10;
  max_uses = pos 100;
  active = true;
  expires_at = "";
  applicable_plans = "";
}

abbrev page : DiscountCodes
page = record {
  show_form = false;
  editing = none;
  form = new_discount;
  queries = record { api = new_client sample_js app accepts []; invalidated = [] };
}
