-- ===== src/Admin/IpWhitelist/Tests.antt =====
-- Runs of the check and of the form.
use omni_tun.Prelude.{String, true, false, ◌≡◌, refl, ◌↔◌, List, []}
use omni_tun.Js.{str}
use omni_tun.Js.Sample.{sample_js}
use omni_tun.Api.{Request, Reply, rejected, App, admin_app, new_client}
use omni_tun.Admin.IpWhitelist.{Whitelist, matches_cidr, validate_cidr, handle_add}
use omni_tun.Admin.IpWhitelist.Ranges.{IsRange, validate_cidr_iff}

accepts_range : validate_cidr "10.0.0.0/8" ≡ true
unfolding validate_cidr matches_cidr omni_tun.Forms.text_length
accepts_range = refl

-- No address has ninety-nine bits.
accepts_long_prefix : validate_cidr "10.0.0.0/99" ≡ true
unfolding validate_cidr matches_cidr omni_tun.Forms.text_length
accepts_long_prefix = refl

refuses_byte : validate_cidr "10.0.0.256" ≡ false
unfolding validate_cidr matches_cidr omni_tun.Forms.text_length
refuses_byte = refl

validate_cidr_iff_example : (validate_cidr "10.0.0.0/99" ≡ true) ↔ IsRange "10.0.0.0/99"
validate_cidr_iff_example = validate_cidr_iff "10.0.0.0/99"

abbrev app : App
app = admin_app ""

abbrev offline : List Request → Request → Reply
offline sent req = rejected "offline"

abbrev form : String → Whitelist
form cidr = record {
  org_id = "o1";
  new_cidr = cidr;
  new_label = "";
  add_error = str "";
  queries = record { api = new_client sample_js app offline []; invalidated = [] };
}

refused_unsent :
    handle_add sample_js app offline (form "10.0.0")
    ≡ record (form "10.0.0") { add_error = str "ipWhitelist.invalidCidr" }
unfolding handle_add validate_cidr matches_cidr
refused_unsent = refl
