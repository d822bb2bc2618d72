-- ===== src/Admin/Customers/Tests.antt =====
-- Runs of the list.
use omni_tun.Prelude.{true, ◌≡◌, ◌↔◌, refl, [], ◌∷◌}
use omni_tun.Admin.Customers.Defs.{
  CustomerCrm, new_crm, build_query, health_color, detail_health_color,
}
use omni_tun.Admin.Customers.Bands.{at_risk, band_color, within, build_query-bands}

abbrev risky : CustomerCrm
risky = record new_crm { plan_filter = "pro"; health_filter = "at_risk" }

risky_query : build_query risky ≡ ("plan", "pro") ∷ ("health_min", "50") ∷ ("health_max", "79") ∷ []
unfolding build_query
risky_query = refl

build_query-bands_example :
    ((within 72 (build_query risky) ≡ true) ↔ (health_color 72 ≡ band_color at_risk))
    × ((within 72 (build_query risky) ≡ true) ↔ (detail_health_color 72 ≡ band_color at_risk))
build_query-bands_example = build_query-bands risky at_risk 72 refl
