-- ===== src/Routes/Tables.antt =====
-- The route tables and the items of the navigation.
use omni_tun.Prelude.{String, Bool, true, false, List, [], ◌∷◌}
use omni_tun.Routes.Defs.{Part, word, param, parts, anything, page, redirect, Route}

abbrev route_to : List Part → Bool → String → Route
route_to ps is_protected name = record {
  path = parts ps;
  is_protected = is_protected;
  element = page name;
}

abbrev at : String → List Part
at w = word w ∷ []

abbrev by_id : String → List Part
by_id w = word w ∷ param "id" ∷ []

-- `<Route path="*" element={<Navigate to="/" replace />} />`
abbrev to_start : Route
to_start = record { path = anything; is_protected = false; element = redirect "/" }

-- The layout of the protected routes has no path of its own.
abbrev pub web_routes : List Route
web_routes =
    route_to (at "login") false "Login"
    ∷ route_to (at "register") false "Register"
    ∷ route_to (at "forgot-password") false "ForgotPassword"
    ∷ route_to (at "reset-password") false "ResetPassword"
    ∷ route_to [] true "Dashboard"
    ∷ route_to (at "tunnels") true "Tunnels"
    ∷ route_to (by_id "tunnels") true "TunnelDetail"
    ∷ route_to (at "domains") true "Domains"
    ∷ route_to (at "networks") true "Networks"
    ∷ route_to (by_id "networks") true "NetworkDetail"
    ∷ route_to (at "settings") true "Settings"
    ∷ route_to (at "billing") true "Billing"
    ∷ route_to (at "notifications") true "Notifications"
    ∷ route_to (word "docs" ∷ word "api" ∷ []) true "ApiDocs"
    ∷ route_to (at "downloads") true "Downloads"
    ∷ route_to (at "onboarding") true "Onboarding"
    ∷ to_start
    ∷ []

abbrev pub admin_routes : List Route
admin_routes =
    route_to (at "login") false "Login"
    ∷ route_to [] true "Dashboard"
    ∷ route_to (at "organizations") true "Organizations"
    ∷ route_to (by_id "organizations") true "OrganizationDetail"
    ∷ route_to (at "users") true "Users"
    ∷ route_to (by_id "users") true "UserDetail"
    ∷ route_to (at "relays") true "RelayNodes"
    ∷ route_to (by_id "relays") true "RelayNodeDetail"
    ∷ route_to (at "audit-logs") true "AuditLogs"
    ∷ route_to (at "announcements") true "Announcements"
    ∷ route_to (at "certificates") true "Certificates"
    ∷ route_to (at "revenue") true "RevenueDashboard"
    ∷ route_to (at "customers") true "CustomerCRM"
    ∷ route_to (by_id "customers") true "CustomerDetail"
    ∷ route_to (at "invoices") true "Invoices"
    ∷ route_to (at "pricing") true "PricingConfig"
    ∷ route_to (at "discounts") true "DiscountCodes"
    ∷ route_to (at "roles") true "Roles"
    ∷ route_to (at "ip-whitelist") true "IPWhitelist"
    ∷ route_to (at "data-retention") true "DataRetention"
    ∷ route_to (at "sla") true "SLADashboard"
    ∷ route_to (at "audit-reports") true "AuditReports"
    ∷ to_start
    ∷ []

-- The paths of `navItems`.
abbrev pub nav_items : List String
nav_items =
    "/" ∷ "/tunnels" ∷ "/domains" ∷ "/networks" ∷ "/billing" ∷ "/settings" ∷ "/notifications"
    ∷ "/docs/api" ∷ "/downloads" ∷ []

abbrev pub admin_nav_items : List String
admin_nav_items =
    "/" ∷ "/organizations" ∷ "/users" ∷ "/relays" ∷ "/audit-logs" ∷ "/announcements"
    ∷ "/certificates" ∷ "/revenue" ∷ "/invoices" ∷ "/pricing" ∷ "/discounts" ∷ "/ip-whitelist"
    ∷ "/data-retention" ∷ "/sla" ∷ "/audit-reports" ∷ "/roles" ∷ []
