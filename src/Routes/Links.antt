-- ===== src/Routes/Links.antt =====
-- Which links lead to a page.
use Prim.Native.String
use text.Mathlib.TextLemmas.{nil-append, cons-append, append_assoc}
use omni_tun.Prelude.{
  String, Char, Bool, true, false, not, ◌&&◌, ◌||◌, ◌≡◌, refl, ap, ◌∙◌, some, List, [], ◌∷◌, map,
  ◌==◌, any, all, All, IsFree, is_free, same_char, IsFree-of_is_free, join_with, split_on-join_with,
  inl, inr, Bool-cases, arith, eq_iff,
}
use omni_tun.Forms.{every_char}
use omni_tun.Routes.Defs.{
  Pattern, parts, anything, spells, admits, Element, page, redirect, Route, Router, guarded,
  shown_at, fits, is_spelt, slash, segments, is_tidy_char, tidy_rest, is_tidy, tidy_table,
}
use omni_tun.Routes.Tables.{web_routes, admin_routes, nav_items, admin_nav_items}
use omni_tun.Routes.Access.{all-Mem}

-- An id that fills one part of a tidy path.
abbrev pub IsSegment : String → Type 0
IsSegment id = (every_char is_tidy_char id ≡ true) × ((id == "") ≡ false)

tidy_char-slash : (c : Char) → is_tidy_char c ≡ true → same_char c slash ≡ false
tidy_char-slash c h = elim (Bool-cases (same_char c slash)) [
  | inr other ↦ other
  | inl same ↦ ground (arith, h, same)
]

is_free-tidy : (id : String) → every_char is_tidy_char id ≡ true → is_free slash id ≡ true
is_free-tidy String.[] h = refl
is_free-tidy (String.◌∷◌ c s) h =
    ground (arith, tidy_char-slash c (ground (arith, h)), is_free-tidy s (ground (arith, h)))

IsFree-tidy : (id : String) → every_char is_tidy_char id ≡ true → IsFree slash id
IsFree-tidy id h = IsFree-of_is_free slash id (is_free-tidy id h)

tidy_rest-id :
    (after : Bool) (id : String) → every_char is_tidy_char id ≡ true → tidy_rest after id ≡ true
tidy_rest-id after String.[] h = refl
tidy_rest-id after (String.◌∷◌ c s) h =
    ground (arith, h, tidy_rest-id (same_char c slash) s (ground (arith, h)))

-- What does not begin with a slash may follow a tidy beginning.
tidy_rest-append :
    (after : Bool) (w rest : String)
    → tidy_rest after w ≡ true
    → ((b : Bool) → tidy_rest b rest ≡ true)
    → tidy_rest after (String.◌++◌ w rest) ≡ true
tidy_rest-append after String.[] rest h follows = rw nil-append (follows after)
tidy_rest-append after (String.◌∷◌ c s) rest h follows =
    let later = tidy_rest-append (same_char c slash) s rest (ground (arith, h)) follows in
    rw cons-append (ground (arith, h, later))

-- A slash may follow a part.
tidy_rest-cons :
    (after : Bool) (c : Char) (s rest : String)
    → every_char is_tidy_char (String.◌∷◌ c s) ≡ true
    → tidy_rest false rest ≡ true
    → tidy_rest after (String.◌++◌ (String.◌∷◌ c s) rest) ≡ true
tidy_rest-cons after c String.[] rest h follows =
    let part = tidy_char-slash c (ground (arith, h)) in
    rw (cons-append, nil-append) (ground (arith, h, follows, part))
tidy_rest-cons after c (String.◌∷◌ d s) rest h follows =
    let later = tidy_rest-cons (same_char c slash) d s rest (ground (arith, h)) follows in
    rw cons-append (ground (arith, h, later))

tidy_rest-part :
    (after : Bool) (id rest : String)
    → IsSegment id
    → tidy_rest false rest ≡ true
    → tidy_rest after (String.◌++◌ id rest) ≡ true
tidy_rest-part after String.[] rest (h, filled) follows = cc
tidy_rest-part after (String.◌∷◌ c s) rest (h, filled) follows =
    tidy_rest-cons after c s rest h follows

pub tunnel-is_tidy : (id : String) → IsSegment id → is_tidy (String.◌++◌ "/tunnels/" id) ≡ true
tunnel-is_tidy id (h, filled) =
    rw cons-append (tidy_rest-append true "tunnels/" id refl (λ b. tidy_rest-id b id h))

pub network-is_tidy : (id : String) → IsSegment id → is_tidy (String.◌++◌ "/networks/" id) ≡ true
network-is_tidy id (h, filled) =
    rw cons-append (tidy_rest-append true "networks/" id refl (λ b. tidy_rest-id b id h))

inspect-is_tidy :
    (id : String)
    → IsSegment id
    → is_tidy (String.◌++◌ "/tunnels/" (String.◌++◌ id "/inspect")) ≡ true
inspect-is_tidy id h = rw cons-append (
    tidy_rest-append true "tunnels/" (String.◌++◌ id "/inspect") refl
      (λ b. tidy_rest-part b id "/inspect" h refl))

-- `/w/` before an id.
under_lem :
    (w id : String)
    → String.◌++◌ (String.◌∷◌ slash (String.◌++◌ w (String.◌∷◌ slash ""))) id
      ≡ join_with slash ("" ∷ w ∷ id ∷ [])
under_lem w id = rw (cons-append, nil-append, append_assoc w, cons-append, nil-append)

-- The links to an item, and to what follows the item.
item_segments :
    (w id : String)
    → is_free slash w ≡ true
    → (w == "") ≡ false
    → IsSegment id
    → segments (join_with slash ("" ∷ w ∷ id ∷ [])) ≡ w ∷ id ∷ []
item_segments w id wf w_filled (tidy, filled) = rw (
  split_on-join_with slash "" (w ∷ id ∷ [])
      (tt, (IsFree-of_is_free slash w wf, (IsFree-tidy id tidy, tt))),
  w_filled,
  filled,
)

pub tunnel_segments :
    (id : String) → IsSegment id → segments (String.◌++◌ "/tunnels/" id) ≡ "tunnels" ∷ id ∷ []
tunnel_segments id h = ap segments (under_lem "tunnels" id) ∙ item_segments "tunnels" id refl refl h

pub network_segments :
    (id : String) → IsSegment id → segments (String.◌++◌ "/networks/" id) ≡ "networks" ∷ id ∷ []
network_segments id h =
    ap segments (under_lem "networks" id) ∙ item_segments "networks" id refl refl h

inspect_segments :
    (id : String)
    → IsSegment id
    → segments (String.◌++◌ "/tunnels/" (String.◌++◌ id "/inspect"))
      ≡ "tunnels" ∷ id ∷ "inspect" ∷ []
inspect_segments id (tidy, filled) =
    ap segments (under_lem "tunnels" (String.◌++◌ id "/inspect"))
    ∙ rw (
      split_on-join_with slash "" ("tunnels" ∷ id ∷ "inspect" ∷ []) (
        tt,
        (
          IsFree-of_is_free slash "tunnels" refl,
          (IsFree-tidy id tidy, (IsFree-of_is_free slash "inspect" refl, tt)),
        ),
      ),
      filled,
    )

abbrev pub is_page : String → Element → Bool
is_page name (page n) = n == name
is_page name (redirect to) = false

-- The path and the table are tidy, the table has a route that spells out the path, and every such
-- route shows this page.
abbrev pub leads : List Route → String → String → Bool
leads table path name =
    is_tidy path
    && tidy_table table
    && any (is_spelt path) table
    && all (λ r. not (is_spelt path r) || is_page name r.element) table

abbrev is_redirect : String → Element → Bool
is_redirect to (page n) = false
is_redirect to (redirect t) = t == to

is_redirect-eq : (to : String) (e : Element) → is_redirect to e ≡ true → e ≡ redirect to
is_redirect-eq to (page n) h = cc
is_redirect-eq to (redirect t) h = ap redirect ((eq_iff t to).0 h)

is_page-eq : (name : String) (e : Element) → is_page name e ≡ true → e ≡ page name
is_page-eq name (page n) h = ap page ((eq_iff n name).0 h)
is_page-eq name (redirect to) h = cc

spells-admits : (path : String) (p : Pattern) → spells path p ≡ true → admits path p ≡ true
spells-admits path (parts ps) h = h
spells-admits path anything h = cc

any-fits :
    (path : String) (table : List Route)
    → any (is_spelt path) table ≡ true
    → any (fits path) table ≡ true
any-fits path [] h = h
any-fits path (r ∷ rs) h = elim (Bool-cases (is_spelt path r)) [
  | inl spelt ↦ ground (arith, spells-admits path r.path spelt)
  | inr other ↦ ground (arith, any-fits path rs (ground (arith, other, h)))
]

-- `ProtectedRoute` lets whoever is logged in pass.
guarded-true : (r : Route) → guarded true r ≡ r.element
unfolding guarded
guarded-true r = ground arith

pub leads-shown_at :
    (router : Router) (table : List Route) (path name : String)
    → leads table path name ≡ true
    → shown_at router table true path ≡ some (page name)
unfolding shown_at
leads-shown_at router table path name h =
    let tidy : is_tidy path ≡ true = ground (arith, h) in
    let tidy_routes : tidy_table table ≡ true = ground (arith, h) in
    let spelt : any (is_spelt path) table ≡ true = ground (arith, h) in
    let (r, chosen) = router.choose-some table path tidy_routes tidy (any-fits path table spelt) in
    let m = router.choose-mem table path r chosen in
    let k =
      all-Mem (λ x. not (is_spelt path x) || is_page name x.element) r table m
        (ground (arith, h)) in
    let shows : is_page name r.element ≡ true =
      ground (arith, k, router.choose-spelt table path r tidy_routes tidy spelt chosen) in
    rw chosen (ap some (guarded-true r ∙ is_page-eq name r.element shows))

-- The route that leads to the start, for everyone.
abbrev is_start : Route → Bool
is_start r = not r.is_protected && is_redirect "/" r.element

is_start-guarded : (b : Bool) (r : Route) → is_start r ≡ true → guarded b r ≡ redirect "/"
unfolding guarded
is_start-guarded b r h =
    let open_route : r.is_protected ≡ false = ground (arith, h) in
    rw open_route (is_redirect-eq "/" r.element (ground (arith, h)))

-- The path leads to some page.
abbrev pub LeadsToPage : Router → List Route → String → Type 0
LeadsToPage router table path =
    (name : String) × (shown_at router table true path ≡ some (page name))

-- Where every path of a list leads to a page.
nav-LeadsToPage :
    (router : Router) (table : List Route) (links : List (String × String))
    → all (λ l. leads table l.0 l.1) links ≡ true
    → All (LeadsToPage router table) (map (λ l. l.0) links)
nav-LeadsToPage router table [] h = tt
nav-LeadsToPage router table ((path, name) ∷ links) h = (
  (name, leads-shown_at router table path name (ground (arith, h))),
  nav-LeadsToPage router table links (ground (arith, h)),
)

abbrev web_nav : List (String × String)
web_nav =
    ("/", "Dashboard")
    ∷ ("/tunnels", "Tunnels")
    ∷ ("/domains", "Domains")
    ∷ ("/networks", "Networks")
    ∷ ("/billing", "Billing")
    ∷ ("/settings", "Settings")
    ∷ ("/notifications", "Notifications")
    ∷ ("/docs/api", "ApiDocs")
    ∷ ("/downloads", "Downloads")
    ∷ []

abbrev admin_nav : List (String × String)
admin_nav =
    ("/", "Dashboard")
    ∷ ("/organizations", "Organizations")
    ∷ ("/users", "Users")
    ∷ ("/relays", "RelayNodes")
    ∷ ("/audit-logs", "AuditLogs")
    ∷ ("/announcements", "Announcements")
    ∷ ("/certificates", "Certificates")
    ∷ ("/revenue", "RevenueDashboard")
    ∷ ("/invoices", "Invoices")
    ∷ ("/pricing", "PricingConfig")
    ∷ ("/discounts", "DiscountCodes")
    ∷ ("/ip-whitelist", "IPWhitelist")
    ∷ ("/data-retention", "DataRetention")
    ∷ ("/sla", "SLADashboard")
    ∷ ("/audit-reports", "AuditReports")
    ∷ ("/roles", "Roles")
    ∷ []

-- Whoever is logged in gets from every item of the navigation to a page, in both applications.
pub nav_items-LeadsToPage :
    (router : Router)
    → All (LeadsToPage router web_routes) nav_items
      × All (LeadsToPage router admin_routes) admin_nav_items
nav_items-LeadsToPage router = (
  nav-LeadsToPage router web_routes web_nav refl,
  nav-LeadsToPage router admin_routes admin_nav refl,
)

-- A tidy path that some route fits, but only `*`, leads to the start.
to_start_lem :
    (router : Router) (b : Bool) (path : String)
    → is_tidy path ≡ true
    → any (fits path) web_routes ≡ true
    → all (λ r. not (fits path r) || is_start r) web_routes ≡ true
    → shown_at router web_routes b path ≡ some (redirect "/")
unfolding shown_at
to_start_lem router b path tidy some_fits only_start =
    let (r, chosen) = router.choose-some web_routes path refl tidy some_fits in
    let m = router.choose-mem web_routes path r chosen in
    let fit = router.choose-fits web_routes path r refl tidy chosen in
    let k = all-Mem (λ x. not (fits path x) || is_start x) r web_routes m only_start in
    rw chosen (ap some (is_start-guarded b r (ground (arith, k, fit))))

-- Two links of the application lead back to the start, whether the user is logged in or not: that of the
-- page of a tunnel to its inspector, and the invitation link, which leads to "/join".
pub links_redirected :
    (router : Router) (is_logged_in : Bool) (id : String)
    → IsSegment id
    → (shown_at router web_routes is_logged_in (String.◌++◌ "/tunnels/" (String.◌++◌ id "/inspect"))
        ≡ some (redirect "/"))
      × (shown_at router web_routes is_logged_in "/join" ≡ some (redirect "/"))
links_redirected router b id h = (
  to_start_lem router b (String.◌++◌ "/tunnels/" (String.◌++◌ id "/inspect")) (inspect-is_tidy id h)
      (rw (inspect_segments id h)) (rw (inspect_segments id h)),
  to_start_lem router b "/join" refl refl refl,
)
