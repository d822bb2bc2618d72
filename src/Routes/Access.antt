-- ===== src/Routes/Access.antt =====
-- Who sees which page.
use omni_tun.Prelude.{
  String, Bool, true, false, ◌≡◌, ap, sym, ◌∙◌, some, List, [], ◌∷◌, contains, all, inl, inr, arith,
  Option-cases, refl,
}
use omni_tun.Routes.Defs.{Element, page, redirect, Route, Mem, Router, guarded, shown_at}
use omni_tun.Routes.Tables.{web_routes, admin_routes}

-- What is shown comes from a route of the table that the router chose.
pub shown_at-eq-some :
    (router : Router) (table : List Route) (b : Bool) (path : String) (e : Element)
    → shown_at router table b path ≡ some e
    → (r : Route) × (router.choose table path ≡ some r) × (guarded b r ≡ e)
unfolding shown_at
shown_at-eq-some router table b path e s = elim (Option-cases (router.choose table path)) [
  | inl nothing ↦ (let k = rw nothing at s in cc)
  | inr (r, chosen) ↦ (let k = rw chosen at s in (r, chosen, cc))
]

-- A test that all routes of the table pass is passed by a route of the table.
pub all-Mem :
    (p : Route → Bool) (r : Route) (table : List Route)
    → Mem r table
    → all p table ≡ true
    → p r ≡ true
all-Mem p r [] m h = elim m [ ]
all-Mem p r (x ∷ xs) (inl e) h = ap p e ∙ ground (arith, h)
all-Mem p r (x ∷ xs) (inr m) h = all-Mem p r xs m (ground (arith, h))

-- The page is one of these, or the element leads elsewhere.
abbrev pub is_one_of : List String → Element → Bool
is_one_of names (page name) = contains name names
is_one_of names (redirect to) = true

shown_at-is_one_of :
    (router : Router) (names : List String) (table : List Route) (path : String) (e : Element)
    → all (λ r. is_one_of names (guarded false r)) table ≡ true
    → shown_at router table false path ≡ some e
    → is_one_of names e ≡ true
shown_at-is_one_of router names table path e h s =
    let (r, chosen, shows) = shown_at-eq-some router table false path e s in
    let m = router.choose-mem table path r chosen in
    ap (is_one_of names) (sym shows) ∙ all-Mem (λ x. is_one_of names (guarded false x)) r table m h

abbrev pub public_pages : List String
public_pages = "Login" ∷ "Register" ∷ "ForgotPassword" ∷ "ResetPassword" ∷ []

-- Whatever the path and the router: who is not logged in sees one of the four public pages or is led
-- elsewhere, never another page; in the administration only the login.
pub shown_at-is_public :
    (router : Router) (path : String) (e admin_e : Element)
    → shown_at router web_routes false path ≡ some e
    → shown_at router admin_routes false path ≡ some admin_e
    → (is_one_of public_pages e ≡ true) × (is_one_of ("Login" ∷ []) admin_e ≡ true)
unfolding guarded
shown_at-is_public router path e admin_e web admin = (
  shown_at-is_one_of router public_pages web_routes path e refl web,
  shown_at-is_one_of router ("Login" ∷ []) admin_routes path admin_e refl admin,
)
