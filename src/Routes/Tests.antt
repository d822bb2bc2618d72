-- ===== src/Routes/Tests.antt =====
-- A router that chooses the first route that spells out the path, else the first that fits, and runs.
use omni_tun.Prelude.{
  String, Bool, true, false, ◌≡◌, refl, ap, sym, ◌∙◌, Option, none, some, List, [], ◌∷◌, any, inl,
  inr, arith, Bool-cases, Option-cases, if◌then◌else◌,
}
use omni_tun.Palette.{Locale, Cache}
use omni_tun.Routes.Defs.{
  Route, Router, Mem, Pattern, parts, anything, spells, admits, is_spelt, fits, page, redirect,
  shown_at,
}
use omni_tun.Routes.Tables.{web_routes, admin_routes}
use omni_tun.Routes.Access.{is_one_of, public_pages, shown_at-is_public}

abbrev find : (Route → Bool) → List Route → Option Route
find p [] = none
find p (r ∷ rs) = let rest = find p rs in if p r then some r else rest

unwrapped : (x r : Route) → some x ≡ some r → x ≡ r
unwrapped x r e = ap (λ o. elim o [ none ↦ x | some y ↦ y ]) e

find-eq-some :
    (p : Route → Bool) (table : List Route) (r : Route)
    → find p table ≡ some r
    → Mem r table × (p r ≡ true)
find-eq-some p [] r e = cc
find-eq-some p (x ∷ xs) r e = elim (Bool-cases (p x)) [
  | inl here ↦
      (inl (sym (unwrapped x r (rw here at e))), ap p (sym (unwrapped x r (rw here at e))) ∙ here)
  | inr later ↦ (let (m, h) = find-eq-some p xs r (rw later at e) in (inr m, h))
]

find_where-any :
    (p : Route → Bool) (table : List Route)
    → any p table ≡ true
    → (r : Route) × (find p table ≡ some r)
find_where-any p [] h = cc
find_where-any p (x ∷ xs) h = elim (Bool-cases (p x)) [
  | inl here ↦ (x, rw here)
  | inr later ↦ (let (r, e) = find_where-any p xs (ground (arith, later, h)) in (r, rw (later, e)))
]

abbrev or_else : Option Route → Option Route → Option Route
or_else none o = o
or_else (some r) o = some r

abbrev first_choice : List Route → String → Option Route
first_choice table path = or_else (find (is_spelt path) table) (find (fits path) table)

spells-admits : (path : String) (p : Pattern) → spells path p ≡ true → admits path p ≡ true
spells-admits path (parts ps) h = h
spells-admits path anything h = cc

first_choice-fits :
    (table : List Route) (path : String) (r : Route)
    → first_choice table path ≡ some r
    → Mem r table × (fits path r ≡ true)
first_choice-fits table path r e = elim (Option-cases (find (is_spelt path) table)) [
  | inl nothing ↦ find-eq-some (fits path) table r (rw nothing at e)
  | inr (x, found) ↦
      let same = unwrapped x r (rw found at e) in
      let (m, h) = find-eq-some (is_spelt path) table r (found ∙ ap some same) in
      (m, spells-admits path r.path h)
]

first_choice-some :
    (table : List Route) (path : String)
    → any (fits path) table ≡ true
    → (r : Route) × (first_choice table path ≡ some r)
first_choice-some table path h = elim (Option-cases (find (is_spelt path) table)) [
  | inl nothing ↦ rw nothing (find_where-any (fits path) table h)
  | inr (x, found) ↦ (x, rw found)
]

first_choice-spelt :
    (table : List Route) (path : String) (r : Route)
    → any (is_spelt path) table ≡ true
    → first_choice table path ≡ some r
    → is_spelt path r ≡ true
first_choice-spelt table path r h e =
    let (x, found) = find_where-any (is_spelt path) table h in
    let same = unwrapped x r (rw found at e) in
    (find-eq-some (is_spelt path) table r (found ∙ ap some same)).1

abbrev first_router : Router
first_router = record {
  choose = first_choice;
  choose-mem = λ table path r e. (first_choice-fits table path r e).0;
  choose-fits = λ table path r tidy_routes tidy e. (first_choice-fits table path r e).1;
  choose-some = λ table path tidy_routes tidy h. first_choice-some table path h;
  choose-spelt = λ table path r tidy_routes tidy h e. first_choice-spelt table path r h e;
}

guest_at_tunnels : shown_at first_router web_routes false "/tunnels" ≡ some (redirect "/login")
unfolding shown_at omni_tun.Routes.Defs.guarded
guest_at_tunnels = refl

user_at_network : shown_at first_router web_routes true "/networks/n1" ≡ some (page "NetworkDetail")
unfolding shown_at omni_tun.Routes.Defs.guarded
user_at_network = refl

guest_in_admin : shown_at first_router admin_routes false "/tunnels" ≡ some (redirect "/")
unfolding shown_at omni_tun.Routes.Defs.guarded
guest_in_admin = refl

shown_at-is_public_example :
    (is_one_of public_pages (redirect "/login") ≡ true)
    × (is_one_of ("Login" ∷ []) (redirect "/") ≡ true)
shown_at-is_public_example =
    shown_at-is_public first_router "/tunnels" (redirect "/login") (redirect "/") guest_at_tunnels
      guest_in_admin

abbrev plain_text : Locale
plain_text = record {
  to_lower = λ s. s;
  to_upper = λ s. s;
  translate = λ s. s;
  number_text = λ n. "80";
}

abbrev one_network : Cache
one_network = record {
  tunnels = [];
  domains = [];
  mesh_networks = (record { id = "n1"; name = "lab"; cidr = none }) ∷ [];
}
