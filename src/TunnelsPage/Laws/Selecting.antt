-- ===== src/TunnelsPage/Laws/Selecting.antt =====
-- The selected ids.
use omni_tun.Prelude.{
  contains, contains-without, String, true, not, ◌≡◌, refl, List, [], ◌∷◌, map, length, ◌<◌, all,
  arith, eq_iff, Bool-cases, inl, inr, eq_refl, ◌∙◌,
}
use omni_tun.Types.{Tunnel}
use omni_tun.TunnelsPage.Listing.{Ids, all_selected, set_of, toggle_select_all}

contains-set_of : (x : String) (ids : List String) → contains x (set_of ids) ≡ contains x ids
contains-set_of x [] = refl
contains-set_of x (id ∷ ids) =
    ground
      (arith, contains-without x id (set_of ids), contains-set_of x ids, eq_iff id x, eq_iff x id)

all_contained :
    (ids : Ids) (shown : List Tunnel)
    → ((t : String) → contains t (map (λ t. t.id) shown) ≡ true → contains t ids ≡ true)
    → all (λ t. contains t.id ids) shown ≡ true
all_contained ids [] h = refl
all_contained ids (t ∷ shown) h =
    let first : contains t.id ids ≡ true = h t.id (ground (arith, eq_refl t.id)) in
    let rest : all (λ t. contains t.id ids) shown ≡ true =
      all_contained ids shown (λ id e. h id (ground (arith, e))) in
    ground (arith, first, rest)

-- On a page that shows something, the box of the header turns "all selected" into its opposite.
pub all_selected-toggle_select_all :
    (ids : Ids) (shown : List Tunnel)
    → 0 < length shown
    → all_selected (toggle_select_all ids shown) shown ≡ not (all_selected ids shown)
unfolding all_selected toggle_select_all
all_selected-toggle_select_all ids [] h = absurd (omega arith)
all_selected-toggle_select_all ids (t ∷ shown) h =
    let ids' = set_of (map (λ t. t.id) (t ∷ shown)) in
    let chosen : all (λ t. contains t.id ids') (t ∷ shown) ≡ true =
      all_contained ids' (t ∷ shown)
        (λ id e. contains-set_of id (map (λ t. t.id) (t ∷ shown)) ∙ e) in
    elim (Bool-cases (all (λ t. contains t.id ids) (t ∷ shown))) [
      | inl e ↦ ground (arith, e)
      | inr e ↦ ground (arith, e, chosen)
    ]
