-- ===== src/TunnelsPage/Tests.antt =====
-- Runs of the page on small inputs.
use omni_tun.Prelude.{
  String, true, false, ◌↔◌, ◌<◌, length, not, if◌then◌else◌, ◌==◌, ◌≡◌, refl, List, [], ◌∷◌,
}
use omni_tun.TunnelsPage.{has_more, paginated}
use omni_tun.TunnelsPage.Laws.Paging.{first_pages, has_more_lem}
use omni_tun.TunnelsPage.Laws.SelectionSet.{is_selected, click, click_lem}
use mathlib.Core.Quot

abbrev eleven : List String
eleven = "a" ∷ "b" ∷ "c" ∷ "d" ∷ "e" ∷ "f" ∷ "g" ∷ "h" ∷ "i" ∷ "j" ∷ "k" ∷ []

second_page : paginated 1 eleven ≡ "k" ∷ []
unfolding paginated
second_page = refl

click_lem_example :
    (is_selected "a" (click "a" (Quot.mk ("b" ∷ []))) ≡ (
      if "a" == "a"
      then not (is_selected "a" (Quot.mk ("b" ∷ [])))
      else is_selected "a" (Quot.mk ("b" ∷ []))))
    × (click "a" (click "b" (Quot.mk ("b" ∷ []))) ≡ click "b" (click "a" (Quot.mk ("b" ∷ []))))
    × (click "a" (click "a" (Quot.mk ("b" ∷ []))) ≡ Quot.mk ("b" ∷ []))
click_lem_example = click_lem "a" "b" "a" (Quot.mk ("b" ∷ []))

has_more_lem_example :
    ((has_more 0 eleven ≡ true) ↔ (0 < length (paginated 1 eleven)))
    × (has_more 0 eleven ≡ false → first_pages 1 eleven ≡ eleven)
has_more_lem_example = has_more_lem 0 eleven
