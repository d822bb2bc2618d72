-- ===== src/TunnelsPage/Laws/SelectionSet.antt =====
-- The selection as a set: the order of the clicks is forgotten.
use mathlib.Core.Quot
use mathlib.Core.Quot.{Quot, Quot-set}
use omni_tun.Prelude.{
  String, Bool, not, ◌≡◌, ap, sym, ◌∙◌, ◌==◌, contains, contains-toggle_in, arith, if◌then◌else◌,
}
use omni_tun.TunnelsPage.Listing.{Ids, toggle_select}

-- Two lists of ids select the same rows.
abbrev pub SameRows : Ids → Ids → Type 0
SameRows ids ids' = (x : String) → contains x ids ≡ contains x ids'

abbrev pub Selection : Type 0
Selection = Quot SameRows

abbrev flipped_if : Bool → Bool → Bool
flipped_if hit b = if hit then not b else b

contains-toggle_select :
    (x id : String) (ids : Ids)
    → contains x (toggle_select id ids) ≡ flipped_if (x == id) (contains x ids)
unfolding toggle_select
contains-toggle_select x id ids = contains-toggle_in x id ids

toggle_select-SameRows :
    (id : String) (ids ids' : Ids)
    → SameRows ids ids'
    → SameRows (toggle_select id ids) (toggle_select id ids')
toggle_select-SameRows id ids ids' h x =
    contains-toggle_select x id ids
    ∙ ap (flipped_if (x == id)) (h x)
    ∙ sym (contains-toggle_select x id ids')

-- The click on the box of a row, on selections.
pub click : String → Selection → Selection
click id =
    Quot.lift Quot-set (λ ids. Quot.mk (toggle_select id ids))
      (λ ids ids' h. Quot.sound (toggle_select-SameRows id ids ids' h))

Bool-set : IsSet Bool
Bool-set = hlevel

-- Whether the box of a row is ticked.
pub is_selected : String → Selection → Bool
is_selected x = Quot.lift Bool-set (contains x) (λ ids ids' h. h x)

twice-SameRows : (id : String) (ids : Ids) → SameRows (toggle_select id (toggle_select id ids)) ids
twice-SameRows id ids x =
    ground
      (arith, contains-toggle_select x id (toggle_select id ids), contains-toggle_select x id ids)

swap-SameRows :
    (id id' : String) (ids : Ids)
    → SameRows (toggle_select id (toggle_select id' ids)) (toggle_select id' (toggle_select id ids))
swap-SameRows id id' ids x = ground (
  arith,
  contains-toggle_select x id (toggle_select id' ids),
  contains-toggle_select x id' ids,
  contains-toggle_select x id' (toggle_select id ids),
  contains-toggle_select x id ids,
)

swapped : (id id' : String) (s : Selection) → click id (click id' s) ≡ click id' (click id s)
unfolding click
swapped id id' = Quot.ind (λ s. Quot-set _ _) (λ ids. Quot.sound (swap-SameRows id id' ids))

undone : (id : String) (s : Selection) → click id (click id s) ≡ s
unfolding click
undone id = Quot.ind (λ s. Quot-set _ _) (λ ids. Quot.sound (twice-SameRows id ids))

is_selected-click :
    (x id : String) (s : Selection)
    → is_selected x (click id s) ≡ flipped_if (x == id) (is_selected x s)
unfolding click is_selected
is_selected-click x id = Quot.ind (λ s. Bool-set _ _) (λ ids. contains-toggle_select x id ids)

-- A click on the box of a row selects the row if it was not selected, and deselects it if it was, and
-- leaves every other row as it was. As a set of rows, the selection does not depend on the order of two
-- clicks, and a second click on the same box undoes the first.
pub click_lem :
    (id id' x : String) (s : Selection)
    → (is_selected x (click id s) ≡ (if x == id then not (is_selected x s) else is_selected x s))
      × (click id (click id' s) ≡ click id' (click id s))
      × (click id (click id s) ≡ s)
click_lem id id' x s = (is_selected-click x id s, swapped id id' s, undone id s)
