-- ===== src/Palette/Keys.antt =====
-- The state of the palette, its shortcut and its keyboard.
use omni_tun.Prelude.{
  ℕ, zero, suc, ℤ, pos, negsuc, String, Bool, true, false, Option, none, some, List, ◌∷◌, length,
  get_elem?, leb, pos_part, if◌then◌else◌,
}
use omni_tun.Palette.Matching.{starts_with}
use omni_tun.Palette.Results.{SearchResult}

-- `open`, `query` and `selectedIndex`, with the paths that were navigated to, the latest first.
pub record Palette : Type 0 where
  pub is_open : Bool
  pub query : String
  pub selected_index : ℤ
  pub visited : List String

pub data Key : Type 0 where
  arrow_down arrow_up enter_key escape_key : Key

-- `n - 1`, `i + 1`, `i - 1`, and the smaller of two, on integers.
abbrev pub last_of : ℕ → ℤ
last_of zero = negsuc 0
last_of (suc n) = pos n

abbrev pub succ_ℤ : ℤ → ℤ
succ_ℤ (pos n) = pos (suc n)
succ_ℤ (negsuc zero) = pos 0
succ_ℤ (negsuc (suc n)) = negsuc n

abbrev pub pred_ℤ : ℤ → ℤ
pred_ℤ (pos zero) = negsuc 0
pred_ℤ (pos (suc n)) = pos n
pred_ℤ (negsuc n) = negsuc (suc n)

abbrev pub min_ℤ : ℤ → ℤ → ℤ
min_ℤ (pos m) (pos n) = if leb m n then pos m else pos n
min_ℤ (pos m) (negsuc n) = negsuc n
min_ℤ (negsuc m) (pos n) = negsuc m
min_ℤ (negsuc m) (negsuc n) = if leb m n then negsuc n else negsuc m

-- `flatList[selectedIndex]`
unfoldable pub item_at : List SearchResult → ℤ → Option SearchResult
item_at items (pos i) = get_elem? items i
item_at items (negsuc i) = none

unfoldable pub execute : String → Palette → Palette
execute to p = record p {
  is_open = false;
  visited = if starts_with "/" to then to ∷ p.visited else p.visited;
}

unfoldable pub select_next : ℕ → ℤ → ℤ
select_next n i = min_ℤ (succ_ℤ i) (last_of n)

unfoldable pub select_previous : ℤ → ℤ
select_previous i = pos (pos_part (pred_ℤ i))

-- `handleKeyDown` of the input, and `handleEscape` of the document.
unfoldable pub handle_key : List SearchResult → Key → Palette → Palette
handle_key items arrow_down p = record p {
  selected_index = select_next (length items) p.selected_index;
}
handle_key items arrow_up p = record p { selected_index = select_previous p.selected_index }
handle_key items enter_key p = elim (item_at items p.selected_index) [
  | none ↦ p
  | some item ↦ execute item.to p
]
handle_key items escape_key p = record p { is_open = false }

-- Opening clears the query and the selection.
unfoldable pub toggle : Palette → Palette
toggle p =
    if p.is_open
    then record p { is_open = false }
    else record p { is_open = true; query = ""; selected_index = pos 0 }

-- Typing, with the effect that follows a changed query.
unfoldable pub type_query : String → Palette → Palette
type_query query p = record p { query = query; selected_index = pos 0 }
