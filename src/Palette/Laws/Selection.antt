-- ===== src/Palette/Laws/Selection.antt =====
-- The selected row under the keyboard.
use omni_tun.Prelude.{
  ℕ, zero, suc, ◌<◌, ◌≤◌, ◌∙◌, ℤ, pos, negsuc, none, Option-cases, String, sym, subst, ◌≡◌, refl,
  ap, some, List, [], ◌∷◌, length, get_elem?, get_elem?-some, arith, leb, Bool-cases, inl, inr,
}
use omni_tun.Palette.Results.{SearchResult}
use omni_tun.Palette.Keys.{
  Palette, Key, arrow_down, arrow_up, enter_key, escape_key, handle_key, item_at, select_next,
  select_previous, execute,
}

abbrev pub press : List SearchResult → List Key → Palette → Palette
press items [] p = p
press items (k ∷ ks) p = press items ks (handle_key items k p)

-- A row of the list is selected.
abbrev pub IsSelected : List SearchResult → Palette → Type 0
IsSelected items p = (i : ℕ) × (p.selected_index ≡ pos i) × (i < length items)

select_next_lem : (n i : ℕ) → i < n → (j : ℕ) × (select_next n (pos i) ≡ pos j) × (j < n)
unfolding select_next
select_next_lem zero i h = elim h [ ]
select_next_lem (suc m) i h = elim (Bool-cases (leb (suc i) m)) [
  | inl e ↦ (suc i, ground (arith, e), ground (arith, e))
  | inr e ↦ (m, ground (arith, e), omega arith)
]

select_previous_lem : (i : ℕ) → (j : ℕ) × (select_previous (pos i) ≡ pos j) × (j ≤ i)
unfolding select_previous
select_previous_lem zero = (0, refl, omega arith)
select_previous_lem (suc i) = (i, refl, omega arith)

enter-some :
    (items : List SearchResult) (p : Palette) (item : SearchResult)
    → item_at items p.selected_index ≡ some item
    → handle_key items enter_key p ≡ execute item.to p
unfolding handle_key
enter-some items p item there = ground (arith, there)

enter-none :
    (items : List SearchResult) (p : Palette)
    → item_at items p.selected_index ≡ none
    → handle_key items enter_key p ≡ p
unfolding handle_key
enter-none items p nothing = ground (arith, nothing)

execute-IsSelected :
    (items : List SearchResult) (to : String) (p : Palette)
    → IsSelected items p
    → IsSelected items (execute to p)
unfolding execute
execute-IsSelected items to p h = h

handle_key-IsSelected :
    (items : List SearchResult) (k : Key) (p : Palette)
    → IsSelected items p
    → IsSelected items (handle_key items k p)
unfolding handle_key execute
handle_key-IsSelected items arrow_down p (i, e, h) =
    let (j, e', h') = select_next_lem (length items) i h in
    (j, ap (select_next (length items)) e ∙ e', h')
handle_key-IsSelected items arrow_up p (i, e, h) =
    let (j, e', h') = select_previous_lem i in (j, ap select_previous e ∙ e', omega (arith, h, h'))
handle_key-IsSelected items enter_key p h = elim (Option-cases (item_at items p.selected_index)) [
  | inl nothing ↦ subst (IsSelected items) (sym (enter-none items p nothing)) h
  | inr (item, there) ↦
      subst (IsSelected items) (sym (enter-some items p item there))
        (execute-IsSelected items item.to p h)
]
handle_key-IsSelected items escape_key p h = h

press-IsSelected :
    (items : List SearchResult) (ks : List Key) (p : Palette)
    → IsSelected items p
    → IsSelected items (press items ks p)
press-IsSelected items [] p h = h
press-IsSelected items (k ∷ ks) p h =
    press-IsSelected items ks (handle_key items k p) (handle_key-IsSelected items k p h)

IsSelected-enter :
    (items : List SearchResult) (p : Palette)
    → IsSelected items p
    → (i : ℕ) × (item : SearchResult) × (get_elem? items i ≡ some item)
      × (p.selected_index ≡ pos i)
      × (handle_key items enter_key p ≡ execute item.to p)
unfolding handle_key item_at
IsSelected-enter items p (i, e, h) =
    let (item, there) = get_elem?-some items i h in
    (i, item, there, e, enter-some items p item (ap (item_at items) e ∙ there))

item_at-next_of_none : (items : List SearchResult) (i : ℤ) → item_at items (select_next 0 i) ≡ none
unfolding item_at select_next
item_at-next_of_none items (pos n) = refl
item_at-next_of_none items (negsuc zero) = refl
item_at-next_of_none items (negsuc (suc zero)) = refl
item_at-next_of_none items (negsuc (suc (suc n))) = ground arith

-- While the results stay the same and there are any, every key leaves a row of the list selected, and
-- Enter then closes the palette and goes where that row leads.
pub press-selects :
    (items : List SearchResult) (ks : List Key) (p : Palette)
    → IsSelected items p
    → (i : ℕ) × (item : SearchResult) × (get_elem? items i ≡ some item)
      × ((press items ks p).selected_index ≡ pos i)
      × (handle_key items enter_key (press items ks p) ≡ execute item.to (press items ks p))
press-selects items ks p h =
    IsSelected-enter items (press items ks p) (press-IsSelected items ks p h)

-- ArrowDown on an empty list of results leaves no row selected: when results arrive without a change of
-- the query, Enter does nothing.
pub handle_key-arrow_down_empty :
    (p : Palette) (items : List SearchResult)
    → handle_key items enter_key (handle_key [] arrow_down p) ≡ handle_key [] arrow_down p
unfolding handle_key
handle_key-arrow_down_empty p items =
    enter-none items (handle_key [] arrow_down p) (item_at-next_of_none items p.selected_index)
