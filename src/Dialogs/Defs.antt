-- ===== src/Dialogs/Defs.antt =====
-- The effect of a dialog and the ways to close it. A dialog is its place among those of a component,
-- which passes a new `onClose` with each render, so that a commit runs the effect of every dialog again: the
-- clean-ups of the last commit first, then the effects of this one.
use omni_tun.Prelude.{
  ℕ, suc, String, Bool, true, false, not, ◌&&◌, Option, none, some, List, [], ◌∷◌, ◌++◌, select,
  nat_eq, ◌==◌, if◌then◌else◌,
}

-- The dialogs whose `handleKeyDown` the document calls, in the order of their registration, whether it
-- calls the `handleEscape` of the command palette, and whether the page is kept from scrolling.
pub record Document : Type 0 where
  pub listeners : List ℕ
  pub palette_listens : Bool
  pub overflow_hidden : Bool

unfoldable pub open_dialog_effect : ℕ → Bool → Document → Document
open_dialog_effect i open_ d =
    if open_ then record d { listeners = d.listeners ++ (i ∷ []); overflow_hidden = true } else d

unfoldable pub clean_up_dialog : ℕ → Document → Document
clean_up_dialog i d = record d {
  listeners = select (λ j. not (nat_eq j i)) d.listeners;
  overflow_hidden = false;
}

-- The effects of the dialogs from place `i` on, and their clean-ups.
unfoldable pub run_effects : ℕ → List Bool → Document → Document
run_effects i [] d = d
run_effects i (open_ ∷ bs) d = run_effects (suc i) bs (open_dialog_effect i open_ d)

unfoldable pub run_clean_ups : ℕ → List Bool → Document → Document
run_clean_ups i [] d = d
run_clean_ups i (open_ ∷ bs) d = run_clean_ups (suc i) bs (clean_up_dialog i d)

-- The effect of the command palette that depends on its `open` alone, and its clean-up.
unfoldable pub palette_effect : Bool → Document → Document
palette_effect open_ d =
    if open_ then record d { palette_listens = true; overflow_hidden = true } else d

unfoldable pub clean_up_palette : Document → Document
clean_up_palette d = record d { palette_listens = false; overflow_hidden = false }

-- A commit: the dialogs of the component with whether they are open, if it renders, and whether the
-- palette is open.
pub record Commit : Type 0 where
  pub dialogs : Option (List Bool)
  pub palette : Bool

abbrev pub differ : Bool → Bool → Bool
differ true b = not b
differ false b = b

-- The clean-ups and the effects that a commit runs: those of the dialogs where their component renders,
-- and those of the palette where it is opened or closed.
unfoldable pub clean_dialogs : Option (List Bool) → List Bool → Document → Document
clean_dialogs none old d = d
clean_dialogs (some bs) old d = run_clean_ups 0 old d

unfoldable pub show_dialogs : Option (List Bool) → Document → Document
show_dialogs none d = d
show_dialogs (some bs) d = run_effects 0 bs d

unfoldable pub clean_palette : Bool → Document → Document
clean_palette changed d = if changed then clean_up_palette d else d

unfoldable pub show_palette : Bool → Bool → Document → Document
show_palette changed open_ d = if changed then palette_effect open_ d else d

-- A commit, after one with these dialogs and this palette: all clean-ups, then all effects.
unfoldable pub commit_page : List Bool → Bool → Commit → Document → Document
commit_page old was c d =
    let changed = differ was c.palette in
    show_palette changed c.palette
      (show_dialogs c.dialogs (clean_palette changed (clean_dialogs c.dialogs old d)))

-- The dialogs whose `onClose` a key calls.
unfoldable pub closed_by_key : String → Document → List ℕ
closed_by_key key d = if key == "Escape" then d.listeners else []

-- Whether a key closes the palette.
unfoldable pub palette_closed_by_key : String → Document → Bool
palette_closed_by_key key d = key == "Escape" && d.palette_listens

-- What was clicked: the backdrop, or something within the dialog.
pub data ClickTarget : Type 0 where
  overlay content : ClickTarget

-- `handleBackdropClick`: whether it calls `onClose`.
unfoldable pub closed_by_click : ClickTarget → Bool
closed_by_click overlay = true
closed_by_click content = false
