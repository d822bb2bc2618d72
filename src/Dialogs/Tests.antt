-- ===== src/Dialogs/Tests.antt =====
-- Runs of two dialogs and the palette.
use omni_tun.Prelude.{Bool, true, false, ◌||◌, ◌≡◌, ◌⊎◌, refl, none, some, List, [], ◌∷◌}
use omni_tun.Dialogs.Defs.{Commit, Document, closed_by_key, palette_closed_by_key}
use omni_tun.Dialogs.Commits.{
  open_places, any_open, dialogs_now, palette_now, after_commits, locked, after_commits_lem,
}

abbrev renders : List Bool → Commit
renders bs = record { dialogs = some bs; palette = false }

abbrev toggles : Bool → Commit
toggles open_ = record { dialogs = none; palette = open_ }

-- The first dialog is opened, then both are open, and the first one is closed.
abbrev commits : List Commit
commits =
    renders (false ∷ true ∷ [])
    ∷ renders (true ∷ true ∷ [])
    ∷ renders (true ∷ false ∷ [])
    ∷ renders (false ∷ false ∷ [])
    ∷ []

after_commits_lem_example :
    (closed_by_key "Escape" (after_commits commits) ≡ open_places 0 (dialogs_now commits))
    × (palette_closed_by_key "Escape" (after_commits commits) ≡ palette_now commits)
    × ((after_commits commits).overflow_hidden ≡ locked commits)
    × (((after_commits commits).overflow_hidden ≡ false)
        ⊎ (any_open (dialogs_now commits) || palette_now commits ≡ true))
after_commits_lem_example = after_commits_lem commits

-- The palette is opened and closed over an open dialog, and the page scrolls.
scrolls_under_dialog :
    (after_commits (toggles false ∷ toggles true ∷ renders (true ∷ []) ∷ [])).overflow_hidden
    ≡ false
unfolding omni_tun.Dialogs.Defs.commit_page omni_tun.Dialogs.Defs.show_dialogs
    omni_tun.Dialogs.Defs.show_palette omni_tun.Dialogs.Defs.clean_palette
    omni_tun.Dialogs.Defs.clean_dialogs omni_tun.Dialogs.Defs.clean_up_palette
    omni_tun.Dialogs.Defs.palette_effect
scrolls_under_dialog = refl
