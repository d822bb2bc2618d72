-- ===== src/Dialogs/Commits.antt =====
-- The document after any number of commits.
use omni_tun.Prelude.{
  ℕ, suc, ◌<◌, Bool, true, false, not, ◌&&◌, ◌||◌, Option, none, some, ◌≡◌, refl, ap, sym, ◌⊎◌, inl,
  inr, ◌∙◌, List, [], ◌∷◌, ◌++◌, select, any, nat_eq, arith, append_assoc, append-nil,
}
use omni_tun.Dialogs.Defs.{
  Document, open_dialog_effect, clean_up_dialog, run_effects, run_clean_ups, Commit, differ,
  clean_dialogs, show_dialogs, clean_palette, show_palette, clean_up_palette, palette_effect,
  commit_page, palette_closed_by_key, closed_by_key,
}

-- The places of the open dialogs, from place `i` on.
abbrev pub open_places : ℕ → List Bool → List ℕ
open_places i [] = []
open_places i (true ∷ bs) = i ∷ open_places (suc i) bs
open_places i (false ∷ bs) = open_places (suc i) bs

abbrev pub any_open : List Bool → Bool
any_open bs = any (λ b. b) bs

abbrev pub no_dialogs : Document
no_dialogs = record { listeners = []; palette_listens = false; overflow_hidden = false }

-- The dialogs after a commit that followed one with these; whether it renders an open one, and whether
-- it runs the clean-up of one.
abbrev pub shown_dialogs : Option (List Bool) → List Bool → List Bool
shown_dialogs none old = old
shown_dialogs (some bs) old = bs

abbrev pub shows_open : Option (List Bool) → Bool
shows_open none = false
shows_open (some bs) = any_open bs

abbrev pub cleans : Option (List Bool) → List Bool → Bool
cleans none old = false
cleans (some bs) [] = false
cleans (some bs) (b ∷ old) = true

-- The commits of a page with the palette over it, the latest first: the dialogs and the palette that they
-- leave, and the document.
abbrev pub dialogs_now : List Commit → List Bool
dialogs_now [] = []
dialogs_now (c ∷ commits) = shown_dialogs c.dialogs (dialogs_now commits)

abbrev pub palette_now : List Commit → Bool
palette_now [] = false
palette_now (c ∷ commits) = c.palette

abbrev pub after_commits : List Commit → Document
after_commits [] = no_dialogs
after_commits (c ∷ commits) =
    commit_page (dialogs_now commits) (palette_now commits) c (after_commits commits)

-- The commit renders an open dialog, or it opens the palette.
abbrev pub opens_one : Bool → Commit → Bool
opens_one was c = shows_open c.dialogs || differ was c.palette && c.palette

-- The commit runs a clean-up: it renders a component that had dialogs, or opens or closes the palette.
abbrev pub cleans_up : List Bool → Bool → Commit → Bool
cleans_up old was c = cleans c.dialogs old || differ was c.palette

-- Who keeps the page from scrolling is decided by the latest commit that runs a clean-up, and by what
-- opens since.
abbrev pub locked : List Commit → Bool
locked [] = false
locked (c ∷ commits) =
    let earlier = locked commits in
    opens_one (palette_now commits) c
    || not (cleans_up (dialogs_now commits) (palette_now commits) c) && earlier

select_above :
    (i k : ℕ) (bs : List Bool)
    → i < k
    → select (λ j. not (nat_eq j i)) (open_places k bs) ≡ open_places k bs
select_above i k [] h = refl
select_above i k (true ∷ bs) h = ground (arith, select_above i (suc k) bs (omega arith))
select_above i k (false ∷ bs) h = select_above i (suc k) bs (omega arith)

clean_ups-listeners :
    (i : ℕ) (bs : List Bool) (d : Document)
    → d.listeners ≡ open_places i bs
    → (run_clean_ups i bs d).listeners ≡ []
unfolding run_clean_ups clean_up_dialog
clean_ups-listeners i [] d h = h
clean_ups-listeners i (true ∷ bs) d h = clean_ups-listeners (suc i) bs (clean_up_dialog i d) (
    ap (select (λ j. not (nat_eq j i))) h ∙ ground (arith, select_above i (suc i) bs (omega arith)))
clean_ups-listeners i (false ∷ bs) d h =
    clean_ups-listeners (suc i) bs (clean_up_dialog i d)
      (ap (select (λ j. not (nat_eq j i))) h ∙ select_above i (suc i) bs (omega arith))

clean_ups-hidden :
    (i : ℕ) (bs : List Bool) (d : Document)
    → (run_clean_ups i bs d).overflow_hidden ≡ not (cleans (some bs) bs) && d.overflow_hidden
unfolding run_clean_ups clean_up_dialog
clean_ups-hidden i [] d = refl
clean_ups-hidden i (b ∷ bs) d = clean_ups-hidden (suc i) bs (clean_up_dialog i d) ∙ ground arith

clean_ups-palette :
    (i : ℕ) (bs : List Bool) (d : Document)
    → (run_clean_ups i bs d).palette_listens ≡ d.palette_listens
unfolding run_clean_ups clean_up_dialog
clean_ups-palette i [] d = refl
clean_ups-palette i (b ∷ bs) d = clean_ups-palette (suc i) bs (clean_up_dialog i d)

effects-palette :
    (i : ℕ) (bs : List Bool) (d : Document)
    → (run_effects i bs d).palette_listens ≡ d.palette_listens
unfolding run_effects open_dialog_effect
effects-palette i [] d = refl
effects-palette i (true ∷ bs) d = effects-palette (suc i) bs (open_dialog_effect i true d)
effects-palette i (false ∷ bs) d = effects-palette (suc i) bs d

or_false : (b : Bool) → b ≡ b || false
or_false true = refl
or_false false = refl

or_true : (b : Bool) → b || true ≡ true
or_true true = refl
or_true false = refl

effects_lem :
    (i : ℕ) (bs : List Bool) (d : Document)
    → ((run_effects i bs d).listeners ≡ d.listeners ++ open_places i bs)
      × ((run_effects i bs d).overflow_hidden ≡ d.overflow_hidden || any_open bs)
unfolding run_effects open_dialog_effect
effects_lem i [] d = (sym (append-nil d.listeners), or_false d.overflow_hidden)
effects_lem i (true ∷ bs) d =
    let (l, h) = effects_lem (suc i) bs (open_dialog_effect i true d) in
    (
      l ∙ append_assoc d.listeners (i ∷ []) (open_places (suc i) bs),
      h ∙ sym (or_true d.overflow_hidden),
    )
effects_lem i (false ∷ bs) d = effects_lem (suc i) bs d

-- The document fits the dialogs and the palette that are open.
pub record Fits (bs : List Bool) (open_palette hidden : Bool) (d : Document) : Type 0 where
  pub listening : d.listeners ≡ open_places 0 bs
  pub palette : d.palette_listens ≡ open_palette
  pub locked : d.overflow_hidden ≡ hidden

clean_palette-Fits :
    (bs : List Bool) (changed was hidden : Bool) (d : Document)
    → Fits bs was hidden d
    → Fits bs (not changed && was) (not changed && hidden) (clean_palette changed d)
unfolding clean_palette clean_up_palette
clean_palette-Fits bs true was hidden d f = record {
  listening = f.listening;
  palette = refl;
  locked = refl;
}
clean_palette-Fits bs false was hidden d f = f

clean_ups-Fits :
    (old : List Bool) (was hidden : Bool) (d : Document)
    → Fits old was hidden d
    → Fits [] was (not (cleans (some old) old) && hidden) (run_clean_ups 0 old d)
clean_ups-Fits old was hidden d f = record {
  listening = clean_ups-listeners 0 old d f.listening;
  palette = clean_ups-palette 0 old d ∙ f.palette;
  locked = clean_ups-hidden 0 old d ∙ ap (λ b. not (cleans (some old) old) && b) f.locked;
}

effects-Fits :
    (bs : List Bool) (open_palette hidden : Bool) (d : Document)
    → Fits [] open_palette hidden d
    → Fits bs open_palette (any_open bs || hidden) (run_effects 0 bs d)
effects-Fits bs open_palette hidden d f =
    let (l, h) = effects_lem 0 bs d in
    record {
      listening = l ∙ ap (λ ls. ls ++ open_places 0 bs) f.listening;
      palette = effects-palette 0 bs d ∙ f.palette;
      locked = ground (arith, h, f.locked);
    }

-- The clean-ups of the dialogs and of the palette, and the effects of the dialogs.
dialogs-Fits :
    (o : Option (List Bool)) (old : List Bool) (was changed hidden : Bool) (d : Document)
    → Fits old was hidden d
    → Fits
        (shown_dialogs o old)
        (not changed && was)
        (shows_open o || not changed && (not (cleans o old) && hidden))
        (show_dialogs o (clean_palette changed (clean_dialogs o old d)))
unfolding show_dialogs clean_dialogs
dialogs-Fits none old was changed hidden d f = clean_palette-Fits old changed was hidden d f
dialogs-Fits (some bs) old was changed hidden d f =
    let cleaned =
      clean_palette-Fits [] changed was (not (cleans (some old) old) && hidden)
        (run_clean_ups 0 old d) (clean_ups-Fits old was hidden d f) in
    let fits = effects-Fits bs _ _ _ cleaned in
    record {
      listening = fits.listening;
      palette = fits.palette;
      locked = ground (arith, fits.locked);
    }

show_palette-Fits :
    (bs : List Bool) (was now hidden : Bool) (d : Document)
    → Fits bs (not (differ was now) && was) hidden d
    → Fits bs now (differ was now && now || hidden) (show_palette (differ was now) now d)
unfolding show_palette palette_effect
show_palette-Fits bs true true hidden d f = f
show_palette-Fits bs true false hidden d f = f
show_palette-Fits bs false true hidden d f = record {
  listening = f.listening;
  palette = refl;
  locked = refl;
}
show_palette-Fits bs false false hidden d f = f

regrouped :
    (changed now shows cleaned hidden : Bool)
    → (changed && now || (shows || not changed && (not cleaned && hidden)))
      ≡ ((shows || changed && now) || not (cleaned || changed) && hidden)
regrouped changed now shows cleaned hidden = ground arith

commit-Fits :
    (old : List Bool) (was hidden : Bool) (c : Commit) (d : Document)
    → Fits old was hidden d
    → Fits
        (shown_dialogs c.dialogs old)
        c.palette
        (opens_one was c || not (cleans_up old was c) && hidden)
        (commit_page old was c d)
unfolding commit_page
commit-Fits old was hidden c d f =
    let fits =
      show_palette-Fits _ was c.palette _ _
        (dialogs-Fits c.dialogs old was (differ was c.palette) hidden d f) in
    record {
      listening = fits.listening;
      palette = fits.palette;
      locked = fits.locked ∙ regrouped (differ was c.palette) c.palette _ _ hidden;
    }

after_commits-Fits :
    (commits : List Commit)
    → Fits (dialogs_now commits) (palette_now commits) (locked commits) (after_commits commits)
after_commits-Fits [] = record { listening = refl; palette = refl; locked = refl }
after_commits-Fits (c ∷ commits) =
    commit-Fits (dialogs_now commits) (palette_now commits) (locked commits) c
      (after_commits commits) (after_commits-Fits commits)

-- A commit after which nothing is open does not keep the page from scrolling.
commit_locked :
    (o : Option (List Bool)) (old : List Bool) (was now hidden : Bool)
    → (hidden ≡ false) ⊎ (any_open old || was ≡ true)
    → (((shows_open o || differ was now && now) || not (cleans o old || differ was now) && hidden)
        ≡ false)
      ⊎ (any_open (shown_dialogs o old) || now ≡ true)
commit_locked none old true true hidden h = inr (or_true (any_open old))
commit_locked none old true false hidden h = inl refl
commit_locked none old false true hidden h = inr (or_true (any_open old))
commit_locked none old false false hidden h = h
commit_locked (some bs) [] was now hidden h = ground (arith, h)
commit_locked (some bs) (b ∷ old) was now hidden h = ground (arith, h)

-- The page scrolls again once nothing is open.
locked_lem :
    (commits : List Commit)
    → (locked commits ≡ false) ⊎ (any_open (dialogs_now commits) || palette_now commits ≡ true)
locked_lem [] = inl refl
locked_lem (c ∷ commits) =
    commit_locked c.dialogs (dialogs_now commits) (palette_now commits) c.palette (locked commits)
      (locked_lem commits)

-- Whatever commits a page and the palette over it go through: the Escape key closes exactly the dialogs
-- that are open, each once, and the palette exactly if it is open. The page is kept from scrolling
-- exactly if the latest commit that ran a clean-up, or one since, rendered an open dialog or opened the
-- palette; and never while neither a dialog nor the palette is open.
pub after_commits_lem :
    (commits : List Commit)
    → (closed_by_key "Escape" (after_commits commits) ≡ open_places 0 (dialogs_now commits))
      × (palette_closed_by_key "Escape" (after_commits commits) ≡ palette_now commits)
      × ((after_commits commits).overflow_hidden ≡ locked commits)
      × (((after_commits commits).overflow_hidden ≡ false)
          ⊎ (any_open (dialogs_now commits) || palette_now commits ≡ true))
unfolding closed_by_key palette_closed_by_key
after_commits_lem commits =
    let f = after_commits-Fits commits in
    (f.listening, f.palette, f.locked, ground (arith, f.locked, locked_lem commits))
