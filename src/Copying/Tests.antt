-- ===== src/Copying/Tests.antt =====
-- Runs of the buttons.
use omni_tun.Prelude.{ℕ, ◌<◌, true, ◌≡◌, refl, none, some, List, [], ◌∷◌}
use omni_tun.Copying.Defs.{new_copying, marked, pass, copy_link}
use omni_tun.Copying.Lasting.{
  CopyEvent, awaits, writes, waits, after_copying, latest_copy, after_copying-recent,
}

link_copied :
    (copy_link "https://omnitun.dev" true "c1" (new_copying 0)).clipboard
    ≡ "https://omnitun.dev/join?code=c1"
unfolding copy_link marked new_copying
link_copied = refl

-- The mark of the second copy is gone after one second.
cut_short : (pass 1000 (marked "b" (pass 1000 (marked "a" (new_copying 0))))).copied ≡ none
unfolding pass marked new_copying
cut_short = refl

abbrev evs : List CopyEvent
evs =
    waits 500
    ∷ awaits true "b.example" "b.example" "common.copied"
    ∷ waits 2500
    ∷ writes true "x" "a"
    ∷ []

after_evs : (after_copying evs (new_copying 0)).copied ≡ some "b.example"
unfolding pass marked new_copying
after_evs = refl

after_copying-recent_example :
    (age : ℕ) × (latest_copy evs ≡ some ("b.example", age)) × (age < 2000)
after_copying-recent_example = after_copying-recent evs 0 "b.example" after_evs
