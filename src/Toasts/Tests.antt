-- ===== src/Toasts/Tests.antt =====
-- Runs.
use omni_tun.Prelude.{◌≡◌, refl, none, some, [], ◌∷◌, select}
use omni_tun.Toasts.Defs.{ToastInput, success, error, Toasts, no_toasts, toast}
use omni_tun.Toasts.Timers.{Reach, here, next, shows, is_sticky, fire_all, toasts-fire_all_timers}

abbrev saved : ToastInput
saved = record { title = "Saved"; description = none; variant = some success; duration = none }

abbrev pinned : ToastInput
pinned = record { title = "Offline"; description = none; variant = some error; duration = some 0 }

abbrev both : Toasts
unfolding toast
both = toast "b" pinned (toast "a" saved no_toasts)

both_lem : both.timers ≡ "a" ∷ []
unfolding toast
both_lem = refl

both-Reach : Reach no_toasts both
unfolding toast
both-Reach =
    next (next here (shows no_toasts "a" saved (refl, refl)))
      (shows (toast "a" saved no_toasts) "b" pinned (refl, refl))

toasts-fire_all_timers_example : (fire_all both.timers both).toasts ≡ select is_sticky both.toasts
toasts-fire_all_timers_example = toasts-fire_all_timers both-Reach
