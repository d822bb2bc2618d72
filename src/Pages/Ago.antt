-- ===== src/Pages/Ago.antt =====
-- `timeAgo` of web/src/pages/Notifications.tsx and `formatTimeAgo` of web/src/pages/Settings.tsx.
use omni_tun.Prelude.{
  ℕ, ℤ, pos, negsuc, ◌+◌, ◌*◌, ◌/◌, ◌≤◌, ◌<◌, ◌≡◌, refl, ltb, arith, Bool-cases, inl, inr,
  if◌then◌else◌,
}

-- The translation key with its number.
pub data Ago : Type 0 where
  just_now : Ago
  minutes_ago hours_ago days_ago : ℕ → Ago

-- The argument is the age in milliseconds, `now - new Date(dateStr).getTime()`; what is to come has just
-- been.
unfoldable pub time_ago : ℤ → Ago
time_ago (negsuc n) = just_now
time_ago (pos diff) =
    let minutes = diff / 60_000 in
    let hours = minutes / 60 in
    if ltb minutes 1
    then just_now
    else if ltb minutes 60
    then minutes_ago minutes
    else if ltb hours 24
    then hours_ago hours
    else days_ago (hours / 24)

unfoldable pub format_time_ago : ℤ → Ago
format_time_ago (negsuc n) = just_now
format_time_ago (pos diff_ms) =
    let diff_mins = diff_ms / 60_000 in
    let diff_hours = diff_mins / 60 in
    if ltb diff_mins 1
    then just_now
    else if ltb diff_mins 60
    then minutes_ago diff_mins
    else if ltb diff_hours 24
    then hours_ago diff_hours
    else days_ago (diff_hours / 24)

-- The number is that of the whole units in the age, and a larger unit would have none.
abbrev pub IsAgoOf : ℕ → Ago → Type 0
IsAgoOf ms just_now = ms < 60_000
IsAgoOf ms (minutes_ago n) = (1 ≤ n) × (n < 60) × (n * 60_000 ≤ ms) × (ms < (n + 1) * 60_000)
IsAgoOf ms (hours_ago n) = (1 ≤ n) × (n < 24) × (n * 3_600_000 ≤ ms) × (ms < (n + 1) * 3_600_000)
IsAgoOf ms (days_ago n) = (1 ≤ n) × (n * 86_400_000 ≤ ms) × (ms < (n + 1) * 86_400_000)

time_ago-IsAgoOf : (ms : ℕ) → IsAgoOf ms (time_ago (pos ms))
unfolding time_ago
time_ago-IsAgoOf ms = elim (Bool-cases (ltb (ms / 60_000) 1)) [
  | inl first ↦ rw first (ground (arith, first))
  | inr later ↦ elim (Bool-cases (ltb (ms / 60_000) 60)) [
    | inl hour ↦
        rw (later, hour) (ground (arith, later), ground (arith, hour), omega arith, omega arith)
    | inr longer ↦ elim (Bool-cases (ltb (ms / 60_000 / 60) 24)) [
      | inl day ↦
          rw (later, longer, day)
            (ground (arith, longer), ground (arith, day), omega arith, omega arith)
      | inr days ↦ rw (later, longer, days) (ground (arith, days), omega arith, omega arith)
    ]
  ]
]

-- The age shown has the number of whole minutes, hours or days in it, by the largest unit that it fills,
-- and both pages show the same.
pub time_ago_lem :
    (ms : ℕ) → IsAgoOf ms (time_ago (pos ms)) × (format_time_ago (pos ms) ≡ time_ago (pos ms))
unfolding time_ago format_time_ago
time_ago_lem ms = (time_ago-IsAgoOf ms, refl)
