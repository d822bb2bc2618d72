-- ===== src/Notifications/Instances.antt =====
-- Several mounted components, and what the timer does.
use omni_tun.Prelude.{
  ℕ, ℤ, ◌<◌, String, ◌≡◌, ◌≢◌, refl, ap, ◌∙◌, map, length, get_elem?, get_elem?-set_ne, arith,
  Option-cases, inl, inr,
}
use omni_tun.Notifications.Defs.{
  Module, generate_mock_notifications, show_store, on_interval, mark_all_read, mark_one_read,
  mark_read, mark_if, unread_count, shown,
}
use omni_tun.Notifications.Marking.{shown-show_store}

shown-show_store_ne : (i j : ℕ) (m : Module) → i ≢ j → shown j (show_store i m) ≡ shown j m
unfolding show_store
shown-show_store_ne i j m h = elim (Option-cases (get_elem? m.hooks i)) [
  | inl missing ↦ rw (missing, show_store)
  | inr (k, e) ↦
      let other = get_elem?-set_ne m.hooks i j (record k { notifications = m.mock_store }) h in
      ground (arith, e, other)
]

-- Marking notifications as read in one component leaves what every other component shows, its unread
-- count included, as it was.
pub marking_stale :
    (id : String) (i j : ℕ) (m : Module)
    → i ≢ j
    → (shown j (mark_all_read i m) ≡ shown j m) × (shown j (mark_one_read id i m) ≡ shown j m)
unfolding mark_all_read mark_one_read
marking_stale id i j m h = (
  shown-show_store_ne i j (record m { mock_store = map mark_read m.mock_store }) h,
  shown-show_store_ne i j (record m { mock_store = map (mark_if id) m.mock_store }) h,
)

unread_count-generate :
    (iso : ℤ → String) (now : ℕ) → unread_count (generate_mock_notifications iso now) ≡ 3
unfolding generate_mock_notifications unread_count
unread_count-generate iso now = refl

-- The timer of a component undoes all marks: whatever was marked before, three notifications are unread
-- after it.
pub on_interval_resets :
    (iso : ℤ → String) (now i : ℕ) (m : Module)
    → i < length m.hooks
    → unread_count (shown i (on_interval iso now i m)) ≡ 3
unfolding on_interval
on_interval_resets iso now i m h =
    ap unread_count
      (shown-show_store i (record m { mock_store = generate_mock_notifications iso now }) h)
    ∙ unread_count-generate iso now
