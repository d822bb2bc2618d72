-- ===== src/Pages/Notices/Defs.antt =====
-- The tabs with their badges, and the button of a notification.
use omni_tun.Prelude.{
  ℕ, String, Bool, true, false, ◌&&◌, Option, none, some, List, [], ◌∷◌, any, length, select, ◌==◌,
  if◌then◌else◌,
}
use omni_tun.Notifications.{
  Category, tunnels, billing, system, Notification, Module, is_unread, mark_one_read, mark_all_read,
  shown,
}

-- `Category` of the page: all, or the category of a notification.
pub data Tab : Type 0 where
  all : Tab
  one : Category → Tab

abbrev pub category_tabs : List Tab
category_tabs = all ∷ one tunnels ∷ one billing ∷ one system ∷ []

abbrev pub same_category : Category → Category → Bool
same_category tunnels tunnels = true
same_category billing billing = true
same_category system system = true
same_category _ _ = false

-- The page is component `hook` of the module; `location` is where the router is.
pub record Notices : Type 0 where
  pub hook : ℕ
  pub category : Tab
  pub location : String
  pub store : Module

abbrev pub listed : Notices → List Notification
listed s = shown s.hook s.store

unfoldable pub filtered_notices : Tab → List Notification → List Notification
filtered_notices all ns = ns
filtered_notices (one c) ns = select (λ n. same_category n.category c) ns

unfoldable pub has_unread : List Notification → Bool
has_unread ns = any is_unread ns

-- `count` of a tab.
unfoldable pub badge : Tab → List Notification → ℕ
badge all ns = length (select is_unread ns)
badge (one c) ns = length (select (λ n. same_category n.category c && is_unread n) ns)

unfoldable pub set_category : Tab → Notices → Notices
set_category tab s = record s { category = tab }

abbrev pub navigated : Option String → Notices → Notices
navigated none s = s
navigated (some link) s = if link == "" then s else record s { location = link }

unfoldable pub handle_view : Notification → Notices → Notices
handle_view n s =
    navigated n.link
      (if is_unread n then record s { store = mark_one_read n.id s.hook s.store } else s)

unfoldable pub click_mark_all : Notices → Notices
click_mark_all s = record s { store = mark_all_read s.hook s.store }
