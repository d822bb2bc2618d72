-- ===== src/Pages/Notices/Badges.antt =====
-- What the badges count.
use omni_tun.Prelude.{
  ℕ, ◌+◌, ◌<◌, ◌≢◌, ◌↔◌, ltb, Bool, true, false, ◌&&◌, ◌≡◌, refl, ap, ◌∙◌, List, [], ◌∷◌, length,
  select, map, if◌then◌else◌, arith, Bool-cases, inl, inr,
}
use omni_tun.Notifications.{
  shown, Category, tunnels, billing, system, Notification, is_unread, mark_read, mark_all_read,
}
use omni_tun.Notifications.Instances.{marking_stale}
use omni_tun.Notifications.Marking.{shown-show_store}
use omni_tun.Pages.Notices.Defs.{
  Tab, all, one, same_category, Notices, listed, has_unread, badge, click_mark_all,
}

abbrev one_if : Bool → ℕ
one_if b = if b then 1 else 0

length-kept :
    (b : Bool) (n : Notification) (ns : List Notification)
    → length (if b then n ∷ ns else ns) ≡ one_if b + length ns
length-kept true n ns = omega arith
length-kept false n ns = omega arith

-- An unread notification counts in exactly one category.
one_if-categories :
    (c : Category) (unread : Bool)
    → one_if unread
      ≡ one_if (same_category c tunnels && unread)
        + one_if (same_category c billing && unread)
        + one_if (same_category c system && unread)
one_if-categories tunnels true = refl
one_if-categories billing true = refl
one_if-categories system true = refl
one_if-categories tunnels false = refl
one_if-categories billing false = refl
one_if-categories system false = refl

badge-sum :
    (ns : List Notification)
    → badge all ns ≡ badge (one tunnels) ns + badge (one billing) ns + badge (one system) ns
unfolding badge
badge-sum [] = refl
badge-sum (n ∷ ns) =
    let kept = λ (c : Category).
      length-kept (same_category n.category c && is_unread n) n
        (select (λ x. same_category x.category c && is_unread x) ns) in
    omega (
      arith,
      length-kept (is_unread n) n (select is_unread ns),
      kept tunnels,
      kept billing,
      kept system,
      one_if-categories n.category (is_unread n),
      badge-sum ns,
    )

badge-has_unread : (ns : List Notification) → has_unread ns ≡ ltb 0 (badge all ns)
unfolding badge has_unread
badge-has_unread [] = refl
badge-has_unread (n ∷ ns) = elim (Bool-cases (is_unread n)) [
  | inl unread ↦ rw unread (ground arith)
  | inr seen ↦ rw seen (badge-has_unread ns)
]

badge-map : (ns : List Notification) (tab : Tab) → badge tab (map mark_read ns) ≡ 0
unfolding badge
badge-map [] all = refl
badge-map [] (one c) = refl
badge-map (n ∷ ns) all = badge-map ns all
badge-map (n ∷ ns) (one c) = elim (Bool-cases (same_category n.category c)) [
  | inl same ↦ rw same (badge-map ns (one c))
  | inr other ↦ rw other (badge-map ns (one c))
]

listed-mark_all :
    (s : Notices)
    → s.hook < length s.store.hooks
    → listed (click_mark_all s) ≡ map mark_read s.store.mock_store
unfolding click_mark_all mark_all_read
listed-mark_all s mounted =
    shown-show_store s.hook (record s.store { mock_store = map mark_read s.store.mock_store })
      mounted

-- While the page is mounted: the badge of all notifications is the sum of those of the categories; the
-- button that marks all as read is there exactly when that badge is; after a click on it no tab has a
-- badge any more, and every other component, such as the layout with its unread count, still shows what
-- it showed before.
pub badges_lem :
    (s : Notices) (tab : Tab) (other : ℕ)
    → s.hook < length s.store.hooks
    → s.hook ≢ other
    → (badge all (listed s)
        ≡ badge (one tunnels) (listed s)
          + badge (one billing) (listed s)
          + badge (one system) (listed s))
      × ((has_unread (listed s) ≡ true) ↔ (0 < badge all (listed s)))
      × (badge tab (listed (click_mark_all s)) ≡ 0)
      × (shown other (click_mark_all s).store ≡ shown other s.store)
unfolding click_mark_all
badges_lem s tab other mounted ne =
    let e = badge-has_unread (listed s) in
    (
      badge-sum (listed s),
      (λ h. ground (arith, e, h), λ h. ground (arith, e, h)),
      ap (badge tab) (listed-mark_all s mounted) ∙ badge-map s.store.mock_store tab,
      (marking_stale "" s.hook other s.store ne).0,
    )
