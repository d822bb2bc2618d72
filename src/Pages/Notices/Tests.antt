-- ===== src/Pages/Notices/Tests.antt =====
-- Runs of the page.
use omni_tun.Prelude.{ℕ, ◌≢◌, ◌<◌, ◌+◌, ◌≡◌, ◌↔◌, refl, true, false, some, List, [], ◌∷◌, arith}
use omni_tun.Notifications.{tunnels, billing, info, Notification}
use omni_tun.Pages.Notices.Defs.{
  Notices, all, one, badge, listed, has_unread, click_mark_all, handle_view,
}
use omni_tun.Notifications.{system, shown}
use omni_tun.Pages.Notices.Badges.{badges_lem}

abbrev invoice : Notification
invoice = record {
  id = "n4";
  type = "billing_invoice";
  category = billing;
  title = "Invoice";
  description = "";
  read = false;
  severity = info;
  created_at = "";
  link = some "/billing";
}

abbrev started : Notification
started = record invoice { id = "n8"; category = tunnels; link = some "/tunnels" }

abbrev both : List Notification
both = invoice ∷ started ∷ []

-- The page is the second component, after the layout.
abbrev mounted : Notices
mounted = record {
  hook = 1;
  category = all;
  location = "/notifications";
  store = record {
    mock_store = both;
    hooks =
        (record { notifications = both; is_loading = false })
        ∷ (record { notifications = both; is_loading = false })
        ∷ [];
  };
}

view_moves : (handle_view invoice mounted).location ≡ "/billing"
unfolding handle_view
view_moves = refl

one-not-zero : ◌≢◌ {A = ℕ} 1 0
one-not-zero h = omega (arith, h)

badges_lem_example :
    (badge all (listed mounted)
      ≡ badge (one tunnels) (listed mounted)
        + badge (one billing) (listed mounted)
        + badge (one system) (listed mounted))
    × ((has_unread (listed mounted) ≡ true) ↔ (0 < badge all (listed mounted)))
    × (badge (one billing) (listed (click_mark_all mounted)) ≡ 0)
    × (shown 0 (click_mark_all mounted).store ≡ shown 0 mounted.store)
badges_lem_example = badges_lem mounted (one billing) 0 (omega arith) one-not-zero
