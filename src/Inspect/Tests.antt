-- ===== src/Inspect/Tests.antt =====
-- Runs of the page.
use omni_tun.Prelude.{false, true, ◌&&◌, ◌≡◌, refl, none, some, [], ◌∷◌}
use omni_tun.Js.Sample.{sample_js}
use omni_tun.Inspect.Defs.{InspectEntry, Inspect}
use omni_tun.Inspect.Replaying.{request_text}
use omni_tun.Inspect.Feed.{
  Feed, Feeds, begins, continues, closes, fires, mount_feed, unmount_feed, on_feed_close,
  connect_feed, differ, unmount_feed-Feeds,
}

abbrev get_users : InspectEntry
get_users = record {
  id = "1";
  timestamp = "";
  method = "GET";
  path = "/api/users";
  status_code = 200;
  duration_ms = 3;
  client_ip = "192.168.0.1";
  request_headers = some (("Accept", "*/*") ∷ ("Host", "a") ∷ []);
  request_body = none;
  response_headers = none;
  response_body = none;
}

copied_request : request_text get_users ≡ "GET /api/users\nAccept: */*\nHost: a\n\n"
unfolding request_text
copied_request = refl

abbrev empty_page : Inspect
empty_page = record { entries = []; paused = false; filter = ""; highlighted_id = none }

abbrev opened : Feed
opened = record { socket = true; timer = false; mounted = true; page = empty_page }

abbrev reopened : Feed
reopened = record { socket = true; timer = false; mounted = false; page = empty_page }

is_opened : mount_feed true empty_page ≡ opened
unfolding mount_feed connect_feed
is_opened = refl

-- The page is left, the browser tells that the socket is closed, and the timer opens another one.
reopened-Feeds : Feeds sample_js (λ v. get_users) (unmount_feed opened) reopened
unfolding unmount_feed on_feed_close connect_feed
reopened-Feeds = continues (continues begins (closes refl)) (fires true refl)

opened-Feeds : Feeds sample_js (λ v. get_users) (mount_feed true empty_page) opened
unfolding mount_feed connect_feed
opened-Feeds = begins

unmount_feed-Feeds_example :
    (differ opened.socket opened.timer ≡ true)
    × (reopened.mounted ≡ false)
    × (reopened.socket && reopened.timer ≡ false)
    × (differ reopened.socket reopened.timer ≡ opened.socket)
unmount_feed-Feeds_example =
    unmount_feed-Feeds sample_js (λ v. get_users) true empty_page opened-Feeds refl reopened-Feeds
