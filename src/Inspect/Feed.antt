-- ===== src/Inspect/Feed.antt =====
-- The socket of the page with its timer: the first effect of web/src/pages/TunnelInspect.tsx. A step
-- relation, with the browser as environment.
use omni_tun.Prelude.{
  String, Bool, true, false, not, ◌≡◌, refl, sym, ◌∙◌, subst, if◌then◌else◌, ◌&&◌, ◌⊎◌, inl, inr,
  Bool-cases, arith,
}
use omni_tun.Js.{Value}
use omni_tun.Js.Env.{Js}
use omni_tun.Inspect.Defs.{InspectEntry, Inspect, on_traffic}

-- Whether there is a socket whose close the browser has not told yet, whether the timer is pending, and
-- whether the page is mounted.
pub record Feed : Type 0 where
  pub socket : Bool
  pub timer : Bool
  pub mounted : Bool
  pub page : Inspect

-- `connect`; `new WebSocket` may throw.
unfoldable pub connect_feed : Bool → Feed → Feed
connect_feed opened s = if opened then record s { socket = true } else record s { timer = true }

unfoldable pub mount_feed : Bool → Inspect → Feed
unfolding connect_feed
mount_feed opened page =
    connect_feed opened (record { socket = false; timer = false; mounted = true; page = page })

-- `ws.onclose`
unfoldable pub on_feed_close : Feed → Feed
on_feed_close s = record s { socket = false; timer = true }

-- `ws.onmessage`; the state of a page that is gone is not set.
unfoldable pub on_feed_message : Js → (Value → InspectEntry) → String → Feed → Feed
on_feed_message js as_entry text s =
    if s.mounted then record s { page = on_traffic js as_entry text s.page } else s

-- What the effect returns: it closes the socket, which the browser tells later, and clears the timer.
unfoldable pub unmount_feed : Feed → Feed
unmount_feed s = record s { timer = false; mounted = false }

pub data FeedStep (js : Js) (as_entry : Value → InspectEntry) (s : Feed) : Feed → Type 0 where
  fires :
      (opened : Bool)
      → s.timer ≡ true
      → FeedStep js as_entry s (connect_feed opened (record s { timer = false }))
  closes : s.socket ≡ true → FeedStep js as_entry s (on_feed_close s)
  receives :
      (text : String)
      → s.socket ≡ true
      → FeedStep js as_entry s (on_feed_message js as_entry text s)
  unmounts : s.mounted ≡ true → FeedStep js as_entry s (unmount_feed s)

pub data Feeds (js : Js) (as_entry : Value → InspectEntry) (s : Feed) : Feed → Type 0 where
  begins : Feeds js as_entry s s
  continues :
      {t u : Feed} → Feeds js as_entry s t → FeedStep js as_entry t u → Feeds js as_entry s u

abbrev pub differ : Bool → Bool → Bool
differ a b = if a then not b else b

-- Whether there is exactly one of the socket and the timer.
abbrev pub has_one : Feed → Bool
has_one s = differ s.socket s.timer

module _ (js : Js) (as_entry : Value → InspectEntry) where
  -- There are never both, and while the page is mounted there is one.
  pub record IsFed (s : Feed) : Type 0 where
    pub single : s.socket && s.timer ≡ false
    pub fed : s.mounted ≡ true → has_one s ≡ true

  -- What a step keeps, but for the end of the page.
  record Keeps (s t : Feed) : Type 0 where
    single : t.socket && t.timer ≡ false
    same_mount : t.mounted ≡ s.mounted
    same_one : has_one t ≡ has_one s

  fires-Keeps :
      (opened : Bool) (s : Feed)
      → s.timer ≡ true
      → s.socket && s.timer ≡ false
      → Keeps s (connect_feed opened (record s { timer = false }))
  unfolding connect_feed
  fires-Keeps true s e h = record {
    single = ground (arith, e, h);
    same_mount = refl;
    same_one = ground (arith, e, h);
  }
  fires-Keeps false s e h = record {
    single = ground (arith, e, h);
    same_mount = refl;
    same_one = ground (arith, e, h);
  }

  closes-Keeps :
      (s : Feed) → s.socket ≡ true → s.socket && s.timer ≡ false → Keeps s (on_feed_close s)
  unfolding on_feed_close
  closes-Keeps s e h = record { single = refl; same_mount = refl; same_one = ground (arith, e, h) }

  receives-Keeps :
      (text : String) (s : Feed)
      → s.socket && s.timer ≡ false
      → Keeps s (on_feed_message js as_entry text s)
  unfolding on_feed_message
  receives-Keeps text s h = elim (Bool-cases s.mounted) [
    | inl there ↦
        rw (there, on_feed_message) (record { single = h; same_mount = refl; same_one = refl })
    | inr gone ↦
        rw (gone, on_feed_message) (record { single = h; same_mount = refl; same_one = refl })
  ]

  step-Keeps :
      {s t : Feed}
      → FeedStep js as_entry s t
      → s.socket && s.timer ≡ false
      → Keeps s t ⊎ ((s.mounted ≡ true) × (t ≡ unmount_feed s))
  step-Keeps {s} (fires opened e) h = inl (fires-Keeps opened s e h)
  step-Keeps {s} (closes e) h = inl (closes-Keeps s e h)
  step-Keeps {s} (receives text e) h = inl (receives-Keeps text s h)
  step-Keeps (unmounts e) h = inr (e, refl)

  unmount-has_one : (s : Feed) → has_one (unmount_feed s) ≡ s.socket
  unfolding unmount_feed
  unmount-has_one s = elim (Bool-cases s.socket) [
    | inl open_ ↦ rw open_ refl
    | inr shut ↦ rw shut refl
  ]

  unmount-single : (s : Feed) → (unmount_feed s).socket && (unmount_feed s).timer ≡ false
  unfolding unmount_feed
  unmount-single s = elim (Bool-cases s.socket) [
    | inl open_ ↦ rw open_ refl
    | inr shut ↦ rw shut refl
  ]

  mount_feed-IsFed : (opened : Bool) (page : Inspect) → IsFed (mount_feed opened page)
  unfolding mount_feed connect_feed
  mount_feed-IsFed true page = record { single = refl; fed = λ there. refl }
  mount_feed-IsFed false page = record { single = refl; fed = λ there. refl }

  step-IsFed : {s t : Feed} → FeedStep js as_entry s t → IsFed s → IsFed t
  unfolding unmount_feed
  step-IsFed {s} {t} st h = elim (step-Keeps st h.single) [
    | inl k ↦ record {
      single = k.single;
      fed = λ there. k.same_one ∙ h.fed (sym k.same_mount ∙ there);
    }
    | inr (there, e) ↦
        subst IsFed (sym e) (record { single = unmount-single s; fed = λ wrong. cc (wrong) })
  ]

  -- However the browser behaves: the page never has both a socket and the timer, and while it is mounted
  -- it has one of them.
  pub mount_feed-Feeds-IsFed :
      (opened : Bool) (page : Inspect) {s : Feed}
      → Feeds js as_entry (mount_feed opened page) s
      → IsFed s
  mount_feed-Feeds-IsFed opened page begins = mount_feed-IsFed opened page
  mount_feed-Feeds-IsFed opened page (continues fs st) =
      step-IsFed st (mount_feed-Feeds-IsFed opened page fs)

  -- A page that is gone, with a socket or the timer, or without.
  record IsLeft (b : Bool) (s : Feed) : Type 0 where
    single : s.socket && s.timer ≡ false
    gone : s.mounted ≡ false
    left : has_one s ≡ b

  Feeds-IsLeft : {b : Bool} {s t : Feed} → IsLeft b s → Feeds js as_entry s t → IsLeft b t
  Feeds-IsLeft h begins = h
  Feeds-IsLeft h (continues fs st) =
      let l = Feeds-IsLeft h fs in
      elim (step-Keeps st l.single) [
        | inl k ↦ record {
          single = k.single;
          gone = k.same_mount ∙ l.gone;
          left = k.same_one ∙ l.left;
        }
        | inr (there, e) ↦ (let wrong = sym l.gone ∙ there in cc (wrong))
      ]

-- Whatever has happened on the page: if it is left while it waits for a reconnect, it is quiet for ever;
-- if it is left with a socket, then at every later time it has exactly one of a socket and the timer of a
-- reconnect: it never comes to rest.
pub unmount_feed-Feeds :
    (js : Js) (as_entry : Value → InspectEntry) (opened : Bool) (page : Inspect) {s t : Feed}
    → Feeds js as_entry (mount_feed opened page) s
    → s.mounted ≡ true
    → Feeds js as_entry (unmount_feed s) t
    → (differ s.socket s.timer ≡ true)
      × (t.mounted ≡ false)
      × (t.socket && t.timer ≡ false)
      × (differ t.socket t.timer ≡ s.socket)
unfolding unmount_feed
unmount_feed-Feeds js as_entry opened page {s} before there after =
    let h = mount_feed-Feeds-IsFed js as_entry opened page before in
    let l =
      Feeds-IsLeft js as_entry
        (record {
          single = unmount-single js as_entry s;
          gone = refl;
          left = unmount-has_one js as_entry s;
        })
        after in
    (h.fed there, l.gone, l.single, l.left)
