-- ===== src/Notifications/Marking.antt =====
-- What marking does to the notifications and to their unread count.
use omni_tun.Prelude.{
  ℕ, ◌+◌, ◌<◌, String, false, ◌&&◌, ◌≡◌, refl, List, [], ◌∷◌, map, length, select, ◌==◌, arith,
  get_elem?-set_self, get_elem?-some, ap,
}
use omni_tun.Notifications.Defs.{
  Notification, Module, show_store, mark_read, mark_if, mark_all_read, mark_one_read, is_unread,
  unread_count, shown,
}

-- A mounted component shows the store after each of its operations.
pub shown-show_store :
    (i : ℕ) (m : Module) → i < length m.hooks → shown i (show_store i m) ≡ m.mock_store
unfolding show_store
shown-show_store i m h =
    let (k, e) = get_elem?-some m.hooks i h in
    let set_self = get_elem?-set_self m.hooks i (record k { notifications = m.mock_store }) h in
    ground (arith, e, set_self)

unread_count-mark_all : (l : List Notification) → unread_count (map mark_read l) ≡ 0
unfolding unread_count
unread_count-mark_all [] = refl
unread_count-mark_all (n ∷ l) = unread_count-mark_all l

-- The unread ones with this id.
abbrev pub unread_with : String → List Notification → ℕ
unread_with id l = length (select (λ n. n.id == id && is_unread n) l)

unread_count-mark_one :
    (id : String) (l : List Notification)
    → unread_count (map (mark_if id) l) + unread_with id l ≡ unread_count l
unfolding unread_count mark_if
unread_count-mark_one id [] = refl
unread_count-mark_one id (n ∷ l) = ground (arith, unread_count-mark_one id l)

unread_with-mark_one :
    (id : String) (l : List Notification) → unread_with id (map (mark_if id) l) ≡ 0
unfolding mark_if
unread_with-mark_one id [] = refl
unread_with-mark_one id (n ∷ l) = ground (arith, unread_with-mark_one id l)

-- Everything but `read`.
abbrev pub same_but_read : Notification → Notification
same_but_read n = record n { read = false }

mark_all-same : (l : List Notification) → map same_but_read (map mark_read l) ≡ map same_but_read l
mark_all-same [] = refl
mark_all-same (n ∷ l) = ap (λ (r : List Notification). same_but_read n ∷ r) (mark_all-same l)

mark_one-same :
    (id : String) (l : List Notification)
    → map same_but_read (map (mark_if id) l) ≡ map same_but_read l
unfolding mark_if
mark_one-same id [] = refl
mark_one-same id (n ∷ l) = ground (arith, mark_one-same id l)

-- In the component that marks all notifications as read, none is unread afterwards, and nothing but
-- the marks changes.
pub mark_all_read_lem :
    (i : ℕ) (m : Module)
    → i < length m.hooks
    → (unread_count (shown i (mark_all_read i m)) ≡ 0)
      × (map same_but_read (shown i (mark_all_read i m)) ≡ map same_but_read m.mock_store)
unfolding mark_all_read
mark_all_read_lem i m h =
    rw (shown-show_store i (record m { mock_store = map mark_read m.mock_store }) h)
      (unread_count-mark_all m.mock_store, mark_all-same m.mock_store)

-- Marking one id lowers the unread count by the unread notifications with that id, leaves
-- none of those unread, and changes nothing but the marks.
pub mark_one_read_lem :
    (id : String) (i : ℕ) (m : Module)
    → i < length m.hooks
    → (unread_count (shown i (mark_one_read id i m)) + unread_with id m.mock_store
        ≡ unread_count m.mock_store)
      × (unread_with id (shown i (mark_one_read id i m)) ≡ 0)
      × (map same_but_read (shown i (mark_one_read id i m)) ≡ map same_but_read m.mock_store)
unfolding mark_one_read
mark_one_read_lem id i m h =
    rw (shown-show_store i (record m { mock_store = map (mark_if id) m.mock_store }) h) (
      unread_count-mark_one id m.mock_store,
      unread_with-mark_one id m.mock_store,
      mark_one-same id m.mock_store,
    )
