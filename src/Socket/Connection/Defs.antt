-- ===== src/Socket/Connection/Defs.antt =====
-- The fields and methods of `OmniTunWS` that deal with the connection, and what the browser does.
use omni_tun.Prelude.{
  ℕ, ◌+◌, ◌*◌, ◌^◌, min, Bool, true, false, ◌||◌, ◌≡◌, Option, none, some, List, [], ◌∷◌, leb,
  nat_eq, if◌then◌else◌, String,
}

pub data ConnectionState : Type 0 where
  connecting connected disconnected reconnecting : ConnectionState

-- `readyState` of the browser's socket.
pub data ReadyState : Type 0 where
  opening open_ closing closed : ReadyState

-- `ws`, `timer`, `reconnectAttempts`, `destroyed` and `_state` are fields of the class. `pending` has
-- the timers of the browser that have not fired, with their delays; `notified` has what the state
-- listeners were called with, the latest first.
pub record Connection : Type 0 where
  pub ws : Option ReadyState
  pub reconnect_attempts : ℕ
  pub timer : Option ℕ
  pub destroyed : Bool
  pub state : ConnectionState
  pub notified : List ConnectionState
  pub pending : List (ℕ × ℕ)
  pub next_timer : ℕ

abbrev pub max_reconnect_attempts : ℕ
max_reconnect_attempts = 10

abbrev pub base_delay : ℕ
base_delay = 1000

abbrev pub max_delay : ℕ
max_delay = 30_000

unfoldable pub set_state : ConnectionState → Connection → Connection
set_state st c = record c { state = st; notified = st ∷ c.notified }

unfoldable pub delay_after : ℕ → ℕ
delay_after attempts = min (base_delay * 2 ^ attempts) max_delay

unfoldable pub schedule_reconnect : Connection → Connection
schedule_reconnect c =
    if c.destroyed
    then c
    else if leb max_reconnect_attempts c.reconnect_attempts
    then c
    else record (set_state reconnecting c) {
      reconnect_attempts = c.reconnect_attempts + 1;
      timer = some c.next_timer;
      pending = (c.next_timer, delay_after c.reconnect_attempts) ∷ c.pending;
      next_timer = c.next_timer + 1;
    }

-- `connect`; the argument says whether `new WebSocket(…)` returns, or throws.
unfoldable pub connect : Bool → Connection → Connection
connect constructed c =
    if c.destroyed
    then c
    else if constructed
    then record (set_state connecting c) { ws = some opening }
    else schedule_reconnect (set_state connecting c)

-- `new OmniTunWS(…)`; a field of the class has its value before `connect` runs.
abbrev pub fresh : Connection
fresh = record {
  ws = none;
  reconnect_attempts = 0;
  timer = none;
  destroyed = false;
  state = disconnected;
  notified = [];
  pending = [];
  next_timer = 1;
}

unfoldable pub new_connection : Bool → Connection
new_connection constructed = connect constructed fresh

-- `ws.onopen`, with the socket open.
unfoldable pub on_open : Connection → Connection
on_open c = set_state connected (record c { ws = some open_; reconnect_attempts = 0 })

-- `ws.onclose`, with the socket closed.
unfoldable pub on_close : Connection → Connection
on_close c =
    let c' = record c { ws = some closed } in
    if c.destroyed then c' else schedule_reconnect (set_state disconnected c')

abbrev pub without : ℕ → List (ℕ × ℕ) → List (ℕ × ℕ)
without h [] = []
without h ((k, d) ∷ l) = let rest = without h l in if nat_eq h k then rest else (k, d) ∷ rest

-- The timer `h` fires.
unfoldable pub on_timer : ℕ → Bool → Connection → Connection
on_timer h constructed c = connect constructed (record c { pending = without h c.pending })

-- `if (this.timer) clearTimeout(this.timer)`
abbrev pub cleared : Option ℕ → List (ℕ × ℕ) → List (ℕ × ℕ)
cleared none pending = pending
cleared (some h) pending = without h pending

-- `this.ws?.close()`
abbrev pub shut : Option ReadyState → Option ReadyState
shut none = none
shut (some closed) = some closed
shut (some _) = some closing

unfoldable pub close : Connection → Connection
close c =
    set_state disconnected
      (record c { destroyed = true; pending = cleared c.timer c.pending; ws = shut c.ws })

-- `send`, onto what went out so far, the latest first; `text` is the message as JSON.
unfoldable pub send : String → Connection → List String → List String
send text c wire = elim c.ws [
  | none ↦ wire
  | some ready ↦ elim ready [ open_ ↦ text ∷ wire | _ ↦ wire ]
]

abbrev pub holds : ℕ → List (ℕ × ℕ) → Bool
holds h [] = false
holds h ((k, d) ∷ l) = nat_eq h k || holds h l

-- A socket that the browser may still close.
abbrev pub is_live : Option ReadyState → Bool
is_live none = false
is_live (some closed) = false
is_live (some _) = true

-- The browser starts to close the socket, since the server asks for it or the connection fails; no
-- handler runs before the socket is closed.
abbrev pub on_closing : Connection → Connection
on_closing c = record c { ws = some closing }

-- What can happen next. The browser opens a socket that it is opening, starts to close one that is
-- not closed yet, and closes it, with or without that start; a timer that has not been cleared fires
-- once.
pub data Step : Connection → Connection → Type 0 where
  opens : (c : Connection) → c.ws ≡ some opening → Step c (on_open c)
  starts_closing : (c : Connection) → is_live c.ws ≡ true → Step c (on_closing c)
  closes : (c : Connection) → is_live c.ws ≡ true → Step c (on_close c)
  fires :
      (c : Connection) (h : ℕ) (constructed : Bool)
      → holds h c.pending ≡ true
      → Step c (on_timer h constructed c)
  shuts : (c : Connection) → Step c (close c)

pub data Reach (s : Connection) : Connection → Type 0 where
  here : Reach s s
  next : {t u : Connection} → Reach s t → Step t u → Reach s u
