-- ===== src/Socket/Connection/Invariant.antt =====
-- What holds of the connection in every state that it can reach.
use omni_tun.Prelude.{
  ℕ, ◌≤◌, Bool, true, false, ◌≡◌, ◌≢◌, refl, ◌⊎◌, Option, none, some, List, [], ◌∷◌, length, arith,
}
use omni_tun.Socket.Connection.Defs.{
  connecting, connected, disconnected, reconnecting, ReadyState, opening, open_, closing, closed,
  Connection, max_reconnect_attempts, base_delay, max_delay, set_state, schedule_reconnect, connect,
  fresh, new_connection, on_open, on_close, without, on_timer, cleared, close, holds, is_live, Step,
  on_closing, opens, starts_closing, closes, fires, shuts, Reach, here, next,
}
use omni_tun.Socket.Connection.Delays.{delay_after_bounds}

-- A reconnect is pending only while no socket is live and the client is not closed; then the state
-- says so, `timer` is its handle, and its delay is one that the backoff gives.
abbrev pub Waits : List (ℕ × ℕ) → Connection → Type 0
Waits [] c = Unit
Waits ((h, d) ∷ []) c =
    (c.timer ≡ some h)
    × (c.state ≡ reconnecting)
    × (is_live c.ws ≡ false)
    × (c.destroyed ≡ false)
    × (base_delay ≤ d)
    × (d ≤ max_delay)
Waits (t ∷ u ∷ l) c = ⊥

abbrev pub IsDead : Option ReadyState → Type 0
IsDead none = Unit
IsDead (some closing) = Unit
IsDead (some closed) = Unit
IsDead (some _) = ⊥

pub record IsSound (c : Connection) : Type 0 where
  pub attempts_le : c.reconnect_attempts ≤ max_reconnect_attempts
  pub waits : Waits c.pending c
  pub shut_down : c.destroyed ≡ true → (c.state ≡ disconnected) × (c.pending ≡ []) × IsDead c.ws
  pub open_if_connected : c.state ≡ connected → (c.ws ≡ some open_) ⊎ (c.ws ≡ some closing)
  pub goes_on :
      c.destroyed ≡ false
      → (is_live c.ws ≡ true)
        ⊎ (length c.pending ≡ 1)
        ⊎ (c.reconnect_attempts ≡ max_reconnect_attempts)

-- With no timer pending and no live socket, a reconnect is scheduled or the attempts are used up.
schedule_reconnect-IsSound :
    (c : Connection)
    → c.reconnect_attempts ≤ max_reconnect_attempts
    → c.pending ≡ []
    → is_live c.ws ≡ false
    → c.destroyed ≡ false
    → c.state ≢ connected
    → IsSound (schedule_reconnect c)
unfolding schedule_reconnect set_state
schedule_reconnect-IsSound c a p l d s = ground (arith, delay_after_bounds c.reconnect_attempts)

connect-IsSound :
    (constructed : Bool) (c : Connection)
    → c.reconnect_attempts ≤ max_reconnect_attempts
    → c.pending ≡ []
    → is_live c.ws ≡ false
    → c.destroyed ≡ false
    → IsSound (connect constructed c)
unfolding connect set_state
connect-IsSound true c a p l d = ground arith
connect-IsSound false c a p l d =
    grind (arith, schedule_reconnect-IsSound (set_state connecting c) a p l d)

-- While a socket is live, or once the client is closed, no timer is pending.
pending_none : (l : List (ℕ × ℕ)) (c : Connection) → Waits l c → is_live c.ws ≡ true → l ≡ []
pending_none [] c w h = refl
pending_none ((k, d) ∷ []) c w h = ground arith
pending_none (t ∷ u ∷ l) c w h = absurd w

-- A timer that can fire is the only one.
pending_single :
    (l : List (ℕ × ℕ)) (c : Connection) (h : ℕ)
    → Waits l c
    → holds h l ≡ true
    → (without h l ≡ []) × (is_live c.ws ≡ false) × (c.destroyed ≡ false)
pending_single [] c h w e = cc
pending_single ((k, d) ∷ []) c h w e = ground arith
pending_single (t ∷ u ∷ l) c h w e = absurd w

pending_cleared : (l : List (ℕ × ℕ)) (c : Connection) → Waits l c → cleared c.timer l ≡ []
pending_cleared [] c w = ground arith
pending_cleared ((k, d) ∷ []) c w = ground arith
pending_cleared (t ∷ u ∷ l) c w = absurd w

on_open-IsSound : (c : Connection) → c.ws ≡ some opening → IsSound c → IsSound (on_open c)
unfolding on_open set_state
on_open-IsSound c w h = ground (arith, pending_none c.pending c h.waits)

on_closing-IsSound : (c : Connection) → is_live c.ws ≡ true → IsSound c → IsSound (on_closing c)
on_closing-IsSound c w h = ground (arith, pending_none c.pending c h.waits w)

on_close-IsSound : (c : Connection) → is_live c.ws ≡ true → IsSound c → IsSound (on_close c)
unfolding on_close set_state
on_close-IsSound c w h =
    let p = pending_none c.pending c h.waits w in
    let c' = set_state disconnected (record c { ws = some closed }) in
    grind (arith, p, schedule_reconnect-IsSound c' h.attempts_le p refl)

on_timer-IsSound :
    (h : ℕ) (constructed : Bool) (c : Connection)
    → holds h c.pending ≡ true
    → IsSound c
    → IsSound (on_timer h constructed c)
unfolding on_timer
on_timer-IsSound h constructed c e s =
    let (rest, dead, kept) = pending_single c.pending c h s.waits e in
    connect-IsSound constructed _ s.attempts_le rest dead kept

pub close-IsSound : (c : Connection) → IsSound c → IsSound (close c)
unfolding close set_state
close-IsSound c h =
    let gone = pending_cleared c.pending c h.waits in
    record {
      attempts_le = h.attempts_le;
      waits = rw gone tt;
      shut_down = λ _. (refl, gone, ground arith);
      open_if_connected = λ e. cc e;
      goes_on = λ e. cc e;
    }

Step-IsSound : {c d : Connection} → Step c d → IsSound c → IsSound d
Step-IsSound (opens c w) h = on_open-IsSound c w h
Step-IsSound (starts_closing c w) h = on_closing-IsSound c w h
Step-IsSound (closes c w) h = on_close-IsSound c w h
Step-IsSound (fires c t constructed e) h = on_timer-IsSound t constructed c e h
Step-IsSound (shuts c) h = close-IsSound c h

pub Reach-IsSound : {c d : Connection} → IsSound c → Reach c d → IsSound d
Reach-IsSound h here = h
Reach-IsSound h (next r st) = Step-IsSound st (Reach-IsSound h r)

pub new_connection-IsSound : (constructed : Bool) → IsSound (new_connection constructed)
unfolding new_connection
new_connection-IsSound constructed = connect-IsSound constructed fresh (omega arith) refl refl refl

-- However sockets open, start to close and close, timers fire, and whenever the client is closed: at most ten
-- reconnects are counted; at most one timer is pending, never beside a live socket, with a delay of
-- one to thirty seconds; "connected" is shown only while the socket is open, or is being closed with
-- its close event still to come; and until it is closed the client has a live socket, a pending
-- reconnect, or no attempts left.
pub new_connection-Reach-IsSound :
    (constructed : Bool) {c : Connection} → Reach (new_connection constructed) c → IsSound c
new_connection-Reach-IsSound constructed r = Reach-IsSound (new_connection-IsSound constructed) r
