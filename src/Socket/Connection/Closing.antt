-- ===== src/Socket/Connection/Closing.antt =====
-- `close` is final.
use omni_tun.Prelude.{ℕ, String, Bool, true, ◌≡◌, refl, List, [], arith}
use omni_tun.Socket.Connection.Defs.{
  disconnected, Connection, set_state, connect, new_connection, on_open, on_close, on_timer, close,
  send, Step, opens, starts_closing, closes, fires, shuts, Reach, here, next,
}
use omni_tun.Socket.Connection.Invariant.{
  Reach-IsSound, IsDead, new_connection-IsSound, close-IsSound,
}

destroyed-on_timer :
    (h : ℕ) (constructed : Bool) (c : Connection)
    → c.destroyed ≡ true
    → (on_timer h constructed c).destroyed ≡ true
unfolding on_timer connect
destroyed-on_timer h constructed c e = ground arith

Step-destroyed : {c d : Connection} → Step c d → c.destroyed ≡ true → d.destroyed ≡ true
unfolding on_open on_close close set_state
Step-destroyed (opens c w) e = e
Step-destroyed (starts_closing c w) e = e
Step-destroyed (closes c w) e = ground arith
Step-destroyed (fires c h constructed p) e = destroyed-on_timer h constructed c e
Step-destroyed (shuts c) e = refl

Reach-destroyed : {c d : Connection} → c.destroyed ≡ true → Reach c d → d.destroyed ≡ true
Reach-destroyed e here = e
Reach-destroyed e (next r st) = Step-destroyed st (Reach-destroyed e r)

destroyed-close : (c : Connection) → (close c).destroyed ≡ true
unfolding close set_state
destroyed-close c = refl

send_of_IsDead :
    (c : Connection) → IsDead c.ws → (text : String) (wire : List String) → send text c wire ≡ wire
unfolding send
send_of_IsDead c d text wire = ground arith

-- Once `close` has been called, whatever happens later: the state is "disconnected", no reconnect is
-- pending, there is no socket that opens or is open, and `send` sends nothing.
pub close_final :
    (constructed : Bool) {c d : Connection}
    → Reach (new_connection constructed) c
    → Reach (close c) d
    → (d.state ≡ disconnected)
      × (d.pending ≡ [])
      × IsDead d.ws
      × ((text : String) (wire : List String) → send text d wire ≡ wire)
close_final constructed {c} {d} before after =
    let sound = Reach-IsSound (new_connection-IsSound constructed) before in
    let (state, pending, dead) =
      (Reach-IsSound (close-IsSound c sound) after).shut_down
        (Reach-destroyed (destroyed-close c) after) in
    (state, pending, dead, send_of_IsDead d dead)
