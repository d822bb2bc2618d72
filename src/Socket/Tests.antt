-- ===== src/Socket/Tests.antt =====
-- A connection that is lost and closed, and messages to a few handlers.
use omni_tun.Prelude.{
  ℕ, ◌+◌, ◌≤◌, ◌<◌, String, Bool, true, false, ◌≡◌, ◌≢◌, refl, some, List, [], ◌∷◌, get, eq_iff,
  ◌==◌,
}
use omni_tun.Js.{Value, str, prop, own}
use omni_tun.Js.Sample.{sample_js, status_message}
use omni_tun.Socket.Connection.{
  Connection, disconnected, reconnecting, new_connection, on_open, on_close, close, send, Reach,
  here, next, opens, closes, delay_after, connect, set_state, schedule_reconnect,
}
use omni_tun.Socket.Connection.Invariant.{IsSound, IsDead, new_connection-Reach-IsSound}
use omni_tun.Socket.Connection.Closing.{close_final}
use omni_tun.Socket.Connection.GivingUp.{losses, losses_lem}
use omni_tun.Socket.Routing.{Registry, on, handlers_of, on_message}
use omni_tun.Socket.Routing.Subscriptions.{subscribed}
use omni_tun.Socket.Routing.Delivery.{IsTidy, IsTidy-on_off, count, one_if, count-on_message}

-- It opens and is lost.
abbrev lost : Connection
lost = on_close (on_open (new_connection true))

lost-Reach : Reach (new_connection true) lost
unfolding new_connection connect set_state on_open
lost-Reach =
    next (next here (opens (new_connection true) refl))
      (closes (on_open (new_connection true)) refl)

lost_waits : lost.pending ≡ (1, 1000) ∷ []
unfolding new_connection connect set_state on_open on_close schedule_reconnect delay_after
lost_waits = refl

new_connection-Reach-IsSound_example : IsSound lost
new_connection-Reach-IsSound_example = new_connection-Reach-IsSound true lost-Reach

close_final_example :
    ((close lost).state ≡ disconnected)
    × ((close lost).pending ≡ [])
    × IsDead (close lost).ws
    × ((text : String) (wire : List String) → send text (close lost) wire ≡ wire)
close_final_example = close_final true lost-Reach here

losses_lem_example :
    (9 < 10
      → ((losses 9).pending ≡ (9 + 1, delay_after 9) ∷ []) × ((losses 9).state ≡ reconnecting))
    × (10 ≤ 9 → ((losses 9).pending ≡ []) × ((losses 9).state ≡ disconnected))
losses_lem_example = losses_lem 9

-- Handler 1 takes status messages, handler 2 everything.
abbrev subscribers : Registry
subscribers = on "*" 2 (on "tunnel.status" 1 [])

empty-IsTidy : IsTidy []
unfolding handlers_of get
empty-IsTidy channel = tt

subscribers-IsTidy : IsTidy subscribers
subscribers-IsTidy = (IsTidy-on_off "*" 2 _ (IsTidy-on_off "tunnel.status" 1 [] empty-IsTidy).0).0

abbrev quiet : ℕ → Value → Bool
quiet h msg = false

has_type : prop status_message "type" ≡ some (str "tunnel.status")
unfolding prop own
has_type = refl

status-nonempty : (s : String) → (s == "") ≡ false → s ≢ ""
status-nonempty s h e = cc (h, (eq_iff s "").1 e)

count-on_message_example :
    count 2 (on_message sample_js quiet "status" subscribers)
    ≡ one_if (subscribed subscribers "tunnel.status" 2) + one_if (subscribed subscribers "*" 2)
count-on_message_example =
    count-on_message sample_js quiet "status" "tunnel.status" status_message subscribers 2
      subscribers-IsTidy (λ h. refl) refl has_type (status-nonempty "tunnel.status" refl)
