-- ===== src/Socket/Connection/GivingUp.antt =====
-- Runs in which every attempt fails.
use omni_tun.Prelude.{
  ℕ, zero, suc, ◌+◌, ◌-◌, ◌≤◌, ◌<◌, true, false, ◌≡◌, refl, some, [], ◌∷◌, arith, ◌∙◌,
}
use omni_tun.Socket.Connection.Defs.{
  ConnectionState, connecting, disconnected, reconnecting, closed, Connection,
  max_reconnect_attempts, set_state, delay_after, schedule_reconnect, connect, new_connection,
  on_close, on_timer,
}

-- The timer of the last reconnect fires, if it is still there, and `attempt` follows.
with_timer : (ℕ → Connection → Connection) → Connection → Connection
with_timer attempt c = elim c.pending [ [] ↦ c | t ∷ l ↦ attempt t.0 c ]

-- The constructor returns, and the socket closes without having opened.
pub lose : Connection → Connection
unfolding with_timer
lose = with_timer (λ h c. on_close (on_timer h true c))

-- `n` reconnects after a first connection that was lost, none of which opens.
pub losses : ℕ → Connection
losses zero = on_close (new_connection true)
losses (suc n) = lose (losses n)

-- The constructor throws.
pub refuse : Connection → Connection
unfolding with_timer
refuse = with_timer (λ h c. on_timer h false c)

-- `n` reconnects after a first constructor that threw, in each of which it throws again.
pub refusals : ℕ → Connection
refusals zero = new_connection false
refusals (suc n) = refuse (refusals n)

-- The reconnect number `n`, from 0, is pending.
record IsWaiting (n : ℕ) (c : Connection) : Type 0 where
  attempts : c.reconnect_attempts ≡ suc n
  kept : c.destroyed ≡ false
  handle : c.next_timer ≡ n + 2
  waits : c.pending ≡ (n + 1, delay_after n) ∷ []
  shown : c.state ≡ reconnecting

-- None is, and `shown` is what the listeners were told last.
record IsGivenUp (st : ConnectionState) (c : Connection) : Type 0 where
  none_pending : c.pending ≡ []
  shown : c.state ≡ st

-- What a failed attempt schedules.
schedule_reconnect-IsWaiting :
    (n : ℕ) (c : Connection)
    → n < max_reconnect_attempts
    → c.reconnect_attempts ≡ n
    → c.destroyed ≡ false
    → c.next_timer ≡ n + 1
    → c.pending ≡ []
    → IsWaiting n (schedule_reconnect c)
unfolding schedule_reconnect set_state
schedule_reconnect-IsWaiting n c b a k h p = ground arith

schedule_reconnect-IsGivenUp :
    (c : Connection)
    → c.reconnect_attempts ≡ max_reconnect_attempts
    → c.pending ≡ []
    → IsGivenUp c.state (schedule_reconnect c)
unfolding schedule_reconnect
schedule_reconnect-IsGivenUp c a p = ground arith

-- What a lost reconnect comes to.
abbrev lost : Connection → Connection
lost c =
    set_state disconnected
      (record (set_state connecting (record c { pending = [] })) { ws = some closed })

lose-pending :
    (c : Connection) (h d : ℕ)
    → c.pending ≡ (h, d) ∷ []
    → c.destroyed ≡ false
    → lose c ≡ schedule_reconnect (lost c)
unfolding lose on_timer on_close connect set_state
lose-pending c h d p k = ground arith

refuse-pending :
    (c : Connection) (h d : ℕ)
    → c.pending ≡ (h, d) ∷ []
    → c.destroyed ≡ false
    → refuse c ≡ schedule_reconnect (set_state connecting (record c { pending = [] }))
unfolding refuse on_timer connect set_state
refuse-pending c h d p k = ground arith

module _ (n : ℕ) (c : Connection) (w : IsWaiting n c) where
  lose-IsWaiting : suc n < max_reconnect_attempts → IsWaiting (suc n) (lose c)
  unfolding set_state
  lose-IsWaiting b = rw (lose-pending c _ _ w.waits w.kept) (
      schedule_reconnect-IsWaiting (suc n) (lost c) b w.attempts w.kept (w.handle ∙ omega arith)
        refl)

  lose-IsGivenUp : suc n ≡ max_reconnect_attempts → IsGivenUp disconnected (lose c)
  unfolding set_state
  lose-IsGivenUp b =
      rw (lose-pending c _ _ w.waits w.kept)
        (schedule_reconnect-IsGivenUp (lost c) (w.attempts ∙ b) refl)

  refuse-IsWaiting : suc n < max_reconnect_attempts → IsWaiting (suc n) (refuse c)
  unfolding set_state
  refuse-IsWaiting b =
      rw (refuse-pending c _ _ w.waits w.kept)
        (schedule_reconnect-IsWaiting (suc n) _ b w.attempts w.kept (w.handle ∙ omega arith) refl)

  refuse-IsGivenUp : suc n ≡ max_reconnect_attempts → IsGivenUp connecting (refuse c)
  unfolding set_state
  refuse-IsGivenUp b =
      rw (refuse-pending c _ _ w.waits w.kept)
        (schedule_reconnect-IsGivenUp _ (w.attempts ∙ b) refl)

lose_of_IsGivenUp : {st : ConnectionState} (c : Connection) → IsGivenUp st c → lose c ≡ c
unfolding lose
lose_of_IsGivenUp c g = ground arith

refuse_of_IsGivenUp : {st : ConnectionState} (c : Connection) → IsGivenUp st c → refuse c ≡ c
unfolding refuse
refuse_of_IsGivenUp c g = ground arith

losses-IsWaiting : (n : ℕ) → n < max_reconnect_attempts → IsWaiting n (losses n)
unfolding losses new_connection connect on_close set_state
losses-IsWaiting zero b = schedule_reconnect-IsWaiting 0 _ b refl refl refl refl
losses-IsWaiting (suc n) b = lose-IsWaiting n (losses n) (losses-IsWaiting n (omega arith)) b

refusals-IsWaiting : (n : ℕ) → n < max_reconnect_attempts → IsWaiting n (refusals n)
unfolding refusals new_connection connect set_state
refusals-IsWaiting zero b = schedule_reconnect-IsWaiting 0 _ b refl refl refl refl
refusals-IsWaiting (suc n) b =
    refuse-IsWaiting n (refusals n) (refusals-IsWaiting n (omega arith)) b

losses-IsGivenUp : (n : ℕ) → IsGivenUp disconnected (losses (n + 10))
unfolding losses
losses-IsGivenUp zero = lose-IsGivenUp 9 (losses 9) (losses-IsWaiting 9 (omega arith)) refl
losses-IsGivenUp (suc n) =
    let e : suc n + 10 ≡ suc (n + 10) = omega arith in
    rw (e, losses, lose_of_IsGivenUp _ (losses-IsGivenUp n)) (losses-IsGivenUp n)

refusals-IsGivenUp : (n : ℕ) → IsGivenUp connecting (refusals (n + 10))
unfolding refusals
refusals-IsGivenUp zero = refuse-IsGivenUp 9 (refusals 9) (refusals-IsWaiting 9 (omega arith)) refl
refusals-IsGivenUp (suc n) =
    let e : suc n + 10 ≡ suc (n + 10) = omega arith in
    rw (e, refusals, refuse_of_IsGivenUp _ (refusals-IsGivenUp n)) (refusals-IsGivenUp n)

-- When no connection ever opens, exactly ten reconnects are scheduled, the one after `n` others with
-- the delay that the backoff gives; then none is pending, and "disconnected" is shown for good.
pub losses_lem :
    (n : ℕ)
    → (n < 10
        → ((losses n).pending ≡ (n + 1, delay_after n) ∷ []) × ((losses n).state ≡ reconnecting))
      × (10 ≤ n → ((losses n).pending ≡ []) × ((losses n).state ≡ disconnected))
losses_lem n = (
  λ b. let w = losses-IsWaiting n b in (w.waits, w.shown),
  λ b.
      let e : n ≡ n - 10 + 10 = omega arith in
      let g = losses-IsGivenUp (n - 10) in rw e (g.none_pending, g.shown),
)

-- When the constructor of the socket throws each time, ten reconnects are scheduled as well; then none
-- is pending, and yet "connecting" is shown for good.
pub refusals_lem :
    (n : ℕ)
    → (n < 10
        → ((refusals n).pending ≡ (n + 1, delay_after n) ∷ [])
          × ((refusals n).state ≡ reconnecting))
      × (10 ≤ n → ((refusals n).pending ≡ []) × ((refusals n).state ≡ connecting))
refusals_lem n = (
  λ b. let w = refusals-IsWaiting n b in (w.waits, w.shown),
  λ b.
      let e : n ≡ n - 10 + 10 = omega arith in
      let g = refusals-IsGivenUp (n - 10) in rw e (g.none_pending, g.shown),
)
