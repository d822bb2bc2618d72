-- ===== src/Socket/Hook/Clients.antt =====
-- At most one client is alive.
use omni_tun.Prelude.{
  String, Bool, true, ◌≡◌, refl, subst, Option, none, some, List, [], ◌∷◌, ◌++◌, ◌==◌, All,
  Bool-cases, inl, inr,
}
use omni_tun.Socket.Connection.{Connection, disconnected, new_connection, close, Reach, here, next}
use omni_tun.Socket.Connection.Invariant.{IsDead}
use omni_tun.Socket.Connection.Closing.{close_final}
use omni_tun.Socket.Hook.Defs.{
  SocketHook, unused_hook, run_effect, on_delay, retire, clean_up, HookStep, renders, unmounts,
  waits, client_moves, past_moves, HookReach, unmoved, moved,
}

-- A client that was made, and may have moved since.
abbrev IsMade : Connection → Type 0
IsMade c = (constructed : Bool) × Reach (new_connection constructed) c

-- A client that was closed, and may have moved since.
abbrev IsRetired : Connection → Type 0
IsRetired d =
    (constructed : Bool) × (c : Connection) × Reach (new_connection constructed) c
    × Reach (close c) d

abbrev IsMadeIfAny : Option Connection → Type 0
IsMadeIfAny none = Unit
IsMadeIfAny (some c) = IsMade c

record IsKept (h : SocketHook) : Type 0 where
  client_made : IsMadeIfAny h.client
  alone : h.is_waiting ≡ true → h.client ≡ none
  past_retired : All IsRetired h.past

retire-IsRetired :
    (o : Option Connection) (past : List Connection)
    → IsMadeIfAny o
    → All IsRetired past
    → All IsRetired (retire o past)
retire-IsRetired none past made h = h
retire-IsRetired (some c) past made h =
    let (constructed, r) = made in ((constructed, c, r, here), h)

clean_up-IsKept : (h : SocketHook) → IsKept h → IsKept (clean_up h)
unfolding clean_up
clean_up-IsKept h k = record {
  client_made = tt;
  alone = λ e. refl;
  past_retired = retire-IsRetired h.client h.past k.client_made k.past_retired;
}

All-middle :
    (before after : List Connection) (c d : Connection)
    → (IsRetired c → IsRetired d)
    → All IsRetired (before ++ (c ∷ after))
    → All IsRetired (before ++ (d ∷ after))
All-middle [] after c d f (h, hs) = (f h, hs)
All-middle (x ∷ before) after c d f (h, hs) = (h, All-middle before after c d f hs)

run_effect-IsKept :
    (token : Option String) (h : SocketHook)
    → h.client ≡ none
    → IsKept h
    → IsKept (run_effect token h)
unfolding run_effect
run_effect-IsKept none h e k = k
run_effect-IsKept (some token) h e k = elim (Bool-cases (token == "")) [
  | inl absent ↦ rw absent k
  | inr given ↦
      rw given
        (record { client_made = k.client_made; alone = λ w. e; past_retired = k.past_retired })
]

HookStep-IsKept : {h g : SocketHook} → HookStep h g → IsKept h → IsKept g
unfolding on_delay clean_up
HookStep-IsKept (renders h token) k =
    run_effect-IsKept token (clean_up h) refl (clean_up-IsKept h k)
HookStep-IsKept (unmounts h) k = clean_up-IsKept h k
HookStep-IsKept (waits h constructed w) k = record {
  client_made = (constructed, here);
  alone = λ e. cc;
  past_retired = k.past_retired;
}
HookStep-IsKept (client_moves h c d e st) k = record {
  client_made =
      (let (constructed, r) = subst IsMadeIfAny e k.client_made in (constructed, next r st));
  alone = λ w. (let f = k.alone w in cc);
  past_retired = k.past_retired;
}
HookStep-IsKept (past_moves h before after c d e st) k = record {
  client_made = k.client_made;
  alone = k.alone;
  past_retired =
      All-middle before after c d (λ (constructed, x, r, s). (constructed, x, r, next s st))
        (rw e at k.past_retired);
}

-- The client does nothing any more: it shows "disconnected", no reconnect of it is pending, it has no
-- socket that opens or is open.
abbrev pub IsSilent : Connection → Type 0
IsSilent d = (d.state ≡ disconnected) × (d.pending ≡ []) × IsDead d.ws

past-IsSilent : (past : List Connection) → All IsRetired past → All IsSilent past
past-IsSilent [] h = tt
past-IsSilent (d ∷ past) ((constructed, c, before, after), h) =
    let (state, pending, dead, quiet) = close_final constructed before after in
    ((state, pending, dead), past-IsSilent past h)

HookReach-IsKept : {h g : SocketHook} → IsKept h → HookReach h g → IsKept g
HookReach-IsKept k unmoved = k
HookReach-IsKept k (moved r st) = HookStep-IsKept st (HookReach-IsKept k r)

-- However often the component is mounted, unmounted or gets another URL, and whatever the browser does:
-- every client but the one of the present effect does nothing any more, and while the timer of the effect
-- is pending there is none.
pub past_clients_lem :
    {h : SocketHook}
    → HookReach unused_hook h
    → All IsSilent h.past × (h.is_waiting ≡ true → h.client ≡ none)
past_clients_lem {h} r =
    let first : IsKept unused_hook = record {
      client_made = tt;
      alone = λ e. cc;
      past_retired = tt;
    } in
    let k = HookReach-IsKept first r in (past-IsSilent h.past k.past_retired, k.alone)
