-- ===== src/Socket/Hook/Tests.antt =====
-- A run of the hook: a client is made, and the URL changes.
use omni_tun.Prelude.{true, false, ◌≡◌, refl, none, some, [], ◌∷◌, All}
use omni_tun.Socket.Connection.{new_connection, close}
use omni_tun.Socket.Hook.Defs.{
  SocketHook, unused_hook, run_effect, on_delay, clean_up, HookReach, unmoved, moved, renders,
  waits,
}
use omni_tun.Socket.Hook.Clients.{IsSilent, past_clients_lem}

abbrev waiting : SocketHook
waiting = record { is_waiting = true; client = none; past = [] }

abbrev living : SocketHook
living = record { is_waiting = false; client = some (new_connection true); past = [] }

abbrev renewed : SocketHook
renewed = record { is_waiting = true; client = none; past = close (new_connection true) ∷ [] }

renewed-HookReach : HookReach unused_hook renewed
unfolding run_effect on_delay clean_up
renewed-HookReach =
    moved (moved (moved unmoved (renders unused_hook (some "token"))) (waits waiting true refl))
      (renders living (some "token"))

past_clients_lem_example :
    All IsSilent renewed.past × (renewed.is_waiting ≡ true → renewed.client ≡ none)
past_clients_lem_example = past_clients_lem renewed-HookReach
