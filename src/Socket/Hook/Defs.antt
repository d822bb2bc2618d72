-- ===== src/Socket/Hook/Defs.antt =====
-- The effect of the hook, with the clients that it has made.
use omni_tun.Prelude.{
  String, Bool, true, false, ◌≡◌, Option, none, some, List, [], ◌∷◌, ◌++◌, ◌==◌, if◌then◌else◌,
}
use omni_tun.Socket.Connection.{Connection, new_connection, close, send, Step}

-- Whether the timer of the effect is pending; its client, `ws` and `wsRef.current`; and the clients of
-- the effects before it, the latest first.
pub record SocketHook : Type 0 where
  pub is_waiting : Bool
  pub client : Option Connection
  pub past : List Connection

abbrev pub unused_hook : SocketHook
unused_hook = record { is_waiting = false; client = none; past = [] }

-- The effect: without a token, which `getAccessToken` gives, it does nothing.
unfoldable pub run_effect : Option String → SocketHook → SocketHook
run_effect none h = h
run_effect (some token) h = if token == "" then h else record h { is_waiting = true }

-- The timer fires after 500 ms.
unfoldable pub on_delay : Bool → SocketHook → SocketHook
on_delay constructed h = record h { is_waiting = false; client = some (new_connection constructed) }

-- `if (ws) ws.close()`
abbrev pub retire : Option Connection → List Connection → List Connection
retire none past = past
retire (some c) past = close c ∷ past

-- What the effect returns.
unfoldable pub clean_up : SocketHook → SocketHook
clean_up h = record { is_waiting = false; client = none; past = retire h.client h.past }

-- `wsRef.current?.send(data)`
unfoldable pub hook_send : String → SocketHook → List String → List String
hook_send text h wire = elim h.client [ none ↦ wire | some c ↦ send text c wire ]

-- The component is mounted or its URL changes; it is unmounted; the timer fires; and what the browser
-- does to the client or to one that was closed before.
pub data HookStep : SocketHook → SocketHook → Type 0 where
  renders : (h : SocketHook) (token : Option String) → HookStep h (run_effect token (clean_up h))
  unmounts : (h : SocketHook) → HookStep h (clean_up h)
  waits :
      (h : SocketHook) (constructed : Bool)
      → h.is_waiting ≡ true
      → HookStep h (on_delay constructed h)
  client_moves :
      (h : SocketHook) (c d : Connection)
      → h.client ≡ some c
      → Step c d
      → HookStep h (record h { client = some d })
  past_moves :
      (h : SocketHook) (before after : List Connection) (c d : Connection)
      → h.past ≡ before ++ (c ∷ after)
      → Step c d
      → HookStep h (record h { past = before ++ (d ∷ after) })

pub data HookReach (s : SocketHook) : SocketHook → Type 0 where
  unmoved : HookReach s s
  moved : {t u : SocketHook} → HookReach s t → HookStep t u → HookReach s u
