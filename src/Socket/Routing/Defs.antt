-- ===== src/Socket/Routing/Defs.antt =====
-- `handlers` is a map from channels to sets of handlers, in the order in which they were added. A
-- handler is a number; `throws` says whether it throws on a message. Handlers that change the
-- registry while a message is delivered are not modelled.
use omni_tun.Prelude.{
  ℕ, String, Bool, true, false, ◌||◌, none, some, List, [], ◌∷◌, ◌++◌, Dict, get, put, nat_eq, ◌==◌,
  if◌then◌else◌,
}
use omni_tun.Js.{Value, prop, as_string}
use omni_tun.Js.Env.{Js}

abbrev pub Registry : Type 0
Registry = Dict (List ℕ)

abbrev pub member : ℕ → List ℕ → Bool
member h [] = false
member h (k ∷ l) = nat_eq h k || member h l

-- `Set.add`
unfoldable pub insert : ℕ → List ℕ → List ℕ
insert h l = if member h l then l else l ++ h ∷ []

-- `Set.delete`
unfoldable pub delete : ℕ → List ℕ → List ℕ
delete h [] = []
delete h (k ∷ l) = let rest = delete h l in if nat_eq h k then rest else k ∷ rest

-- `handlers.get(channel)`, with no handlers where the channel is missing.
unfoldable pub handlers_of : String → Registry → List ℕ
handlers_of channel r = elim (get channel r) [ none ↦ [] | some l ↦ l ]

unfoldable pub on : String → ℕ → Registry → Registry
on channel h r = elim (get channel r) [
  | none ↦ put channel (insert h []) (put channel [] r)
  | some l ↦ put channel (insert h l) r
]

unfoldable pub off : String → ℕ → Registry → Registry
off channel h r = elim (get channel r) [ none ↦ r | some l ↦ put channel (delete h l) r ]

module _ (js : Js) (throws : ℕ → Value → Bool) where
  -- The handlers that are called, in order, and whether none of them threw.
  unfoldable pub run : Value → List ℕ → List ℕ × Bool
  run msg [] = ([], true)
  run msg (h ∷ l) =
      let rest = run msg l in if throws h msg then (h ∷ [], false) else (h ∷ rest.0, rest.1)

  -- `if (type && this.handlers.has(type))`: only a text can be a key of the map.
  unfoldable pub typed_handlers : Value → Registry → List ℕ
  typed_handlers type r = elim (as_string type) [
    | none ↦ []
    | some channel ↦ if channel == "" then [] else handlers_of channel r
  ]

  -- Both loops; an exception in the first one ends the delivery.
  unfoldable pub route : Value → Value → Registry → List ℕ
  route type msg r =
      let (called, went) = run msg (typed_handlers type r) in
      if went then called ++ (run msg (handlers_of "*" r)).0 else called

  -- `ws.onmessage`: the handlers that the text calls, in order. What does not parse, and `null`, calls
  -- none.
  unfoldable pub on_message : String → Registry → List ℕ
  on_message text r = elim (js.json_parse text) [
    | none ↦ []
    | some msg ↦ elim (prop msg "type") [ none ↦ [] | some type ↦ route type msg r ]
  ]
