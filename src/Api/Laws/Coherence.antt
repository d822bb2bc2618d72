-- ===== src/Api/Laws/Coherence.antt =====
-- The token in memory and the token in the storage stay the same one.
use omni_tun.Prelude.{
  String, true, ◌≡◌, ◌≢◌, refl, sym, ◌∙◌, Option, none, some, List, get, get-put_self, get-put_ne,
  get-remove_self, arith,
}
use omni_tun.Js.{Value, undefined, null, truthy}
use omni_tun.Js.Env.{Js, text_of}
use omni_tun.Token.{get_access_token, get_refresh_token}
use omni_tun.Api.{
  Request, Options, Response, Reply, rejected, response, World, App, new_client, set_token,
  clear_token, fetch, keep_refresh, take_tokens, after_refresh, do_refresh, load_token, retry,
  on_response, request,
}

-- The text under which `localStorage` holds a token, if there is one.
abbrev pub stored_text : Js → Value → Option String
stored_text js undefined = none
stored_text js null = none
stored_text js v = some (text_of js v)

pub stored_text_of_truthy :
    (js : Js) (v : Value) → truthy v ≡ true → stored_text js v ≡ some (text_of js v)
unfolding truthy
stored_text_of_truthy js undefined h = cc
stored_text_of_truthy js null h = cc
stored_text_of_truthy js _ h = refl

module _ (js : Js) (app : App) (net : List Request → Request → Reply) where
  abbrev pub IsCoherent : World → Type 0
  IsCoherent w = get app.keys.access w.storage ≡ stored_text js w.token

  pub new_client-IsCoherent : (st : omni_tun.Token.Storage) → IsCoherent (new_client js app net st)
  unfolding new_client get_access_token
  new_client-IsCoherent st = ground arith

  pub set_token-IsCoherent :
      (v : Value) (w : World)
      → stored_text js v ≡ some (text_of js v)
      → IsCoherent (set_token js app net v w)
  unfolding set_token
  set_token-IsCoherent v w h = get-put_self app.keys.access (text_of js v) w.storage ∙ sym h

  pub clear_token-IsCoherent : (w : World) → IsCoherent (clear_token js app net w)
  unfolding clear_token
  clear_token-IsCoherent w = get-remove_self app.keys.access w.storage

  load_token-IsCoherent : (w : World) → IsCoherent w → IsCoherent (load_token js app net w)
  unfolding load_token get_access_token
  load_token-IsCoherent w h = ground arith

  module _ (distinct : app.keys.refresh ≢ app.keys.access) where
    keep_refresh-IsCoherent :
        (refresh : Option Value) (w : World)
        → IsCoherent w
        → IsCoherent (keep_refresh js app net refresh w)
    unfolding keep_refresh
    keep_refresh-IsCoherent none w h = h
    keep_refresh-IsCoherent (some refresh) w h = ground (
      arith,
      get-put_ne {k = app.keys.refresh} {j = app.keys.access} (text_of js refresh) w.storage
          distinct,
    )

    take_tokens-IsCoherent :
        (payload : Value) (w : World)
        → IsCoherent w
        → IsCoherent (take_tokens js app net payload w).1
    unfolding take_tokens
    take_tokens-IsCoherent payload w h = grind (
      arith, clear_token-IsCoherent, keep_refresh-IsCoherent, set_token-IsCoherent,
      stored_text_of_truthy,
    )

    after_refresh-IsCoherent :
        (reply : Reply) (w : World) → IsCoherent w → IsCoherent (after_refresh js app net reply w).1
    unfolding after_refresh
    after_refresh-IsCoherent (rejected message) w h = clear_token-IsCoherent w
    after_refresh-IsCoherent (response res) w h =
        grind (arith, clear_token-IsCoherent, take_tokens-IsCoherent)

    pub do_refresh-IsCoherent : (w : World) → IsCoherent w → IsCoherent (do_refresh js app net w).1
    unfolding do_refresh fetch
    do_refresh-IsCoherent w h = grind (arith, after_refresh-IsCoherent)

    retry-IsCoherent :
        (req : Request) (token : Value) (w : World)
        → IsCoherent w
        → IsCoherent (retry js app net req token w).1
    unfolding retry fetch
    retry-IsCoherent req token w h = h

    on_response-IsCoherent :
        (req : Request) (res : Response) (w : World)
        → IsCoherent w
        → IsCoherent (on_response js app net req res w).1
    unfolding on_response
    on_response-IsCoherent req res w h = grind (arith, do_refresh-IsCoherent, retry-IsCoherent)

    -- Whatever the server answers to a request and to the refresh within it, the storage holds the
    -- access token of the client afterwards if it did before.
    pub request-IsCoherent :
        (path : String) (options : Options) (w : World)
        → IsCoherent w
        → IsCoherent (request js app net path options w).1
    unfolding request fetch
    request-IsCoherent path options w h =
        grind (arith, load_token-IsCoherent, on_response-IsCoherent)
