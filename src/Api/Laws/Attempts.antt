-- ===== src/Api/Laws/Attempts.antt =====
-- How many requests one call makes, what the second attempt carries, and what the result stands on.
use omni_tun.Prelude.{
  suc, ◌+◌, ◌≤◌, ◌<◌, String, false, ◌≡◌, refl, Option, none, some, List, ◌∷◌, arith, length,
}
use omni_tun.Js.{Value, truthy}
use omni_tun.Js.Env.{Js}
use omni_tun.Api.{
  Request, Options, Response, Reply, rejected, response, World, App, set_token, clear_token, fetch,
  keep_refresh, take_tokens, after_refresh, do_refresh, load_token, headers_for, request_for,
  settle, retry, on_response, request,
}

module _ (js : Js) (app : App) (net : List Request → Request → Reply) where
  pub sent-keep_refresh :
      (refresh : Option Value) (w : World) → (keep_refresh js app net refresh w).sent ≡ w.sent
  unfolding keep_refresh
  sent-keep_refresh none w = refl
  sent-keep_refresh (some refresh) w = ground arith

  sent-take_tokens :
      (payload : Value) (w : World) → (take_tokens js app net payload w).1.sent ≡ w.sent
  unfolding take_tokens set_token clear_token
  sent-take_tokens payload w = grind (arith, sent-keep_refresh)

  sent-after_refresh :
      (reply : Reply) (w : World) → (after_refresh js app net reply w).1.sent ≡ w.sent
  unfolding after_refresh clear_token
  sent-after_refresh (rejected message) w = refl
  sent-after_refresh (response res) w = grind (arith, sent-take_tokens)

  pub sent-load_token : (w : World) → (load_token js app net w).sent ≡ w.sent
  unfolding load_token
  sent-load_token w = ground arith

  length-do_refresh-le :
      (w : World)
      → (length w.sent ≤ length (do_refresh js app net w).1.sent)
        × (length (do_refresh js app net w).1.sent ≤ suc (length w.sent))
  unfolding do_refresh fetch
  length-do_refresh-le w = grind (arith, sent-after_refresh)

  length-on_response-le :
      (req : Request) (res : Response) (w : World)
      → (length w.sent ≤ length (on_response js app net req res w).1.sent)
        × (length (on_response js app net req res w).1.sent ≤ suc (suc (length w.sent)))
  unfolding on_response retry fetch
  length-on_response-le req res w = grind (arith, length-do_refresh-le)

  -- One call sends at least one request and at most three: the request, one refresh, one repetition.
  pub request_bounded :
      (path : String) (options : Options) (w : World)
      → (length w.sent < length (request js app net path options w).1.sent)
        × (length (request js app net path options w).1.sent ≤ length w.sent + 3)
  unfolding request fetch
  request_bounded path options w = grind (arith, length-on_response-le, sent-load_token)

  -- The first request of a call.
  abbrev pub first_request : String → Options → World → Request
  first_request path options w =
      request_for js app net path options
        (headers_for js app net (load_token js app net w).token options.headers)

  -- Without a token there is one request and no refresh, whatever the answer is.
  pub request_anonymous :
      (path : String) (options : Options) (w : World)
      → truthy (load_token js app net w).token ≡ false
      → (request js app net path options w).0
          ≡ settle js app net (net w.sent (first_request path options w))
        × ((request js app net path options w).1.sent ≡ first_request path options w ∷ w.sent)
  unfolding request fetch on_response settle
  request_anonymous path options w h = grind (arith, sent-load_token)
