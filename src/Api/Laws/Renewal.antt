-- ===== src/Api/Laws/Renewal.antt =====
-- What a call does when the server answers 401 to a request that carried a token.
use omni_tun.Prelude.{
  String, true, false, ◌≡◌, ◌≢◌, refl, ap, ◌∙◌, Option, none, some, List, ◌∷◌, get, put,
  get-remove_self, get-remove_ne, arith, ◌⊎◌, ne→eq_false,
}
use omni_tun.Js.{Value, null, str, prop, truthy, coalesce}
use omni_tun.Js.Env.{Js}
use omni_tun.Token.{get_refresh_token}
use omni_tun.Api.{
  Request, Options, Response, Reply, rejected, response, parsed, unreadable, World, App, bearer, ok,
  throw, api_error, error_of, set_token, clear_token, fetch, keep_refresh, take_tokens,
  after_refresh, do_refresh, load_token, refresh_request, settle, finish, retry, on_response,
  request, is_ok,
}
use omni_tun.Api.Laws.Attempts.{first_request, sent-load_token, sent-keep_refresh}

module _ (js : Js) (app : App) (net : List Request → Request → Reply) where
  -- The server answers 401 to the first request of a call that carries a token.
  pub record IsUnauthorized (path : String) (options : Options) (w : World) : Type 0 where
    pub res : Response
    pub holds_token : truthy (load_token js app net w).token ≡ true
    pub answered : net w.sent (first_request js app net path options w) ≡ response res
    pub unauthorized : res.status ≡ 401

  -- The refresh of a call with the stored refresh token `refresh` gets the reply `reply`.
  pub record Refreshes (path : String) (options : Options) (w : World) (reply : Reply)
      : Type 0 where
    pub refresh : String
    pub stored : get_refresh_token app.keys (load_token js app net w).storage ≡ some refresh
    pub nonempty : refresh ≢ ""
    pub replied :
        net (first_request js app net path options w ∷ w.sent) (refresh_request js app net refresh)
        ≡ reply

  -- The reply to a refresh that gives a new access token.
  pub record Grants (access : String) (reply : Reply) : Type 0 where
    pub res : Response
    pub payload : Value
    pub is_response : reply ≡ response res
    pub succeeded : is_ok res ≡ true
    pub body : res.body ≡ parsed payload
    pub access_token : prop payload "access_token" ≡ some (str access)
    pub nonempty : access ≢ ""

  str-truthy : (s : String) → s ≢ "" → truthy (str s) ≡ true
  unfolding truthy
  str-truthy s h = rw (ne→eq_false s "" h)

  token-keep_refresh :
      (r : Option Value) (w : World) → (keep_refresh js app net r w).token ≡ w.token
  unfolding keep_refresh
  token-keep_refresh none w = refl
  token-keep_refresh (some r) w = ground arith

  after_refresh-Grants :
      {access : String} {reply : Reply} (w : World)
      → Grants access reply
      → ((after_refresh js app net reply w).0 ≡ str access)
        × ((after_refresh js app net reply w).1.token ≡ str access)
        × ((after_refresh js app net reply w).1.sent ≡ w.sent)
  unfolding after_refresh take_tokens set_token coalesce
  after_refresh-Grants {access} w g = grind (
    arith,
    g.is_response,
    g.succeeded,
    g.body,
    g.access_token,
    str-truthy access g.nonempty,
    token-keep_refresh,
    sent-keep_refresh js app net,
  )

  -- The second attempt at a request.
  abbrev pub with_token : Value → Request → Request
  with_token token req = record req { headers = put "Authorization" (bearer js token) req.headers }

  do_refresh-stored :
      (refresh : String) (w : World)
      → get_refresh_token app.keys w.storage ≡ some refresh
      → refresh ≢ ""
      → do_refresh js app net w
        ≡ after_refresh js app net
            (net w.sent (refresh_request js app net refresh))
            (record w { sent = refresh_request js app net refresh ∷ w.sent })
  unfolding do_refresh fetch
  do_refresh-stored refresh w stored nonempty = grind (arith, ne→eq_false refresh "" nonempty)

  do_refresh-Grants :
      {access : String} {reply : Reply} (refresh : String) (w : World)
      → get_refresh_token app.keys w.storage ≡ some refresh
      → refresh ≢ ""
      → net w.sent (refresh_request js app net refresh) ≡ reply
      → Grants access reply
      → ((do_refresh js app net w).0 ≡ str access)
        × ((do_refresh js app net w).1.token ≡ str access)
        × ((do_refresh js app net w).1.sent ≡ refresh_request js app net refresh ∷ w.sent)
  do_refresh-Grants {access} {reply} refresh w stored nonempty replied g =
      rw (do_refresh-stored refresh w stored nonempty, replied) (after_refresh-Grants _ g)

  retry_lem :
      (req : Request) (token : Value) (w : World)
      → ((retry js app net req token w).0 ≡ settle js app net (net w.sent (with_token token req)))
        × ((retry js app net req token w).1.sent ≡ with_token token req ∷ w.sent)
        × ((retry js app net req token w).1.token ≡ w.token)
  unfolding retry fetch
  retry_lem req token w = (refl, refl, refl)

  on_response-renewed :
      (req : Request) (res : Response) (w : World) (access : String)
      → res.status ≡ 401
      → truthy w.token ≡ true
      → (do_refresh js app net w).0 ≡ str access
      → access ≢ ""
      → on_response js app net req res w
        ≡ retry js app net req (str access) (do_refresh js app net w).1
  unfolding on_response
  on_response-renewed req res w access unauthorized holds renewed nonempty =
      grind (arith, str-truthy access nonempty)

  -- The state in which the first reply arrives.
  abbrev asked : String → Options → World → World
  asked path options w = record (load_token js app net w) {
    sent = first_request js app net path options w ∷ w.sent;
  }

  pub request-answered :
      (path : String) (options : Options) (w : World) (res : Response)
      → net w.sent (first_request js app net path options w) ≡ response res
      → request js app net path options w
        ≡ on_response js app net
            (first_request js app net path options w)
            res
            (asked path options w)
  unfolding request fetch
  request-answered path options w res answered = grind (arith, sent-load_token js app net w)

  pub request-rejected :
      (path : String) (options : Options) (w : World) (message : String) (v : Value)
      → net w.sent (first_request js app net path options w) ≡ rejected message
      → (request js app net path options w).0 ≢ ok v
  unfolding request fetch
  request-rejected path options w message v answered h = grind (arith, sent-load_token js app net w)

  -- On 401 with a stored refresh token for which the server grants a new access token, the call sends
  -- the refresh and then the same request with the new token, in that order; it returns what the
  -- second attempt gives, whatever that is, and keeps the new token.
  pub request_renewed :
      (path : String) (options : Options) (w : World) (access : String) (reply : Reply)
      (u : IsUnauthorized path options w) (r : Refreshes path options w reply)
      → Grants access reply
      → ((request js app net path options w).0
          ≡ settle js app net (
              net
                (refresh_request js app net r.refresh
                  ∷ first_request js app net path options w
                  ∷ w.sent)
                (with_token (str access) (first_request js app net path options w))))
        × ((request js app net path options w).1.sent
            ≡ with_token (str access) (first_request js app net path options w)
              ∷ refresh_request js app net r.refresh
              ∷ first_request js app net path options w
              ∷ w.sent)
        × ((request js app net path options w).1.token ≡ str access)
  request_renewed path options w access reply u r g =
      let (renewed, token, sent) =
        do_refresh-Grants r.refresh (asked path options w) r.stored r.nonempty r.replied g in
      let same =
        request-answered path options w u.res u.answered
        ∙ on_response-renewed _ u.res (asked path options w) access u.unauthorized u.holds_token
            renewed g.nonempty in
      let again = with_token (str access) (first_request js app net path options w) in
      let (result, sent', token') =
        retry_lem _ (str access) (do_refresh js app net (asked path options w)).1 in
      rw same (
        result ∙ ap (λ (h : List Request). settle js app net (net h again)) sent,
        sent' ∙ ap (λ (h : List Request). again ∷ h) sent,
        token' ∙ token,
      )

  -- A refresh reply that the client takes for a failure: no response, a status that is not 2xx, or a
  -- body that is unreadable or null.
  abbrev pub IsRefused : Reply → Type 0
  IsRefused (rejected message) = Unit
  IsRefused (response res) =
      (is_ok res ≡ false)
      ⊎ ((message : String) × (res.body ≡ unreadable message))
      ⊎ ((payload : Value) × (res.body ≡ parsed payload) × (prop payload "access_token" ≡ none))

  after_refresh-IsRefused :
      (reply : Reply) (w : World)
      → IsRefused reply
      → after_refresh js app net reply w ≡ (null, clear_token js app net w)
  unfolding after_refresh take_tokens
  after_refresh-IsRefused (rejected message) w h = refl
  after_refresh-IsRefused (response res) w h = grind arith

  finish-unauthorized :
      (res : Response) → res.status ≡ 401 → finish res ≡ throw (api_error (error_of res))
  unfolding finish
  finish-unauthorized res h = grind arith

  on_response-refused :
      (req : Request) (res : Response) (w w' : World)
      → res.status ≡ 401
      → truthy w.token ≡ true
      → do_refresh js app net w ≡ (null, w')
      → on_response js app net req res w ≡ (throw (api_error (error_of res)), w')
  unfolding on_response truthy
  on_response-refused req res w w' unauthorized holds lost = grind (arith, finish-unauthorized)

  -- On 401, when the refresh is refused, the call throws the error of the 401 response, there is no
  -- second attempt, and the access token is gone from the client and from the storage; the refresh
  -- token stays in the storage.
  pub request_refused :
      (path : String) (options : Options) (w : World) (reply : Reply)
      (u : IsUnauthorized path options w) (r : Refreshes path options w reply)
      → IsRefused reply
      → app.keys.access ≢ app.keys.refresh
      → ((request js app net path options w).0 ≡ throw (api_error (error_of u.res)))
        × ((request js app net path options w).1.sent
            ≡ refresh_request js app net r.refresh
              ∷ first_request js app net path options w
              ∷ w.sent)
        × ((request js app net path options w).1.token ≡ null)
        × (get app.keys.access (request js app net path options w).1.storage ≡ none)
        × (get app.keys.refresh (request js app net path options w).1.storage ≡ some r.refresh)
  unfolding clear_token get_refresh_token load_token
  request_refused path options w reply u r refused distinct =
      let w' = asked path options w in
      let w'' = record w' { sent = refresh_request js app net r.refresh ∷ w'.sent } in
      let lost =
        do_refresh-stored r.refresh w' r.stored r.nonempty
        ∙ ap (λ (p : Reply). after_refresh js app net p w'') r.replied
        ∙ after_refresh-IsRefused reply w'' refused in
      let same =
        request-answered path options w u.res u.answered
        ∙ on_response-refused _ u.res w' _ u.unauthorized u.holds_token lost in
      rw same
        (refl, refl, refl, get-remove_self app.keys.access _, get-remove_ne _ distinct ∙ r.stored)
