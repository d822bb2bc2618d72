-- ===== src/Api/Laws/Errors.antt =====
-- What a call returns and what it throws.
use omni_tun.Prelude.{
  String, true, ◌≡◌, ◌≢◌, refl, List, ◌∷◌, arith, inl, inr, nat_eq, Bool-cases, ◌&&◌,
}
use omni_tun.Js.{Value, undefined, null, str, obj, prop, truthy, coalesce, or_else, own, Entries}
use omni_tun.Js.Env.{Js}
use omni_tun.Api.{
  Request, Options, Response, Reply, rejected, response, parsed, World, App, ok, error_in, error_of,
  fetch, do_refresh, settle, finish, retry, build_url, request_for, on_response, request, is_ok,
  or_http_error,
}
use omni_tun.Api.Laws.Attempts.{first_request}
use omni_tun.Api.Laws.Renewal.{request-answered, request-rejected}

-- Neither `undefined` nor `null`.
abbrev pub IsGiven : Value → Type 0
IsGiven v = (v ≢ undefined) × (v ≢ null)

coalesce-IsGiven : (v : Value) (s : String) → IsGiven (coalesce v (str s))
unfolding coalesce
coalesce-IsGiven undefined s = ground arith
coalesce-IsGiven null s = ground arith
coalesce-IsGiven _ s = ground arith

error_in-IsGiven :
    (res : Response) (body : Value)
    → IsGiven (or_http_error res (error_in res body)).code
      × IsGiven (or_http_error res (error_in res body)).message
unfolding error_in
error_in-IsGiven res body = grind (arith, coalesce-IsGiven)

-- Whatever the body of a failed response is, the error that is thrown has a code and a message that
-- are neither undefined nor null.
pub error_of-IsGiven :
    (res : Response) → IsGiven (error_of res).code × IsGiven (error_of res).message
unfolding error_of
error_of-IsGiven res = grind (arith, error_in-IsGiven)

-- The server's convention `{ "error": { "code": …, "message": … } }`: both are what the caller gets.
pub error_of_nested :
    (res : Response) (fields inner : Entries) (code message : String)
    → res.body ≡ parsed (obj fields)
    → own "error" fields ≡ obj inner
    → own "code" inner ≡ str code
    → own "message" inner ≡ str message
    → error_of res
      ≡ record { code = str code; message = str message; details = own "details" fields }
unfolding error_of error_in prop or_else truthy coalesce
error_of_nested res fields inner code message body nested c m = grind (arith, body, nested, c, m)

module _ (js : Js) (app : App) (net : List Request → Request → Reply) where
  -- The last request of a call went to `url`, and its 2xx response holds what the call returns.
  pub record Ends (url : String) (w : World) (v : Value) : Type 0 where
    pub last : Request
    pub before : List Request
    pub res : Response
    pub sent : w.sent ≡ last ∷ before
    pub asks : last.url ≡ url
    pub answered : net before last ≡ response res
    pub succeeded : is_ok res ≡ true
    pub returned : finish res ≡ ok v

  finish-ok : (res : Response) (v : Value) → finish res ≡ ok v → is_ok res ≡ true
  unfolding finish
  finish-ok res v h = ground arith

  finish-Ends :
      (url : String) (last : Request) (before : List Request) (res : Response) (w : World)
      (v : Value)
      → w.sent ≡ last ∷ before
      → last.url ≡ url
      → net before last ≡ response res
      → finish res ≡ ok v
      → Ends url w v
  finish-Ends url last before res w v sent asks answered h = record {
    last = last;
    before = before;
    res = res;
    sent = sent;
    asks = asks;
    answered = answered;
    succeeded = finish-ok res v h;
    returned = h;
  }

  settle-Ends :
      (url : String) (last : Request) (before : List Request) (reply : Reply) (w : World)
      (v : Value)
      → w.sent ≡ last ∷ before
      → last.url ≡ url
      → net before last ≡ reply
      → settle js app net reply ≡ ok v
      → Ends url w v
  unfolding settle
  settle-Ends url last before (rejected message) w v sent asks answered h = cc
  settle-Ends url last before (response res) w v sent asks answered h =
      finish-Ends url last before res w v sent asks answered h

  retry-Ends :
      (req : Request) (token : Value) (w : World) (v : Value)
      → (retry js app net req token w).0 ≡ ok v
      → Ends req.url (retry js app net req token w).1 v
  unfolding retry fetch
  retry-Ends req token w v h = settle-Ends req.url _ w.sent _ _ v refl refl refl h

  on_response-Ends :
      (req : Request) (before : List Request) (res : Response) (w : World) (v : Value)
      → w.sent ≡ req ∷ before
      → net before req ≡ response res
      → (on_response js app net req res w).0 ≡ ok v
      → Ends req.url (on_response js app net req res w).1 v
  unfolding on_response
  on_response-Ends req before res w v sent answered h =
      elim (Bool-cases (nat_eq res.status 401 && truthy w.token)) [
        | inr kept ↦
            rw (kept, on_response)
              (finish-Ends req.url req before res w v sent refl answered (ground arith))
        | inl tried ↦ elim (Bool-cases (truthy (do_refresh js app net w).0)) [
          | inl renewed ↦ rw (tried, renewed, on_response) (retry-Ends req _ _ v (ground arith))
          | inr lost ↦ absurd (not_returned (ground arith) (ground arith))
        ]
      ]
    where
      not_returned : res.status ≡ 401 → finish res ≡ ok v → ⊥
      not_returned unauthorized returned = ground (arith, finish-ok res v returned)

  -- A call returns a value only if the last request that it sent went to the URL of its path and was
  -- answered with a 2xx response, and the value is what that response holds.
  pub request-Ends :
      (path : String) (options : Options) (w : World) (v : Value)
      → (request js app net path options w).0 ≡ ok v
      → Ends (build_url js app net path) (request js app net path options w).1 v
  unfolding request_for
  request-Ends path options w v h =
      by_reply (net w.sent (first_request js app net path options w)) refl
    where
      by_reply :
          (reply : Reply)
          → net w.sent (first_request js app net path options w) ≡ reply
          → Ends (build_url js app net path) (request js app net path options w).1 v
      by_reply (rejected message) answered =
          absurd (request-rejected js app net path options w message v answered h)
      by_reply (response res) answered =
          let same = request-answered js app net path options w res answered in
          rw same (on_response-Ends _ w.sent res _ v refl answered (rw same at h))
