-- ===== src/Store/Invariants.antt =====
-- What holds after every sequence of actions, whatever the server answers.
use omni_tun.Prelude.{
  ℕ, String, true, false, ◌≡◌, ◌≢◌, refl, Option, some, List, [], ◌∷◌, arith, inl, inr, ◌⊎◌,
}
use omni_tun.Js.{Value, null, str, Entries, prop}
use omni_tun.Js.Env.{Js}
use omni_tun.Token.{Storage}
use omni_tun.Api.{
  Request, Response, Reply, response, Body, parsed, Result, ok, throw, Thrown, World, App,
  set_token, clear_token, request, is_ok, finish, build_url, new_client,
}
use omni_tun.Api.Laws.Coherence.{
  IsCoherent, new_client-IsCoherent, set_token-IsCoherent, clear_token-IsCoherent,
  request-IsCoherent,
}
use omni_tun.Api.Laws.Errors.{request-Ends}
use omni_tun.Store
use omni_tun.Store.{
  AuthState, post, plain, new_store, session_of, keep_session, drop_session, sign_in, then_session,
  authenticate, credentials, registration, login_error, login, register, logout, fetched,
  fetch_user_at, fetch_user, clear_error,
}

-- What a page can do with the store.
pub data Action : Type 0 where
  login_with : String → String → Option String → Action
  register_with : String → String → String → Action
  log_out get_user forget_error : Action

module _ (js : Js) (app : App) (net : List Request → Request → Reply) where
  unfoldable pub act : Action → AuthState → AuthState
  act (login_with email password mfa_code) s = (login js app net email password mfa_code s).1
  act (register_with email password name) s = (register js app net email password name s).1
  act log_out s = logout js app net s
  act get_user s = fetch_user js app net s
  act forget_error s = clear_error js app net s

  unfoldable pub acts : List Action → AuthState → AuthState
  acts [] s = s
  acts (a ∷ later) s = acts later (act a s)

  -- Every 2xx answer to `url` that has a body is an object whose `access_token` is a text.
  pub record IssuesText (url : String) : Type 0 where
    pub issues :
        (sent : List Request) (req : Request) (res : Response) (v : Value)
        → req.url ≡ url
        → net sent req ≡ response res
        → is_ok res ≡ true
        → res.body ≡ parsed v
        → (s : String) × (prop v "access_token" ≡ some (str s))

  -- The client and the storage hold the same access token, nothing is loading between actions, and who
  -- is not logged in is not known either.
  pub record IsConsistent (s : AuthState) : Type 0 where
    pub coherent : IsCoherent js app net s.api
    pub at_rest : s.is_loading ≡ false
    pub unknown : s.is_logged_in ≡ false → s.user ≡ null

  pub new_store-IsConsistent :
      (default_role : String) (st : Storage) (now : ℕ)
      → IsConsistent (new_store js app net default_role st now)
  unfolding new_store
  new_store-IsConsistent default_role st now = record {
    coherent = new_client-IsCoherent js app net st;
    at_rest = refl;
    unknown = λ _. refl;
  }

  finish-parsed :
      (res : Response) (v : Value)
      → finish res ≡ ok v
      → (v ≡ Value.undefined) ⊎ (res.body ≡ parsed v)
  unfolding finish
  finish-parsed res v h = ground arith

  session_of-access :
      (v : Value) (se : Store.Session)
      → session_of js app net v ≡ ok se
      → (prop v "access_token" ≡ some se.access_token) × (v ≢ Value.undefined)
  unfolding session_of prop
  session_of-access v se h = ground arith

  -- The access token of a session that a call gave is a text, if the server only issues texts.
  access_of_then_session :
      (path : String) (o : omni_tun.Api.Options) (w : World) (se : Store.Session)
      → IssuesText (build_url js app net path)
      → then_session js app net (request js app net path o w).0 ≡ ok se
      → (s : String) × (se.access_token ≡ str s)
  access_of_then_session path o w se issues h = of_result (request js app net path o w).0 refl h
    where
      of_result :
          (r : Result Value)
          → (request js app net path o w).0 ≡ r
          → then_session js app net r ≡ ok se
          → (s : String) × (se.access_token ≡ str s)
      of_result (throw e) q h = cc
      of_result (ok v) q h =
          let (read, given) = session_of-access v se h in
          let ends = request-Ends js app net path o w v q in
          elim (finish-parsed ends.res v ends.returned) [
            | inl nothing ↦ absurd (given nothing)
            | inr body ↦
                let (s, e) =
                  issues.issues ends.before ends.last ends.res v ends.asks ends.answered
                    ends.succeeded body in
                (s, ground (arith, read, e))
          ]

  sign_in-IsConsistent :
      (otherwise : String) (rethrown : Thrown → Thrown) (r : Result Store.Session) (s : AuthState)
      → IsCoherent js app net s.api
      → (s.is_logged_in ≡ false → s.user ≡ null)
      → ((se : Store.Session) → r ≡ ok se → (t : String) × (se.access_token ≡ str t))
      → IsConsistent (sign_in js app net otherwise rethrown r s).1
  unfolding sign_in keep_session
  sign_in-IsConsistent otherwise rethrown (ok se) s c u texts = record {
    coherent =
        set_token-IsCoherent js app net se.access_token _ (let (t, e) = texts se refl in rw e refl);
    at_rest = refl;
    unknown = λ e. cc e;
  }
  sign_in-IsConsistent otherwise rethrown (throw e) s c u texts = record {
    coherent = c;
    at_rest = refl;
    unknown = u;
  }

  drop_session-IsCoherent : (w : World) → IsCoherent js app net (drop_session js app net w)
  unfolding drop_session
  drop_session-IsCoherent w = clear_token-IsCoherent js app net _

  fetched-IsConsistent :
      (r : Result Value) (s : AuthState)
      → IsCoherent js app net s.api
      → IsConsistent (fetched js app net r s)
  unfolding fetched
  fetched-IsConsistent (ok user) s c = record { coherent = c; at_rest = refl; unknown = λ e. cc e }
  fetched-IsConsistent (throw e) s c = record {
    coherent = drop_session-IsCoherent s.api;
    at_rest = refl;
    unknown = λ _. refl;
  }

  pub logout-IsConsistent : (s : AuthState) → IsConsistent s → IsConsistent (logout js app net s)
  unfolding logout
  logout-IsConsistent s h = record {
    coherent = drop_session-IsCoherent s.api;
    at_rest = h.at_rest;
    unknown = λ _. refl;
  }

  pub clear_error-IsConsistent :
      (s : AuthState) → IsConsistent s → IsConsistent (clear_error js app net s)
  unfolding clear_error
  clear_error-IsConsistent s h = record {
    coherent = h.coherent;
    at_rest = h.at_rest;
    unknown = h.unknown;
  }

  module _ (distinct : app.keys.refresh ≢ app.keys.access) where
    pub authenticate-IsConsistent :
        (path : String) (body : Entries) (otherwise : String) (rethrown : Thrown → Thrown)
        (s : AuthState)
        → IssuesText (build_url js app net path)
        → IsConsistent s
        → IsConsistent (authenticate js app net path body otherwise rethrown s).1
    unfolding authenticate
    authenticate-IsConsistent path body otherwise rethrown s issues h =
        sign_in-IsConsistent otherwise rethrown _ _
          (request-IsCoherent js app net distinct path _ s.api h.coherent) h.unknown
          (λ se. access_of_then_session path _ s.api se issues)

    pub fetch_user_at-IsConsistent :
        (path : String) (s : AuthState)
        → IsConsistent s
        → IsConsistent (fetch_user_at js app net path s)
    unfolding fetch_user_at
    fetch_user_at-IsConsistent path s h =
        fetched-IsConsistent _ _
          (request-IsCoherent js app net distinct path plain s.api h.coherent)

    act-IsConsistent :
        (a : Action) (s : AuthState)
        → IssuesText (build_url js app net "/v1/auth/login")
        → IssuesText (build_url js app net "/v1/auth/register")
        → IsConsistent s
        → IsConsistent (act a s)
    unfolding act login register fetch_user
    act-IsConsistent (login_with email password mfa_code) s l r h =
        authenticate-IsConsistent _ _ _ _ s l h
    act-IsConsistent (register_with email password name) s l r h =
        authenticate-IsConsistent _ _ _ _ s r h
    act-IsConsistent log_out s l r h = logout-IsConsistent s h
    act-IsConsistent get_user s l r h = fetch_user_at-IsConsistent _ s h
    act-IsConsistent forget_error s l r h = clear_error-IsConsistent s h

    acts-IsConsistent :
        (actions : List Action) (s : AuthState)
        → IssuesText (build_url js app net "/v1/auth/login")
        → IssuesText (build_url js app net "/v1/auth/register")
        → IsConsistent s
        → IsConsistent (acts actions s)
    unfolding acts
    acts-IsConsistent [] s l r h = h
    acts-IsConsistent (a ∷ later) s l r h =
        acts-IsConsistent later (act a s) l r (act-IsConsistent a s l r h)

    -- Where the refresh token has another key than the access token: from a fresh page, whatever the actions
    -- and the server's answers, as long as every 2xx answer to a login or a registration that has a body
    -- carries a text as `access_token`, the client and the storage hold the same access token, nothing is
    -- loading between actions, and no user is known while nobody is logged in.
    pub new_store-acts-IsConsistent :
        (default_role : String) (st : Storage) (now : ℕ) (actions : List Action)
        → IssuesText (build_url js app net "/v1/auth/login")
        → IssuesText (build_url js app net "/v1/auth/register")
        → IsConsistent (acts actions (new_store js app net default_role st now))
    new_store-acts-IsConsistent default_role st now actions l r =
        acts-IsConsistent actions _ l r (new_store-IsConsistent default_role st now)
