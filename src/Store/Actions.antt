-- ===== src/Store/Actions.antt =====
-- What each action of the store leaves behind.
use omni_tun.Prelude.{
  ℕ, String, true, false, ◌≡◌, ◌≢◌, refl, ◌∙◌, none, some, List, arith, get-put_self, get-put_ne,
  get-remove_self, get-remove-none, inl, inr, ◌⊎◌,
}
use omni_tun.Js.{Value, null, str, obj, Entries}
use omni_tun.Js.Env.{Js}
use omni_tun.Token.{
  get_access_token, get_refresh_token, set_tokens, clear_tokens, is_authenticated, token_valid,
}
use omni_tun.Api.{
  Request, Reply, Result, ok, throw, Thrown, World, App, set_token, clear_token, request,
}
use omni_tun.Store
use omni_tun.Store.{
  AuthState, Session, post, plain, session_of, keep_session, drop_session, sign_in, then_session,
  authenticate, logout, new_store, fetched, fetch_user_at, message_of,
}

module _ (js : Js) (app : App) (net : List Request → Request → Reply) where
  -- The tokens of a session are in the client and in the storage.
  pub record Holds (access refresh : String) (w : World) : Type 0 where
    pub token : w.token ≡ str access
    pub access_token : get_access_token app.keys w.storage ≡ some access
    pub refresh_token : get_refresh_token app.keys w.storage ≡ some refresh

  -- No access token is in the client, and no token is in the storage.
  pub record IsDropped (w : World) : Type 0 where
    pub token : w.token ≡ null
    pub access_token : get_access_token app.keys w.storage ≡ none
    pub refresh_token : get_refresh_token app.keys w.storage ≡ none

  drop_session-IsDropped : (w : World) → IsDropped (drop_session js app net w)
  unfolding drop_session clear_token clear_tokens get_access_token get_refresh_token
  drop_session-IsDropped w = record {
    token = refl;
    access_token = get-remove_self app.keys.access _;
    refresh_token = get-remove-none app.keys.access _ _ (get-remove_self app.keys.refresh _);
  }

  keep_session-Holds :
      (access refresh : String) (user : Value) (w : World)
      → app.keys.access ≢ app.keys.refresh
      → Holds access refresh (
          keep_session js app net
            (record { access_token = str access; refresh_token = str refresh; user = user })
            w)
  unfolding keep_session set_token set_tokens get_access_token get_refresh_token
  keep_session-Holds access refresh user w distinct = record {
    token = refl;
    access_token = get-put_self app.keys.access access _;
    refresh_token = get-put_ne access _ distinct ∙ get-put_self app.keys.refresh refresh _;
  }

  -- What a login or a registration leaves behind when it succeeds: it returns, the user is the
  -- server's and is logged in, no spinner and no error is left, both tokens are kept, and from then on
  -- the login counts exactly as long as the new access token is valid.
  pub record IsSignedIn (access refresh : String) (user : Value)
      (out : Result (Unit {0}) × AuthState) : Type 0 where
    pub returned : out.0 ≡ ok tt
    pub user_known : out.1.user ≡ user
    pub logged_in : out.1.is_logged_in ≡ true
    pub not_loading : out.1.is_loading ≡ false
    pub no_error : out.1.error ≡ null
    pub held : Holds access refresh out.1.api
    pub counts :
        (default_role : String) (now : ℕ)
        → is_authenticated js app.keys default_role out.1.api.storage now
          ≡ token_valid js default_role access now

  is_authenticated-stored :
      (default_role access : String) (now : ℕ) (w : World)
      → get_access_token app.keys w.storage ≡ some access
      → is_authenticated js app.keys default_role w.storage now
        ≡ token_valid js default_role access now
  unfolding is_authenticated
  is_authenticated-stored default_role access now w h = ground (arith, h)

  sign_in-IsSignedIn :
      (access refresh otherwise : String) (user : Value) (rethrown : Thrown → Thrown)
      (s : AuthState)
      → app.keys.access ≢ app.keys.refresh
      → s.error ≡ null
      → IsSignedIn access refresh user (
          sign_in js app net otherwise rethrown
            (ok (record { access_token = str access; refresh_token = str refresh; user = user }))
            s)
  unfolding sign_in
  sign_in-IsSignedIn access refresh otherwise user rethrown s distinct e =
      let se : Store.Session = record {
        access_token = str access;
        refresh_token = str refresh;
        user = user;
      } in
      let held = keep_session-Holds access refresh user s.api distinct in
      record {
        returned = refl;
        user_known = refl;
        logged_in = refl;
        not_loading = refl;
        no_error = e;
        held = held;
        counts = λ default_role now.
            is_authenticated-stored default_role access now (keep_session js app net se s.api)
              held.access_token;
      }

  -- A login or a registration succeeds when the server answers it with two texts as tokens.
  pub authenticate-IsSignedIn :
      (path : String) (body : Entries) (otherwise : String) (rethrown : Thrown → Thrown)
      (s : AuthState) (v : Value) (access refresh : String) (user : Value)
      → app.keys.access ≢ app.keys.refresh
      → (request js app net path (post (js.stringify (obj body))) s.api).0 ≡ ok v
      → session_of js app net v
        ≡ ok (record { access_token = str access; refresh_token = str refresh; user = user })
      → IsSignedIn access refresh user (authenticate js app net path body otherwise rethrown s)
  unfolding authenticate
  authenticate-IsSignedIn path body otherwise rethrown s v access refresh user distinct e f =
      rw (e, authenticate, f)
        (sign_in-IsSignedIn access refresh otherwise user rethrown _ distinct refl)

  -- A login or a registration that fails throws what its `catch` makes of the error, shows the error's
  -- message, stops the spinner, and leaves the user and the login as they were.
  pub authenticate_fails :
      (path : String) (body : Entries) (otherwise : String) (rethrown : Thrown → Thrown)
      (s : AuthState) (e : Thrown)
      → then_session js app net (request js app net path (post (js.stringify (obj body))) s.api).0
        ≡ throw e
      → ((authenticate js app net path body otherwise rethrown s).0 ≡ throw (rethrown e))
        × ((authenticate js app net path body otherwise rethrown s).1.error
            ≡ message_of otherwise e)
        × ((authenticate js app net path body otherwise rethrown s).1.is_loading ≡ false)
        × ((authenticate js app net path body otherwise rethrown s).1.user ≡ s.user)
        × ((authenticate js app net path body otherwise rethrown s).1.is_logged_in ≡ s.is_logged_in)
  unfolding authenticate sign_in
  authenticate_fails path body otherwise rethrown s e h =
      rw (h, authenticate) (refl, refl, refl, refl, refl)

  loaded_without :
      (default_role : String) (now : ℕ) (w : World)
      → get_access_token app.keys w.storage ≡ none
      → (new_store js app net default_role w.storage now).is_logged_in ≡ false
  unfolding new_store is_authenticated
  loaded_without default_role now w h = ground (arith, h)

  -- After `logout` no token is left in the client or the storage, nobody is logged in, and a reload
  -- of the page, at any time, does not log anyone in.
  pub logout-IsDropped :
      (s : AuthState)
      → IsDropped (logout js app net s).api
        × ((logout js app net s).user ≡ null)
        × ((logout js app net s).is_logged_in ≡ false)
        × ((default_role : String) (now : ℕ)
            → (new_store js app net default_role (logout js app net s).api.storage now).is_logged_in
              ≡ false)
  unfolding logout
  logout-IsDropped s =
      let dropped = drop_session-IsDropped s.api in
      (
        dropped,
        refl,
        refl,
        λ default_role now.
            loaded_without default_role now (drop_session js app net s.api) dropped.access_token,
      )

  abbrev pub IsSettled : Result Value → AuthState → Type 0
  IsSettled result s =
      (s.is_loading ≡ false)
      × (((user : Value) × (result ≡ ok user) × (s.user ≡ user) × (s.is_logged_in ≡ true))
          ⊎ ((s.user ≡ null) × (s.is_logged_in ≡ false) × IsDropped s.api))

  fetched-IsSettled :
      (result : Result Value) (s : AuthState) → IsSettled result (fetched js app net result s)
  unfolding fetched
  fetched-IsSettled (ok user) s = (refl, inl (user, refl, refl, refl))
  fetched-IsSettled (throw e) s = (refl, inr (refl, refl, drop_session-IsDropped s.api))

  -- `fetchUser` either gets the user, who is then logged in, or drops the session.
  pub fetch_user-settles :
      (path : String) (s : AuthState)
      → IsSettled (request js app net path plain s.api).0 (fetch_user_at js app net path s)
  unfolding fetch_user_at
  fetch_user-settles path s = fetched-IsSettled _ _
