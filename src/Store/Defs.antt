-- ===== src/Store/Defs.antt =====
-- The store and its actions. Each action runs with no other one under way.
use omni_tun.Prelude.{
  ℕ, String, Bool, true, false, Option, none, some, List, [], ◌==◌, if◌then◌else◌,
}
use omni_tun.Js.{Value, null, str, obj, Entries, no_entries, entry, own, has, prop}
use omni_tun.Js.Env.{Js, text_of}
use omni_tun.Token.{Storage, set_tokens, clear_tokens, is_authenticated}
use omni_tun.Api.{
  Request, Options, Reply, Result, ok, throw, Thrown, api_error, native_error, thrown, World, App,
  new_client, set_token, clear_token, request,
}

-- `AuthState`, with the client and the storage that the actions change.
pub record AuthState : Type 0 where
  pub api : World
  pub user : Value
  pub is_logged_in : Bool
  pub is_loading : Bool
  pub error : Value

-- What a login or a registration answers.
pub record Session : Type 0 where
  pub access_token : Value
  pub refresh_token : Value
  pub user : Value

-- `err && typeof err === 'object' && k in err ? err[k] : otherwise`
unfoldable pub read_or : String → Value → Value → Value
read_or k (obj fs) otherwise = if has k fs then own k fs else otherwise
read_or k v otherwise = otherwise

unfoldable pub message_of : String → Thrown → Value
message_of otherwise (api_error e) = e.message
message_of otherwise (native_error message) = str message
message_of otherwise (thrown v) = read_or "message" v (str otherwise)

-- An error of the platform has no `code`.
unfoldable pub code_of : Thrown → Value
code_of (api_error e) = e.code
code_of (native_error message) = str ""
code_of (thrown v) = read_or "code" v (str "")

-- What `login` throws: `{ message, code }`.
unfoldable pub login_error : Thrown → Thrown
login_error e =
    thrown
      (obj (entry "message" (message_of "Login failed" e) (entry "code" (code_of e) no_entries)))

abbrev pub post : String → Options
post body = record { method = some "POST"; headers = []; body = some body }

abbrev pub plain : Options
plain = record { method = none; headers = []; body = none }

-- The body of a login; `mfa_code` is there if a code was typed.
unfoldable pub credentials : String → String → Option String → Entries
credentials email password none =
    entry "email" (str email) (entry "password" (str password) no_entries)
credentials email password (some mfa_code) = entry "email" (str email) (
    entry "password" (str password)
      (if mfa_code == "" then no_entries else entry "mfa_code" (str mfa_code) no_entries))

unfoldable pub registration : String → String → String → Entries
registration email password name =
    entry "email" (str email) (entry "password" (str password) (entry "name" (str name) no_entries))

module _ (js : Js) (app : App) (net : List Request → Request → Reply) where
  -- The store as the page loads.
  unfoldable pub new_store : String → Storage → ℕ → AuthState
  new_store default_role st now = record {
    api = new_client js app net st;
    user = null;
    is_logged_in = is_authenticated js app.keys default_role st now;
    is_loading = false;
    error = null;
  }

  -- The reads of the reply's fields.
  unfoldable pub session_of : Value → Result Session
  session_of v = elim (prop v "access_token") [
    | none ↦ throw (native_error (js.read_error v "access_token"))
    | some access ↦ elim (prop v "refresh_token") [
      | none ↦ throw (native_error (js.read_error v "refresh_token"))
      | some refresh ↦ elim (prop v "user") [
        | none ↦ throw (native_error (js.read_error v "user"))
        | some user ↦ ok (record { access_token = access; refresh_token = refresh; user = user })
      ]
    ]
  ]

  -- `setTokens(…)`, then `setAuthToken(…)`.
  unfoldable pub keep_session : Session → World → World
  keep_session se w = set_token js app net se.access_token (record w {
    storage =
        set_tokens app.keys (text_of js se.access_token) (text_of js se.refresh_token) w.storage;
  })

  -- `clearTokens()`, then `clearAuthToken()`.
  unfoldable pub drop_session : World → World
  drop_session w = clear_token js app net (record w { storage = clear_tokens app.keys w.storage })

  -- The end of `login` and `register`: the `try` goes through, or its `catch` runs.
  unfoldable pub sign_in :
      String → (Thrown → Thrown) → Result Session → AuthState → Result (Unit {0}) × AuthState
  sign_in otherwise rethrown (ok se) s = (
    ok tt,
    record s {
      api = keep_session se s.api;
      user = se.user;
      is_logged_in = true;
      is_loading = false;
    },
  )
  sign_in otherwise rethrown (throw e) s =
      (throw (rethrown e), record s { error = message_of otherwise e; is_loading = false })

  abbrev pub then_session : Result Value → Result Session
  then_session (ok v) = session_of v
  then_session (throw e) = throw e

  -- What `login` and `register` share.
  unfoldable pub authenticate :
      String → Entries → String → (Thrown → Thrown) → AuthState → Result (Unit {0}) × AuthState
  authenticate path body otherwise rethrown s =
      let s' = record s { is_loading = true; error = null } in
      let (result, w) = request js app net path (post (js.stringify (obj body))) s'.api in
      sign_in otherwise rethrown (then_session result) (record s' { api = w })

  unfoldable pub login : String → String → Option String → AuthState → Result (Unit {0}) × AuthState
  login email password mfa_code =
      authenticate "/v1/auth/login" (credentials email password mfa_code) "Login failed" login_error

  unfoldable pub register : String → String → String → AuthState → Result (Unit {0}) × AuthState
  register email password name =
      authenticate "/v1/auth/register" (registration email password name) "Registration failed"
        (λ e. e)

  unfoldable pub logout : AuthState → AuthState
  logout s = record s { api = drop_session s.api; user = null; is_logged_in = false; error = null }

  unfoldable pub fetched : Result Value → AuthState → AuthState
  fetched (ok user) s = record s { user = user; is_logged_in = true; is_loading = false }
  fetched (throw e) s = record s {
    api = drop_session s.api;
    user = null;
    is_logged_in = false;
    is_loading = false;
  }

  unfoldable pub fetch_user_at : String → AuthState → AuthState
  fetch_user_at path s =
      let (result, w) = request js app net path plain s.api in
      fetched result (record s { api = w; is_loading = true })

  unfoldable pub fetch_user : AuthState → AuthState
  fetch_user = fetch_user_at "/v1/auth/me"

  unfoldable pub clear_error : AuthState → AuthState
  clear_error s = record s { error = null }
