-- ===== src/Store/Accounts.antt =====
-- What the store promises its readers: an account that the actions change, without the client, the
-- storage and the server.
use omni_tun.Prelude.{String, Option, none, some, List, [], ◌∷◌, if◌then◌else◌}
use omni_tun.Js.{Value, obj, Entries}
use omni_tun.Js.Env.{Js}
use omni_tun.Api.{Request, Reply, Result, ok, throw, Thrown, World, App, request}
use omni_tun.Store
use omni_tun.Store.{
  AuthState, post, plain, credentials, registration, then_session, sign_in, authenticate, login,
  register, logout, fetched, fetch_user_at, fetch_user, clear_error,
}
use omni_tun.Store.Invariants.{
  Action, login_with, register_with, log_out, get_user, forget_error, act, acts,
}

-- Nobody, or who is logged in.
abbrev pub Account : Type 0
Account = Option Value

-- The user that the server names in its answer to an action; none, where the call fails, the answer
-- cannot be read, or nothing is asked.
abbrev pub Answer : Type 0
Answer = Option Value

-- What each action does to the account, by the server's answer.
pub data AccountStep : Action → Answer → Account → Account → Type 0 where
  logs_in :
      (email password : String) (code : Option String) (x : Account) (user : Value)
      → AccountStep (login_with email password code) (some user) x (some user)
  stays_out :
      (email password : String) (code : Option String) (x : Account)
      → AccountStep (login_with email password code) none x x
  joins :
      (email password name : String) (x : Account) (user : Value)
      → AccountStep (register_with email password name) (some user) x (some user)
  joins_not :
      (email password name : String) (x : Account)
      → AccountStep (register_with email password name) none x x
  leaves : (x : Account) → AccountStep log_out none x none
  is_known : (x : Account) (user : Value) → AccountStep get_user (some user) x (some user)
  is_dropped : (x : Account) → AccountStep get_user none x none
  forgets : (x : Account) → AccountStep forget_error none x x

-- The actions of a sequence, with the answer to each.
pub data AccountRun : List Action → List Answer → Account → Account → Type 0 where
  rests : (x : Account) → AccountRun [] [] x x
  runs :
      {a : Action} {answer : Answer} {later : List Action} {answers : List Answer} {x y z : Account}
      → AccountStep a answer x y
      → AccountRun later answers y z
      → AccountRun (a ∷ later) (answer ∷ answers) x z

-- The account that a state shows.
abbrev pub account : AuthState → Account
account s = if s.is_logged_in then some s.user else none

abbrev pub user_in : Result Store.Session → Answer
user_in (ok se) = some se.user
user_in (throw e) = none

abbrev pub user_read : Result Value → Answer
user_read (ok user) = some user
user_read (throw e) = none

module _ (js : Js) (app : App) (net : List Request → Request → Reply) where
  -- The call of a login or a registration with this body.
  abbrev pub session_answer : String → Entries → World → Answer
  session_answer path body w =
      user_in
        (then_session js app net (request js app net path (post (js.stringify (obj body))) w).0)

  -- The server's answer to an action.
  unfoldable pub answer_to : Action → World → Answer
  answer_to (login_with email password code) w =
      session_answer "/v1/auth/login" (credentials email password code) w
  answer_to (register_with email password name) w =
      session_answer "/v1/auth/register" (registration email password name) w
  answer_to log_out w = none
  answer_to get_user w = user_read (request js app net "/v1/auth/me" plain w).0
  answer_to forget_error w = none

  -- Its answers to a sequence of actions.
  unfoldable pub answers_to : List Action → AuthState → List Answer
  answers_to [] s = []
  answers_to (a ∷ later) s = answer_to a s.api ∷ answers_to later (act js app net a s)

  -- A login or a registration lets the named user in or changes nothing.
  sign_in-account :
      (P : Answer → Account → Type 0) (otherwise : String) (rethrown : Thrown → Thrown)
      (r : Result Store.Session) (s : AuthState)
      → ((user : Value) → P (some user) (some user))
      → P none (account s)
      → P (user_in r) (account (sign_in js app net otherwise rethrown r s).1)
  unfolding sign_in
  sign_in-account P otherwise rethrown (ok se) s enters stays = enters se.user
  sign_in-account P otherwise rethrown (throw e) s enters stays = stays

  fetched-AccountStep :
      (x : Account) (r : Result Value) (s : AuthState)
      → AccountStep get_user (user_read r) x (account (fetched js app net r s))
  unfolding fetched
  fetched-AccountStep x (ok user) s = is_known x user
  fetched-AccountStep x (throw e) s = is_dropped x

  act-AccountStep :
      (a : Action) (s : AuthState)
      → AccountStep a (answer_to a s.api) (account s) (account (act js app net a s))
  unfolding act answer_to login register authenticate logout fetch_user fetch_user_at clear_error
  act-AccountStep (login_with email password code) s =
      sign_in-account (λ o. AccountStep (login_with email password code) o (account s))
        "Login failed" _ _ _ (logs_in email password code (account s))
        (stays_out email password code (account s))
  act-AccountStep (register_with email password name) s =
      sign_in-account (λ o. AccountStep (register_with email password name) o (account s))
        "Registration failed" _ _ _ (joins email password name (account s))
        (joins_not email password name (account s))
  act-AccountStep log_out s = leaves (account s)
  act-AccountStep get_user s = fetched-AccountStep (account s) _ _
  act-AccountStep forget_error s = forgets (account s)

  -- The store refines the account, whatever the server answers to each action of a sequence: a login or a
  -- registration shows exactly the user that the server names, and where it fails it changes nothing;
  -- reading the user shows the user that the server names, and where it fails nobody; a logout leaves
  -- nobody; forgetting an error changes nothing.
  pub acts-AccountRun :
      (actions : List Action) (s : AuthState)
      → AccountRun actions (answers_to actions s) (account s) (account (acts js app net actions s))
  unfolding acts answers_to
  acts-AccountRun [] s = rests (account s)
  acts-AccountRun (a ∷ later) s =
      runs (act-AccountStep a s) (acts-AccountRun later (act js app net a s))
