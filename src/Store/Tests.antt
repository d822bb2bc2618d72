-- ===== src/Store/Tests.antt =====
-- The actions of the store against small servers.
use omni_tun.Prelude.{ℕ, String, false, ◌≡◌, ◌≢◌, refl, none, List, [], ◌∷◌, get, eq_iff, arith}
use omni_tun.Js.{Value, null, str, obj, entry, no_entries, prop, truthy, Entries, own}
use omni_tun.Js.Sample.{sample_js}
use omni_tun.Token.{get_access_token}
use omni_tun.Api.{
  Request, Options, Response, Reply, rejected, response, parsed, unreadable, World, App, Result, ok,
  throw, Thrown, api_error, native_error, error_of, web_app, admin_app, load_token, request,
  build_url, is_ok,
}
use omni_tun.Store.{
  AuthState, post, credentials, login_error, session_of, then_session, authenticate, logout,
  new_store,
}
use omni_tun.Store.Actions.{IsSignedIn, IsDropped, authenticate-IsSignedIn, logout-IsDropped}
use omni_tun.Store.Accounts.{AccountRun, account, answers_to, acts-AccountRun}
use omni_tun.Store.Invariants.{
  login_with, log_out, get_user, acts, IssuesText, IsConsistent, new_store-acts-IsConsistent,
}

abbrev app : App
app = web_app ""

abbrev session : Value
session = obj (
    entry "access_token" (str "a")
      (entry "refresh_token" (str "r") (entry "user" (str "me") no_entries)))

abbrev success : Response
success = record { status = 200; status_text = "OK"; body = parsed session }

-- A server that lets everyone in, and one that cannot be reached.
abbrev welcomes : List Request → Request → Reply
welcomes sent req = response success

abbrev offline : List Request → Request → Reply
offline sent req = rejected "Failed to fetch"

abbrev start : (List Request → Request → Reply) → AuthState
start net = new_store sample_js app net "member" [] 0

abbrev body : Entries
body = credentials "me@example.com" "secret" none

keys_differ : app.keys.access ≢ app.keys.refresh
keys_differ e = cc ((eq_iff app.keys.access app.keys.refresh).1 e)

keys_differ' : app.keys.refresh ≢ app.keys.access
keys_differ' e = cc ((eq_iff app.keys.refresh app.keys.access).1 e)

welcomed :
    (request sample_js app welcomes "/v1/auth/login"
      (post (sample_js.stringify (obj body)))
      (start welcomes).api).0
    ≡ ok session
unfolding request load_token omni_tun.Api.fetch omni_tun.Api.on_response omni_tun.Api.finish truthy
    get_access_token get new_store omni_tun.Api.new_client
welcomed = refl

session_read :
    session_of sample_js app welcomes session
    ≡ ok (record { access_token = str "a"; refresh_token = str "r"; user = str "me" })
unfolding session_of prop own
session_read = refl

authenticate-IsSignedIn_example : IsSignedIn sample_js app welcomes "a" "r" (str "me") (
    authenticate sample_js app welcomes "/v1/auth/login" body "Login failed" login_error
      (start welcomes))
authenticate-IsSignedIn_example =
    authenticate-IsSignedIn sample_js app welcomes "/v1/auth/login" body "Login failed" login_error
      (start welcomes) session "a" "r" (str "me") keys_differ welcomed session_read

unreachable :
    then_session sample_js app offline
      (request sample_js app offline "/v1/auth/login"
        (post (sample_js.stringify (obj body)))
        (start offline).api).0
    ≡ throw (native_error "Failed to fetch")
unfolding request load_token omni_tun.Api.fetch truthy get_access_token get new_store
    omni_tun.Api.new_client
unreachable = refl

abbrev failed : Result (Unit {0}) × AuthState
failed =
    authenticate sample_js app offline "/v1/auth/login" body "Login failed" login_error
      (start offline)

abbrev left : AuthState
left = logout sample_js app welcomes (start welcomes)

logout-IsDropped_example :
    IsDropped sample_js app welcomes left.api
    × (left.user ≡ null)
    × (left.is_logged_in ≡ false)
    × ((default_role : String) (now : ℕ)
        → (new_store sample_js app welcomes default_role left.api.storage now).is_logged_in ≡ false)
logout-IsDropped_example = logout-IsDropped sample_js app welcomes (start welcomes)

same_body : (v : Value) → success.body ≡ parsed v → v ≡ session
same_body v e = ground arith

issues : (a : App) (url : String) → IssuesText sample_js a welcomes url
unfolding prop own
issues a url = record { issues = λ sent req res v q e k b. ("a", ground (arith, same_body v)) }

new_store-acts-IsConsistent_example : IsConsistent sample_js app welcomes (
    acts sample_js app welcomes
      (login_with "me@example.com" "secret" none ∷ get_user ∷ log_out ∷ [])
      (start welcomes))
new_store-acts-IsConsistent_example =
    new_store-acts-IsConsistent sample_js app welcomes keys_differ' "member" [] 0
      (login_with "me@example.com" "secret" none ∷ get_user ∷ log_out ∷ []) (issues app _)
      (issues app _)

acts-AccountRun_example :
    AccountRun
      (login_with "me@example.com" "secret" none ∷ log_out ∷ [])
      (answers_to sample_js app welcomes
        (login_with "me@example.com" "secret" none ∷ log_out ∷ [])
        (start welcomes))
      (account (start welcomes))
      (account (
        acts sample_js app welcomes
          (login_with "me@example.com" "secret" none ∷ log_out ∷ [])
          (start welcomes)))
acts-AccountRun_example =
    acts-AccountRun sample_js app welcomes
      (login_with "me@example.com" "secret" none ∷ log_out ∷ []) (start welcomes)
