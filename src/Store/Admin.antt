-- ===== src/Store/Admin.antt =====
-- admin/src/store/auth.ts: no registration and no MFA code, and `login` throws what it caught.
use omni_tun.Prelude.{ℕ, String, List, [], ◌∷◌, ◌≢◌, eq_iff}
use omni_tun.Js.{str, entry, no_entries}
use omni_tun.Js.Env.{Js}
use omni_tun.Token.{Storage, admin_keys}
use omni_tun.Api.{Request, Reply, Result, build_url, admin_app}
use omni_tun.Store.Defs.{AuthState, new_store, authenticate, logout, fetch_user_at, clear_error}
use omni_tun.Store.Invariants.{
  IsConsistent, IssuesText, new_store-IsConsistent, authenticate-IsConsistent, logout-IsConsistent,
  fetch_user_at-IsConsistent, clear_error-IsConsistent,
}

-- What a page of the administration can do with the store.
pub data AdminAction : Type 0 where
  login_with : String → String → AdminAction
  log_out get_user forget_error : AdminAction

keys_differ : admin_keys.refresh ≢ admin_keys.access
keys_differ e = cc ((eq_iff admin_keys.refresh admin_keys.access).1 e)

module _ (js : Js) (base_url : String) (net : List Request → Request → Reply) where
  unfoldable pub admin_new_store : Storage → ℕ → AuthState
  admin_new_store = new_store js (admin_app base_url) net "operator"

  unfoldable pub admin_login : String → String → AuthState → Result (Unit {0}) × AuthState
  admin_login email password =
      authenticate js (admin_app base_url) net "/api/admin/v1/auth/login"
        (entry "email" (str email) (entry "password" (str password) no_entries)) "Login failed"
        (λ e. e)

  unfoldable pub admin_logout : AuthState → AuthState
  admin_logout = logout js (admin_app base_url) net

  unfoldable pub admin_fetch_user : AuthState → AuthState
  admin_fetch_user = fetch_user_at js (admin_app base_url) net "/api/admin/v1/auth/me"

  pub admin_act : AdminAction → AuthState → AuthState
  admin_act (login_with email password) s = (admin_login email password s).1
  admin_act log_out s = admin_logout s
  admin_act get_user s = admin_fetch_user s
  admin_act forget_error s = clear_error js (admin_app base_url) net s

  pub admin_acts : List AdminAction → AuthState → AuthState
  admin_acts [] s = s
  admin_acts (a ∷ later) s = admin_acts later (admin_act a s)

  admin_act-IsConsistent :
      (a : AdminAction) (s : AuthState)
      → IssuesText js
          (admin_app base_url)
          net
          (build_url js (admin_app base_url) net "/api/admin/v1/auth/login")
      → IsConsistent js (admin_app base_url) net s
      → IsConsistent js (admin_app base_url) net (admin_act a s)
  unfolding admin_act admin_login admin_logout admin_fetch_user
  admin_act-IsConsistent (login_with email password) s l h =
      authenticate-IsConsistent js (admin_app base_url) net keys_differ _ _ _ _ s l h
  admin_act-IsConsistent log_out s l h = logout-IsConsistent js (admin_app base_url) net s h
  admin_act-IsConsistent get_user s l h =
      fetch_user_at-IsConsistent js (admin_app base_url) net keys_differ _ s h
  admin_act-IsConsistent forget_error s l h =
      clear_error-IsConsistent js (admin_app base_url) net s h

  admin_acts-IsConsistent :
      (actions : List AdminAction) (s : AuthState)
      → IssuesText js
          (admin_app base_url)
          net
          (build_url js (admin_app base_url) net "/api/admin/v1/auth/login")
      → IsConsistent js (admin_app base_url) net s
      → IsConsistent js (admin_app base_url) net (admin_acts actions s)
  unfolding admin_acts
  admin_acts-IsConsistent [] s l h = h
  admin_acts-IsConsistent (a ∷ later) s l h =
      admin_acts-IsConsistent later (admin_act a s) l (admin_act-IsConsistent a s l h)

  -- From a fresh page of the administration, whatever the actions and the server's answers, as long as
  -- the tokens that a login issues are texts: the client and the storage hold the same access token,
  -- nothing is loading between actions, and no user is known while nobody is logged in.
  pub admin_new_store-acts-IsConsistent :
      (st : Storage) (now : ℕ) (actions : List AdminAction)
      → IssuesText js
          (admin_app base_url)
          net
          (build_url js (admin_app base_url) net "/api/admin/v1/auth/login")
      → IsConsistent js (admin_app base_url) net (admin_acts actions (admin_new_store st now))
  unfolding admin_new_store
  admin_new_store-acts-IsConsistent st now actions l =
      admin_acts-IsConsistent actions _ l
        (new_store-IsConsistent js (admin_app base_url) net "operator" st now)
