-- ===== src/Forms/Submitting.antt =====
-- What is submitted.
use omni_tun.Prelude.{
  ◌≤◌, true, false, ◌≡◌, refl, ◌≢◌, List, arith, Bool-cases, inl, inr, eq_iff, none,
}
use omni_tun.Js.{null}
use omni_tun.Js.Env.{Js}
use omni_tun.Api.{Request, Reply, Result, throw, Thrown, App}
use omni_tun.Store.{AuthState, login, clear_error, code_of}
use omni_tun.Forms.Checks.{is_blank, is_email, text_length}
use omni_tun.Forms.Defs.{
  RegisterForm, LoginForm, register_errors, register_is_valid, login_is_valid, handle_register,
  handle_login, logged_in, is_code,
}

-- A name, an address, and a password of eight characters that is typed twice.
pub record IsComplete (f : RegisterForm) : Type 0 where
  pub named : is_blank f.name ≡ false
  pub addressed : is_email f.email ≡ true
  pub long : 8 ≤ text_length f.password
  pub repeated : f.password ≡ f.confirm_password

register_is_valid-IsComplete : (f : RegisterForm) → register_is_valid f ≡ true → IsComplete f
unfolding register_is_valid register_errors
register_is_valid-IsComplete f h = record {
  named = ground (arith, h);
  addressed = ground (arith, h);
  long = ground (arith, h);
  repeated = (eq_iff f.password f.confirm_password).0 (ground (arith, h));
}

module _ (js : Js) (app : App) (net : List Request → Request → Reply) where
  -- A registration changes the API client, and so sends anything, only with a name, an address, and a
  -- password of at least eight characters that is typed twice.
  pub handle_register-IsComplete :
      (f : RegisterForm) (s : AuthState)
      → (handle_register js app net f s).0.api ≢ s.api
      → IsComplete f
  unfolding handle_register clear_error
  handle_register-IsComplete f s sent = elim (Bool-cases (register_is_valid f)) [
    | inl valid ↦ register_is_valid-IsComplete f valid
    | inr wrong ↦ absurd (sent (ground (arith, wrong)))
  ]

  logged_in-mfa :
      (f : LoginForm) (r : Result (Unit {0}) × AuthState) (e : Thrown)
      → r.0 ≡ throw e
      → is_code "mfa_required" (code_of e) ≡ true
      → ((logged_in js app net f r).0.mfa_required ≡ true)
        × ((logged_in js app net f r).1.error ≡ null)
        × ((logged_in js app net f r).2 ≡ none)
  unfolding clear_error
  logged_in-mfa f (r, s) e thrown code = rw (thrown, code) (refl, refl, refl)

  -- A login that the server answers with `mfa_required` makes the form ask for the code, without an
  -- error and without leaving the page.
  pub handle_login-mfa :
      (f : LoginForm) (s : AuthState) (e : Thrown)
      → login_is_valid f ≡ true
      → f.mfa_required ≡ false
      → (login js app net f.email f.password none (clear_error js app net s)).0 ≡ throw e
      → is_code "mfa_required" (code_of e) ≡ true
      → ((handle_login js app net f s).0.mfa_required ≡ true)
        × ((handle_login js app net f s).1.error ≡ null)
        × ((handle_login js app net f s).2 ≡ none)
  unfolding handle_login clear_error
  handle_login-mfa f s e valid first thrown code =
      rw (valid, first)
        (logged_in-mfa (record f { mfa_required = false })
          (login js app net f.email f.password none (clear_error js app net s)) e thrown code)
