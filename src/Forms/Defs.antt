-- ===== src/Forms/Defs.antt =====
-- The forms over the auth store. An error is the translation key of its message.
use omni_tun.Prelude.{
  String, Bool, true, false, not, ◌&&◌, Option, none, some, List, ◌==◌, ltb, nat_eq, if◌then◌else◌,
}
use omni_tun.Js.{Value, str}
use omni_tun.Js.Env.{Js}
use omni_tun.Api.{Request, Reply, Result, ok, throw, App}
use omni_tun.Store.{AuthState, login, register, clear_error, code_of}
use omni_tun.Store.Admin.{admin_login}
use omni_tun.Forms.Checks.{is_blank, is_email, text_length}

pub record RegisterForm : Type 0 where
  pub name : String
  pub email : String
  pub password : String
  pub confirm_password : String

pub record RegisterErrors : Type 0 where
  pub name : Option String
  pub email : Option String
  pub password : Option String
  pub confirm : Option String

abbrev pub error_if : Bool → String → Option String
error_if wrong key = if wrong then some key else none

-- The first of two errors.
abbrev pub or_error : Option String → Option String → Option String
or_error none second = second
or_error (some key) second = some key

abbrev pub email_error : String → String → String → Option String
email_error required invalid email =
    or_error (error_if (is_blank email) required) (error_if (not (is_email email)) invalid)

-- A new password and its repetition.
abbrev pub password_error : String → String → Option String
password_error rule password =
    or_error (error_if (is_blank password) "auth.login.password_required")
      (error_if (ltb (text_length password) 8) rule)

unfoldable pub register_errors : RegisterForm → RegisterErrors
register_errors f = record {
  name = error_if (is_blank f.name) "auth.register.name_required";
  email = email_error "auth.register.email_required" "auth.register.invalid_email" f.email;
  password = password_error "auth.register.password_rule" f.password;
  confirm = error_if (not (f.password == f.confirm_password)) "auth.register.password_mismatch";
}

abbrev pub is_none : Option String → Bool
is_none none = true
is_none (some key) = false

-- `validate`
unfoldable pub register_is_valid : RegisterForm → Bool
register_is_valid f =
    let errs = register_errors f in
    is_none errs.name && is_none errs.email && is_none errs.password && is_none errs.confirm

pub record LoginForm : Type 0 where
  pub email : String
  pub password : String
  pub mfa_required : Bool
  pub mfa_code : String

unfoldable pub login_is_valid : LoginForm → Bool
login_is_valid f =
    if f.mfa_required
    then not (is_blank f.mfa_code) && nat_eq (text_length f.mfa_code) 6
    else is_none (email_error "auth.login.email_required" "auth.login.invalid_email" f.email)
      && not (is_blank f.password)

-- The path that the page goes to, if any.
abbrev pub Destination : Type 0
Destination = Option String

-- `const code = err && typeof err === 'object' && 'code' in err ? … : ''`, `code === 'mfa_required'`
abbrev pub is_code : String → Value → Bool
is_code wanted (str code) = code == wanted
is_code wanted v = false

module _ (js : Js) (app : App) (net : List Request → Request → Reply) where
  abbrev pub registered : Result (Unit {0}) × AuthState → AuthState × Destination
  registered (ok u, s) = (s, some "/onboarding")
  registered (throw e, s) = (s, none)

  -- `handleSubmit` of the registration.
  unfoldable pub handle_register : RegisterForm → AuthState → AuthState × Destination
  handle_register f s =
      if register_is_valid f
      then registered (register js app net f.email f.password f.name (clear_error js app net s))
      else (clear_error js app net s, none)

  abbrev pub logged_in :
      LoginForm → Result (Unit {0}) × AuthState → LoginForm × AuthState × Destination
  logged_in f (ok u, s) = (f, s, some "/")
  logged_in f (throw e, s) =
      if is_code "mfa_required" (code_of e)
      then (record f { mfa_required = true }, clear_error js app net s, none)
      else (f, s, none)

  -- `handleSubmit` of the login.
  unfoldable pub handle_login : LoginForm → AuthState → LoginForm × AuthState × Destination
  handle_login f s =
      if login_is_valid f
      then logged_in f (
          login js app net f.email f.password (if f.mfa_required then some f.mfa_code else none)
            (clear_error js app net s))
      else (f, clear_error js app net s, none)

  abbrev pub admin_logged_in : Result (Unit {0}) × AuthState → AuthState × Destination
  admin_logged_in (ok u, s) = (s, some "/")
  admin_logged_in (throw e, s) = (s, none)

  -- The form of the administration, which asks for no code.
  unfoldable pub handle_admin_login : String → String → String → AuthState → AuthState × Destination
  handle_admin_login base_url email password s =
      if is_none (email_error "auth.login.emailRequired" "auth.login.invalidEmail" email)
        && not (is_blank password)
      then admin_logged_in (admin_login js base_url net email password (clear_error js app net s))
      else (clear_error js app net s, none)
