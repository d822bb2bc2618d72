-- ===== src/Forms/Password/Defs.antt =====
-- The two forms, their checks, and their submission.
use omni_tun.Prelude.{
  String, Bool, true, false, not, ◌&&◌, Option, none, some, List, [], ◌∷◌, ◌==◌, if◌then◌else◌,
}
use omni_tun.Js.{Value, undefined, str, obj, Entries, entry, no_entries, prop, or_else}
use omni_tun.Js.Env.{Js, text_of}
use omni_tun.Api.{Request, Reply, rejected, response, Response, parsed, unreadable, is_ok}
use omni_tun.Forms.Defs.{password_error, email_error, error_if, is_none}

-- What both forms show of their call: the message of an error and the success; `sent` has the requests,
-- the latest first.
pub record Sending : Type 0 where
  pub error : Option String
  pub success : Bool
  pub is_loading : Bool
  pub sent : List Request

-- What `validate` finds wrong with a new password and its repetition.
pub record ResetErrors : Type 0 where
  pub password : Option String
  pub confirm : Option String

pub record ResetForm : Type 0 where
  pub new_password : String
  pub confirm_password : String
  pub validation : ResetErrors
  pub sending : Sending

pub record ForgotForm : Type 0 where
  pub email : String
  pub validation : Option String
  pub sending : Sending

-- `v?.k`
abbrev pub optional : Value → String → Value
optional v k = elim (prop v k) [ none ↦ undefined | some w ↦ w ]

-- `res.json().catch(() => ({}))`
abbrev pub body_or_empty : Response → Value
body_or_empty res = elim res.body [ parsed v ↦ v | unreadable message ↦ obj no_entries ]

-- `body?.error?.message || body?.message || 'Request failed'`, as the message of an `Error`.
unfoldable pub failure_message : Js → Response → String
failure_message js res =
    let body = body_or_empty res in
    text_of js (
      or_else (optional (optional body "error") "message")
        (or_else (optional body "message") (str "Request failed")))

abbrev pub post_json : Js → String → Entries → Request
post_json js url body = record {
  url = url;
  method = some "POST";
  headers = ("Content-Type", "application/json") ∷ [];
  body = some (js.stringify (obj body));
}

-- The end of the call, with the `finally`.
abbrev pub replied : Js → Reply → Sending → Sending
replied js (rejected message) s = record s { error = some message; is_loading = false }
replied js (response res) s =
    if is_ok res
    then record s { success = true; is_loading = false }
    else record s { error = some (failure_message js res); is_loading = false }

-- The token of the address, where it is one; without it the page shows no form.
abbrev pub token_of : Option String → Option String
token_of none = none
token_of (some token) = if token == "" then none else some token

-- The errors that `validate` shows, and whether it finds none.
unfoldable pub reset_errors : ResetForm → ResetErrors
reset_errors f = record {
  password = password_error "auth.reset.password_rule" f.new_password;
  confirm = error_if (not (f.new_password == f.confirm_password)) "auth.reset.password_mismatch";
}

unfoldable pub reset_is_valid : ResetForm → Bool
reset_is_valid f = let errs = reset_errors f in is_none errs.password && is_none errs.confirm

unfoldable pub forgot_errors : ForgotForm → Option String
forgot_errors f = email_error "auth.forgot.email_required" "auth.forgot.invalid_email" f.email

module _ (js : Js) (net : List Request → Request → Reply) where
  unfoldable pub send_form : Request → Sending → Sending
  send_form req s =
      replied js (net s.sent req)
        (record s { error = none; is_loading = true; sent = req ∷ s.sent })

  abbrev pub reset_request : String → ResetForm → Request
  reset_request token f =
      post_json js "/v1/auth/password/reset"
        (entry "token" (str token) (entry "new_password" (str f.new_password) no_entries))

  unfoldable pub handle_reset : String → ResetForm → ResetForm
  handle_reset token f =
      let f' = record f {
        validation = reset_errors f;
        sending = record f.sending { error = none };
      } in
      if reset_is_valid f
      then record f' { sending = send_form (reset_request token f) f'.sending }
      else f'

  abbrev pub forgot_request : ForgotForm → Request
  forgot_request f =
      post_json js "/v1/auth/password/forgot" (entry "email" (str f.email) no_entries)

  unfoldable pub handle_forgot : ForgotForm → ForgotForm
  handle_forgot f =
      let f' = record f {
        validation = forgot_errors f;
        sending = record f.sending { error = none };
      } in
      if is_none (forgot_errors f)
      then record f' { sending = send_form (forgot_request f) f'.sending }
      else f'
