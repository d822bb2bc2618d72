-- ===== src/Forms/Tests.antt =====
-- Runs of the forms against small servers.
use omni_tun.Prelude.{true, false, ◌≡◌, ◌≢◌, refl, none, List, [], length, ap, arith}
use omni_tun.Js.{null, str, obj, entry, no_entries, own, prop, has, truthy, coalesce, or_else}
use omni_tun.Js.Sample.{sample_js}
use omni_tun.Token.{get_access_token}
use omni_tun.Api.{
  Request, Response, Reply, response, parsed, App, web_app, request, load_token, fetch, on_response,
  finish, error_of, error_in, Thrown, api_error, throw,
}
use omni_tun.Store.{
  AuthState, login, register, authenticate, sign_in, login_error, clear_error, read_or, code_of,
  session_of,
}
use omni_tun.Forms.{
  RegisterForm, LoginForm, is_email, is_blank, text_length, strong, get_strength, register_errors,
  register_is_valid, login_is_valid, handle_register, is_code,
}

abbrev app : App
app = web_app ""

abbrev asks_code : Response
asks_code = record {
  status = 403;
  status_text = "Forbidden";
  body = parsed (
      obj (
        entry "error"
          (obj
            (entry "code" (str "mfa_required") (entry "message" (str "code, please") no_entries)))
          no_entries));
}

abbrev asks : List Request → Request → Reply
asks sent req = response asks_code

abbrev start : AuthState
start = record {
  api = record { token = null; storage = []; sent = [] };
  user = null;
  is_logged_in = false;
  is_loading = false;
  error = null;
}

abbrev newcomer : RegisterForm
newcomer = record {
  name = "Ann";
  email = "ann@example.com";
  password = "Secret-1";
  confirm_password = "Secret-1";
}

abbrev member : LoginForm
member = record {
  email = "ann@example.com";
  password = "Secret-1";
  mfa_required = false;
  mfa_code = "";
}

email_needs_dot : is_email "ann@example." ≡ false
unfolding is_email
email_needs_dot = refl

email_needs_one_at : is_email "ann@b@example.com" ≡ false
unfolding is_email
email_needs_one_at = refl

four_points : get_strength "Secret-1" ≡ strong
unfolding get_strength text_length
four_points = refl

one_request : length (handle_register sample_js app asks newcomer start).0.api.sent ≡ 1
unfolding handle_register register_is_valid register_errors is_email is_blank text_length register
    authenticate request load_token fetch on_response finish truthy get_access_token clear_error
    sign_in session_of
one_request = refl

registration_sent : (handle_register sample_js app asks newcomer start).0.api ≢ start.api
registration_sent e = omega (arith, one_request, ap (λ w. length w.sent) e)

abbrev code_wanted : Thrown
code_wanted = login_error (api_error (error_of asks_code))

code_asked :
    (login sample_js app asks "ann@example.com" "Secret-1" none
      (clear_error sample_js app asks start)).0
    ≡ throw code_wanted
unfolding login authenticate request load_token fetch on_response finish truthy get_access_token
    clear_error sign_in session_of
code_asked = refl

member_is_valid : login_is_valid member ≡ true
unfolding login_is_valid is_email is_blank
member_is_valid = refl

code_read : is_code "mfa_required" (code_of code_wanted) ≡ true
unfolding code_of login_error read_or error_of error_in own prop has or_else coalesce truthy
code_read = refl
