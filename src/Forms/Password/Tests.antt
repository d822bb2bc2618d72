-- ===== src/Forms/Password/Tests.antt =====
-- Runs of the reset.
use omni_tun.Prelude.{true, false, ◌≡◌, ◌⊎◌, ◌↔◌, refl, none, List, []}
use omni_tun.Js.Sample.{sample_js}
use omni_tun.Api.{Request, Reply, response, unreadable}
use omni_tun.Forms.Password.Defs.{Sending, ResetForm, reset_request, handle_reset, failure_message}
use omni_tun.Forms.Password.Outcomes.{IsSettled, IsLongEnough, IsAcceptable, handle_reset-IsSettled}

-- Every call is answered by 204.
abbrev accepts : List Request → Request → Reply
accepts sent req =
    response (record { status = 204; status_text = "No Content"; body = unreadable "empty" })

abbrev typed_twice : ResetForm
typed_twice = record {
  new_password = "Secret-1";
  confirm_password = "Secret-1";
  validation = record { password = none; confirm = none };
  sending = record { error = none; success = false; is_loading = false; sent = [] };
}

reset_succeeds : (handle_reset sample_js accepts "t" typed_twice).sending.success ≡ true
unfolding handle_reset omni_tun.Forms.Password.Defs.send_form
    omni_tun.Forms.Password.Defs.reset_is_valid omni_tun.Forms.Password.Defs.reset_errors
    omni_tun.Forms.is_blank omni_tun.Forms.text_length
reset_succeeds = refl

handle_reset-IsSettled_example :
    (((handle_reset sample_js accepts "t" typed_twice).validation.password ≡ none)
      ↔ IsLongEnough typed_twice.new_password)
    × (((handle_reset sample_js accepts "t" typed_twice).validation.confirm ≡ none)
        ↔ (typed_twice.new_password ≡ typed_twice.confirm_password))
    × ((IsAcceptable typed_twice
          × IsSettled accepts
              (reset_request sample_js accepts "t" typed_twice)
              typed_twice.sending
              (handle_reset sample_js accepts "t" typed_twice).sending)
        ⊎ (¬ IsAcceptable typed_twice
            × ((handle_reset sample_js accepts "t" typed_twice).sending
                ≡ record typed_twice.sending { error = none })))
handle_reset-IsSettled_example = handle_reset-IsSettled sample_js accepts "t" typed_twice
