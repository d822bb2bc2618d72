-- ===== src/Forms/Password/Outcomes.antt =====
-- When the reset of a password counts as done.
use omni_tun.Prelude.{
  ◌≤◌, String, true, false, not, ◌==◌, ◌≡◌, refl, ◌⊎◌, ◌↔◌, none, some, List, ◌∷◌, arith, eq_iff,
  Bool-cases, inl, inr,
}
use omni_tun.Js.Env.{Js}
use omni_tun.Api.{Request, Reply, rejected, response, Response, is_ok}
use omni_tun.Forms.Defs.{password_error, error_if}
use omni_tun.Forms.Checks.{is_blank, text_length}
use omni_tun.Forms.Password.Defs.{
  Sending, ResetForm, replied, send_form, reset_errors, reset_is_valid, reset_request, handle_reset,
}

-- A 2xx response.
abbrev pub IsAccepted : Reply → Type 0
IsAccepted reply = (res : Response) × (reply ≡ response res) × (is_ok res ≡ true)

-- The call was sent once, with this request, and either it was accepted, or an error is shown.
abbrev pub IsSettled : (List Request → Request → Reply) → Request → Sending → Sending → Type 0
IsSettled net req before after =
    (after.sent ≡ req ∷ before.sent)
    × (after.is_loading ≡ false)
    × ((IsAccepted (net before.sent req) × (after.success ≡ true) × (after.error ≡ none))
        ⊎ ((message : String) × (after.success ≡ before.success) × (after.error ≡ some message)))

replied-IsSettled :
    (js : Js) (net : List Request → Request → Reply) (req : Request) (s : Sending) (reply : Reply)
    → net s.sent req ≡ reply
    → IsSettled net req s
        (replied js reply (record s { error = none; is_loading = true; sent = req ∷ s.sent }))
replied-IsSettled js net req s (rejected message) e = (refl, refl, inr (message, refl, refl))
replied-IsSettled js net req s (response res) e = elim (Bool-cases (is_ok res)) [
  | inl accepted ↦ rw accepted (refl, refl, inl ((res, e, accepted), refl, refl))
  | inr refused ↦ rw refused (refl, refl, inr (_, refl, refl))
]

-- A new password that is not blank and has eight characters or more.
abbrev pub IsLongEnough : String → Type 0
IsLongEnough password = (is_blank password ≡ false) × (8 ≤ text_length password)

password_error_iff :
    (rule password : String) → (password_error rule password ≡ none) ↔ IsLongEnough password
password_error_iff rule password =
    (λ e. (ground (arith, e), ground (arith, e)), λ (filled, long). ground (arith, filled, long))

confirm_error_iff :
    (key password confirm : String)
    → (error_if (not (password == confirm)) key ≡ none) ↔ (password ≡ confirm)
confirm_error_iff key password confirm =
    let same = eq_iff password confirm in
    (λ e. same.0 (ground (arith, e)), λ e. ground (arith, same.1 e))

-- What is typed passes both checks.
abbrev pub IsAcceptable : ResetForm → Type 0
IsAcceptable f = IsLongEnough f.new_password × (f.new_password ≡ f.confirm_password)

reset_is_valid_iff : (f : ResetForm) → (reset_is_valid f ≡ true) ↔ IsAcceptable f
unfolding reset_is_valid reset_errors
reset_is_valid_iff f =
    let password = password_error_iff "auth.reset.password_rule" f.new_password in
    let confirm =
      confirm_error_iff "auth.reset.password_mismatch" f.new_password f.confirm_password in
    (
      λ e. (password.0 (ground (arith, e)), confirm.0 (ground (arith, e))),
      λ (long, same). ground (arith, password.1 long, confirm.1 same),
    )

-- The form shows an error at the password exactly if it is blank or has fewer than eight characters, and
-- at the repetition exactly if it differs. If both are right, one call with the password is sent, which
-- the server accepts or which leaves an error; otherwise nothing is sent and an earlier error of a call
-- is cleared.
pub handle_reset-IsSettled :
    (js : Js) (net : List Request → Request → Reply) (token : String) (f : ResetForm)
    → (((handle_reset js net token f).validation.password ≡ none) ↔ IsLongEnough f.new_password)
      × (((handle_reset js net token f).validation.confirm ≡ none)
          ↔ (f.new_password ≡ f.confirm_password))
      × ((IsAcceptable f
            × IsSettled net
                (reset_request js net token f)
                f.sending
                (handle_reset js net token f).sending)
          ⊎ (¬ IsAcceptable f
              × ((handle_reset js net token f).sending ≡ record f.sending { error = none })))
unfolding handle_reset send_form reset_errors
handle_reset-IsSettled js net token f = elim (Bool-cases (reset_is_valid f)) [
  | inr wrong ↦ rw wrong (
    password_error_iff _ _,
    confirm_error_iff _ _ _,
    inr (λ acceptable. cc (wrong, (reset_is_valid_iff f).1 acceptable), refl),
  )
  | inl valid ↦
      let req = reset_request js net token f in
      let settled = replied-IsSettled js net req f.sending (net f.sending.sent req) refl in
      rw valid (
        password_error_iff _ _,
        confirm_error_iff _ _ _,
        inl ((reset_is_valid_iff f).0 valid, settled),
      )
]
