-- ===== src/Admin/Discounts/Editing.antt =====
-- What becomes of a form that is open for editing.
use omni_tun.Prelude.{String, false, not, ◌≡◌, refl, none, List, ◌∷◌, []}
use omni_tun.Js.{Value, bool, entry, no_entries}
use omni_tun.Js.Env.{Js}
use omni_tun.Api.{Request, Reply, Result, ok, throw, Thrown, App}
use omni_tun.Queries.{send_mutation, with_body}
use omni_tun.Admin.Discounts.Defs.{
  DiscountCode, DiscountCodes, new_discount, reset_discount, discount_sent, edit_discount,
  toggle_discount, discount_path, discounts_key,
}

-- The form is closed and empty, or as it was.
abbrev pub IsClosed : DiscountCodes → Type 0
IsClosed s = (s.show_form ≡ false) × (s.editing ≡ none) × (s.form ≡ new_discount)

abbrev pub IsOpenAs : DiscountCodes → DiscountCodes → Type 0
IsOpenAs s t = (t.show_form ≡ s.show_form) × (t.editing ≡ s.editing) × (t.form ≡ s.form)

module _ (js : Js) (app : App) (net : List Request → Request → Reply) where
  -- What the call of the switch gives.
  abbrev pub switch_result : DiscountCode → DiscountCodes → Result Value
  switch_result d s =
      (send_mutation js app net (discount_path d.id)
        (with_body js "PUT" (entry "active" (bool (not d.active)) no_entries)) (discounts_key ∷ [])
        s.queries).0

  sent-IsClosed :
      (r : Result Value) (v : Value) (s : DiscountCodes)
      → r ≡ ok v
      → IsClosed (discount_sent js app net r s)
  unfolding reset_discount
  sent-IsClosed (ok w) v s e = (refl, refl, refl)
  sent-IsClosed (throw t) v s e = cc

  sent-IsOpenAs :
      (r : Result Value) (t : Thrown) (s : DiscountCodes)
      → r ≡ throw t
      → IsOpenAs s (discount_sent js app net r s)
  sent-IsOpenAs (ok w) t s e = cc
  sent-IsOpenAs (throw u) t s e = (refl, refl, refl)

  -- While one discount is being edited, a successful switch of any discount closes and empties the form;
  -- one that fails leaves it open as it was.
  pub edit_discount-toggle_discount :
      (to_iso : String → String) (edited switched : DiscountCode) (s : DiscountCodes)
      → let opened = edit_discount to_iso edited s in
        ((v : Value)
          → switch_result switched opened ≡ ok v
          → IsClosed (toggle_discount js app net switched opened))
        × ((t : Thrown)
            → switch_result switched opened ≡ throw t
            → IsOpenAs opened (toggle_discount js app net switched opened))
  unfolding toggle_discount
  edit_discount-toggle_discount to_iso edited switched s =
      let opened = edit_discount to_iso edited s in
      let result = switch_result switched opened in
      (λ v e. sent-IsClosed result v _ e, λ t e. sent-IsOpenAs result t _ e)
