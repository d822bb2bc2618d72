-- ===== src/Pages/Billing.antt =====
-- web/src/pages/Billing.tsx: the buttons of the plans and the checkout.
use Prim.Native.String
use omni_tun.Prelude.{
  String, Bool, false, Option, none, some, List, [], ◌∷◌, ◌==◌, if◌then◌else◌, ◌≡◌, refl, ap, sym,
  eq_iff, Bool-cases, inl, inr,
}
use omni_tun.Js.{Value, str, prop, Entries, entry, no_entries}
use omni_tun.Js.Env.{Js}
use omni_tun.Api.{Request, Reply, Result, ok, throw, App, World, request}
use omni_tun.Queries.{Queries, plain, with_body, send_mutation}

-- Where the browser is, and the toasts, as translation keys, the latest first.
pub record Billing : Type 0 where
  pub location : String
  pub toasts : List String
  pub queries : Queries

-- The plan that a button asks for.
pub data PlanButton : Type 0 where
  no_button downgrade : PlanButton
  upgrade : String → PlanButton

abbrev pub is_current : Option String → String → Bool
is_current none id = false
is_current (some current) id = id == current

unfoldable pub plan_button : Option String → String → PlanButton
plan_button current id =
    if is_current current id then no_button else if id == "free" then downgrade else upgrade id

-- `origin` is `window.location.origin`.
abbrev pub checkout_entries : String → String → Entries
checkout_entries origin plan_id = entry "plan_id" (str plan_id) (
    entry "success_url" (str (String.◌++◌ origin "/billing?success=true"))
      (entry "cancel_url" (str (String.◌++◌ origin "/billing?canceled=true")) no_entries))

abbrev pub checkout_failed : Billing → Billing
checkout_failed s = record s { toasts = "billing.checkout_failed" ∷ s.toasts }

-- `if (data.url)`; the property is a text where the server gives it.
abbrev pub redirected : Value → Billing → Billing
redirected (str url) s = if url == "" then s else record s { location = url }
redirected _ s = s

-- Where reading `data.url` throws, the library calls `onError`.
abbrev pub checked_out : Result Value → Billing → Billing
checked_out (ok v) s = elim (prop v "url") [
  | none ↦ checkout_failed s
  | some url ↦ redirected url s
]
checked_out (throw e) s = checkout_failed s

module _ (js : Js) (app : App) (net : List Request → Request → Reply) where
  unfoldable pub checkout : String → String → Billing → Billing
  checkout origin plan_id s =
      let (result, q) =
        send_mutation js app net "/v1/billing/checkout"
          (with_body js "POST" (checkout_entries origin plan_id)) [] s.queries in
      checked_out result (record s { queries = q })

  unfoldable pub click_plan : String → PlanButton → Billing → Billing
  click_plan origin no_button s = s
  click_plan origin downgrade s = checkout origin "free" s
  click_plan origin (upgrade id) s = checkout origin id s

  unfoldable pub query_plan : World → Result Value × World
  query_plan w = request js app net "/v1/billing/plan" plain w

  unfoldable pub query_usage : World → Result Value × World
  query_usage w = request js app net "/v1/billing/usage" plain w

  unfoldable pub query_bills : World → Result Value × World
  query_bills w = request js app net "/v1/billing/invoices" plain w

-- The button of a plan that is not the current one asks for that plan.
pub click_plan_lem :
    (js : Js) (app : App) (net : List Request → Request → Reply) (origin : String)
    (current : Option String) (id : String) (s : Billing)
    → click_plan js app net origin (plan_button current id) s
      ≡ (if is_current current id then s else checkout js app net origin id s)
unfolding click_plan plan_button
click_plan_lem js app net origin current id s = elim (Bool-cases (is_current current id)) [
  | inl own_plan ↦ rw own_plan refl
  | inr other ↦ elim (Bool-cases (id == "free")) [
    | inl free ↦
        rw (other, free)
          (ap (λ p. checkout js app net origin p s) (sym ((eq_iff id "free").0 free)))
    | inr paid ↦ rw (other, paid) refl
  ]
]
