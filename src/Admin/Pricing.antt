-- ===== src/Admin/Pricing.antt =====
-- admin/src/pages/PricingConfig.tsx: the plans, the form of one plan, and the call. Amounts are whole
-- numbers.
use omni_tun.Prelude.{
  ℕ, zero, suc, ℤ, String, Option, none, some, List, [], ◌∷◌, ◌++◌, ◌==◌, map, set, if◌then◌else◌,
}
use omni_tun.Js.{
  Value, num, str, arr, obj, Entries, entry, no_entries, Elements, element, no_elements,
}
use omni_tun.Js.Env.{Js}
use omni_tun.Api.{Request, Reply, Result, ok, throw, App}
use omni_tun.Queries.{Queries, with_body, send_mutation}

pub record PricingPlan : Type 0 where
  pub id : String
  pub name : String
  pub price_monthly_usd : ℤ
  pub max_tunnels : ℤ
  pub max_bandwidth_gb : ℤ
  pub features : List String

-- The plans that the query gave, if it did; `annual_discount` is in percent.
pub record PricingPage : Type 0 where
  pub plans : Option (List PricingPlan)
  pub edit_plan : Option PricingPlan
  pub annual_discount : ℤ
  pub edit_form : Option PricingPlan
  pub queries : Queries

unfoldable pub edit_pricing : PricingPlan → PricingPage → PricingPage
edit_pricing plan s = record s { edit_plan = some plan; edit_form = some plan }

unfoldable pub cancel_pricing : PricingPage → PricingPage
cancel_pricing s = record s { edit_plan = none; edit_form = none }

abbrev pub on_form : (List String → List String) → PricingPage → PricingPage
on_form change s = elim s.edit_form [
  | none ↦ s
  | some plan ↦ record s { edit_form = some (record plan { features = change plan.features }) }
]

-- The indices are those of the features shown.
unfoldable pub update_feature : ℕ → String → PricingPage → PricingPage
update_feature index value = on_form (λ features. set features index value)

unfoldable pub add_feature : PricingPage → PricingPage
add_feature = on_form (λ features. features ++ ("" ∷ []))

abbrev pub remove_at : ℕ → List String → List String
remove_at index [] = []
remove_at zero (x ∷ xs) = xs
remove_at (suc index) (x ∷ xs) = x ∷ remove_at index xs

unfoldable pub remove_feature : ℕ → PricingPage → PricingPage
remove_feature index = on_form (remove_at index)

-- The form in place of the plan with its id.
abbrev pub replace_plan : PricingPlan → PricingPlan → PricingPlan
replace_plan form p = if p.id == form.id then form else p

abbrev pub feature_texts : List String → Elements
feature_texts [] = no_elements
feature_texts (x ∷ xs) = element (str x) (feature_texts xs)

abbrev pub plan_value : PricingPlan → Value
plan_value p = obj (
    entry "id" (str p.id) (
      entry "name" (str p.name) (
        entry "price_monthly_usd" (num p.price_monthly_usd) (
          entry "max_tunnels" (num p.max_tunnels) (
            entry "max_bandwidth_gb" (num p.max_bandwidth_gb)
              (entry "features" (arr (feature_texts p.features)) no_entries))))))

abbrev pub plan_values : List PricingPlan → Elements
plan_values [] = no_elements
plan_values (p ∷ ps) = element (plan_value p) (plan_values ps)

module _ (js : Js) (app : App) (net : List Request → Request → Reply) where
  abbrev pub pricing_saved : Result Value → PricingPage → PricingPage
  pricing_saved (ok v) s = cancel_pricing s
  pricing_saved (throw e) s = s

  -- `fraction` is the discount, a hundredth of the percentage.
  abbrev pub pricing_entries : (ℤ → Value) → PricingPlan → List PricingPlan → ℤ → Entries
  pricing_entries fraction form plans discount =
      entry "plans" (arr (plan_values (map (replace_plan form) plans)))
        (entry "annual_discount" (fraction discount) no_entries)

  abbrev pub send_pricing : Entries → PricingPage → PricingPage
  send_pricing body s =
      let (result, q) =
        send_mutation js app net "/api/admin/v1/pricing" (with_body js "PUT" body)
          (("admin" ∷ "pricing" ∷ []) ∷ []) s.queries in
      pricing_saved result (record s { queries = q })

  unfoldable pub handle_save_pricing : (ℤ → Value) → PricingPage → PricingPage
  handle_save_pricing fraction s = elim s.edit_form [
    | none ↦ s
    | some form ↦ elim s.plans [
      | none ↦ s
      | some plans ↦ send_pricing (pricing_entries fraction form plans s.annual_discount) s
    ]
  ]
