-- ===== src/Admin/Discounts/Defs.antt =====
-- The form, its submission, the switch of a discount, and the deletion. Amounts are whole numbers.
use Prim.Native.String
use omni_tun.Prelude.{
  ℤ, pos, negsuc, zero, suc, String, Bool, true, false, not, ◌||◌, Option, none, some, List, [],
  ◌∷◌, ◌==◌, if◌then◌else◌,
}
use omni_tun.Js.{Value, undefined, bool, num, str, Entries, entry, no_entries}
use omni_tun.Js.Env.{Js}
use omni_tun.Api.{Request, Options, Reply, Result, ok, throw, App}
use omni_tun.Queries.{Queries, bare, with_body, send_mutation}
use omni_tun.Forms.{is_blank}
use omni_tun.Palette.{take_text}

pub data DiscountType : Type 0 where
  percentage fixed : DiscountType

abbrev pub discount_type_text : DiscountType → String
discount_type_text percentage = "percentage"
discount_type_text fixed = "fixed"

pub record DiscountForm : Type 0 where
  pub code_text : String
  pub kind : DiscountType
  pub value : ℤ
  pub max_uses : ℤ
  pub expires_at : String
  pub applicable_plans : String

pub record DiscountCode : Type 0 where
  pub id : String
  pub code_text : String
  pub kind : DiscountType
  pub value : ℤ
  pub max_uses : ℤ
  pub active : Bool
  pub expires_at : String
  pub applicable_plans : String

-- `editing` is the id of the discount that the form is about.
pub record DiscountCodes : Type 0 where
  pub show_form : Bool
  pub editing : Option String
  pub form : DiscountForm
  pub queries : Queries

abbrev pub new_discount : DiscountForm
new_discount = record {
  code_text = "";
  kind = percentage;
  value = pos 0;
  max_uses = pos 0;
  expires_at = "";
  applicable_plans = "";
}

unfoldable pub reset_discount : DiscountCodes → DiscountCodes
reset_discount s = record s { show_form = false; editing = none; form = new_discount }

unfoldable pub create_discount : DiscountCodes → DiscountCodes
create_discount s = record (reset_discount (record s { editing = none })) { show_form = true }

-- `to_iso` is `new Date(…).toISOString()`.
unfoldable pub edit_discount : (String → String) → DiscountCode → DiscountCodes → DiscountCodes
edit_discount to_iso d s = record s {
  editing = some d.id;
  form = record {
    code_text = d.code_text;
    kind = d.kind;
    value = d.value;
    max_uses = d.max_uses;
    expires_at = if d.expires_at == "" then "" else take_text 16 (to_iso d.expires_at);
    applicable_plans = d.applicable_plans;
  };
  show_form = true;
}

abbrev pub discounts_path : String
discounts_path = "/api/admin/v1/discounts"

abbrev pub discount_path : String → String
discount_path id = String.◌++◌ discounts_path (String.◌++◌ "/" id)

abbrev pub discounts_key : List String
discounts_key = "admin" ∷ "discounts" ∷ []

abbrev pub discount_entries : DiscountForm → Entries
discount_entries f = entry "code" (str f.code_text) (
    entry "type" (str (discount_type_text f.kind)) (
      entry "value" (num f.value) (
        entry "max_uses" (num f.max_uses) (
          entry "expires_at" (str f.expires_at)
            (entry "applicable_plans" (str f.applicable_plans) no_entries)))))

-- `n <= 0`
abbrev pub is_not_positive : ℤ → Bool
is_not_positive (pos zero) = true
is_not_positive (pos (suc n)) = false
is_not_positive (negsuc n) = true

module _ (js : Js) (app : App) (net : List Request → Request → Reply) where
  abbrev pub discount_sent : Result Value → DiscountCodes → DiscountCodes
  discount_sent (ok v) s = reset_discount s
  discount_sent (throw e) s = s

  abbrev pub send_discount : String → Options → DiscountCodes → DiscountCodes
  send_discount path options s =
      let (result, q) = send_mutation js app net path options (discounts_key ∷ []) s.queries in
      discount_sent result (record s { queries = q })

  abbrev pub update_discount : String → Entries → DiscountCodes → DiscountCodes
  update_discount id changes s = send_discount (discount_path id) (with_body js "PUT" changes) s

  -- An empty id counts as none.
  abbrev pub submit_call : Option String → DiscountCodes → DiscountCodes
  submit_call none s =
      send_discount discounts_path (with_body js "POST" (discount_entries s.form)) s
  submit_call (some id) s =
      if id == ""
      then send_discount discounts_path (with_body js "POST" (discount_entries s.form)) s
      else update_discount id (entry "active" undefined (discount_entries s.form)) s

  unfoldable pub submit_discount : DiscountCodes → DiscountCodes
  submit_discount s =
      if is_blank s.form.code_text || is_not_positive s.form.value
      then s
      else submit_call s.editing s

  unfoldable pub toggle_discount : DiscountCode → DiscountCodes → DiscountCodes
  toggle_discount d s = update_discount d.id (entry "active" (bool (not d.active)) no_entries) s

  unfoldable pub delete_discount : String → DiscountCodes → DiscountCodes
  delete_discount id s = record s {
    queries =
        (send_mutation js app net (discount_path id) (bare "DELETE") (discounts_key ∷ [])
          s.queries).1;
  }
