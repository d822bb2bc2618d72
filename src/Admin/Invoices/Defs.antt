-- ===== src/Admin/Invoices/Defs.antt =====
-- The page, and its calls.
use Prim.Native.String
use omni_tun.Prelude.{
  String, Bool, true, false, not, ◌&&◌, Option, none, some, List, [], ◌∷◌, ◌++◌, ◌==◌,
  if◌then◌else◌,
}
use omni_tun.Js.{Value, null}
use omni_tun.Js.Env.{Js}
use omni_tun.Api.{Request, Reply, Result, ok, throw, App, World, request}
use omni_tun.Queries.{Queries, plain, bare, send_mutation}
use omni_tun.Admin.AuditLogs.{param_if}

-- `detailData` is what the server gave, which nothing checks.
pub record Invoices : Type 0 where
  pub search : String
  pub status_filter : String
  pub expanded_id : Option String
  pub detail_data : Value
  pub detail_loading : Bool
  pub queries : Queries

unfoldable pub new_invoices : Queries → Invoices
new_invoices q = record {
  search = "";
  status_filter = "";
  expanded_id = none;
  detail_data = null;
  detail_loading = false;
  queries = q;
}

abbrev pub invoices_key : List String
invoices_key = "admin" ∷ "invoices" ∷ []

abbrev pub invoice_path : String → String → String
invoice_path id rest = String.◌++◌ "/api/admin/v1/invoices/" (String.◌++◌ id rest)

unfoldable pub invoice_params : Invoices → List (String × String)
invoice_params s = param_if "status" s.status_filter ++ param_if "customer" s.search

-- `setExpandedId(null); setDetailData(null)`
abbrev pub collapsed : Invoices → Invoices
collapsed s = record s { expanded_id = none; detail_data = null }

abbrev pub is_expanded : String → Invoices → Bool
is_expanded id s = elim s.expanded_id [ none ↦ false | some open_id ↦ open_id == id ]

-- `loadDetail` up to its call, which follows unless the row was open.
unfoldable pub open_detail : String → Invoices → Invoices
open_detail id s =
    if is_expanded id s
    then collapsed s
    else record s { expanded_id = some id; detail_loading = true }

-- What follows the call, in whichever row by then.
unfoldable pub detail_replied : Result Value → Invoices → Invoices
detail_replied (ok v) s = record s { detail_data = v; detail_loading = false }
detail_replied (throw e) s = record s { detail_data = null; detail_loading = false }

-- The buttons that change an invoice are shown for these.
unfoldable pub may_change : String → Bool
may_change status = not (status == "paid") && not (status == "void")

abbrev pub changed : Result Value → Invoices → Invoices
changed (ok v) s = collapsed s
changed (throw e) s = s

module _ (js : Js) (app : App) (net : List Request → Request → Reply) where
  -- `encode` is `URLSearchParams.prototype.toString`.
  unfoldable pub query_invoices :
      (List (String × String) → String) → Invoices → World → Result Value × World
  query_invoices encode s w =
      request js app net (String.◌++◌ "/api/admin/v1/invoices?" (encode (invoice_params s))) plain w

  -- `loadDetail`, with nothing in between.
  unfoldable pub load_detail : String → Invoices → Invoices
  load_detail id s =
      let s' = open_detail id s in
      if is_expanded id s
      then s'
      else (let (result, w) = request js app net (invoice_path id "") plain s'.queries.api in
          detail_replied result (record s' { queries = record s'.queries { api = w } }))

  -- `markPaidMutation` and `voidMutation`.
  abbrev pub change_invoice : String → String → Invoices → Invoices
  change_invoice rest id s =
      let (result, q) =
        send_mutation js app net (invoice_path id rest) (bare "POST") (invoices_key ∷ [])
          s.queries in
      changed result (record s { queries = q })

  unfoldable pub mark_paid : String → Invoices → Invoices
  mark_paid = change_invoice "/mark-paid"

  unfoldable pub void_invoice : String → Invoices → Invoices
  void_invoice = change_invoice "/void"

  -- The buttons, with the answer to `window.confirm`.
  unfoldable pub click_mark_paid : Bool → String → Invoices → Invoices
  click_mark_paid confirmed id s = if confirmed then mark_paid id s else s

  unfoldable pub click_void : Bool → String → Invoices → Invoices
  click_void confirmed id s = if confirmed then void_invoice id s else s
