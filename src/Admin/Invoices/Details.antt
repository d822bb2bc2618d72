-- ===== src/Admin/Invoices/Details.antt =====
-- Rows that are opened and invoices that are changed one after the other.
use omni_tun.Prelude.{
  String, Bool, true, false, ◌≡◌, refl, sym, subst, Option, none, some, List, [], ◌∷◌, inl, inr,
  Bool-cases,
}
use omni_tun.Js.{Value, null}
use omni_tun.Js.Env.{Js}
use omni_tun.Api.{Request, Reply, Result, ok, throw, App, World, request}
use omni_tun.Queries.{Queries, plain, bare, send_mutation}
use omni_tun.Admin.Invoices.Defs.{
  Invoices, new_invoices, invoices_key, invoice_path, is_expanded, open_detail, detail_replied,
  changed, load_detail, change_invoice, mark_paid, void_invoice, click_mark_paid, click_void,
}

-- What the user does; the answer to `window.confirm` comes with the click.
pub data InvoiceClick : Type 0 where
  row : String → InvoiceClick
  paid_button void_button : Bool → String → InvoiceClick
  types_search chooses_status : String → InvoiceClick

module _ (js : Js) (app : App) (net : List Request → Request → Reply) where
  abbrev pub click_invoice : InvoiceClick → Invoices → Invoices
  click_invoice (row id) s = load_detail js app net id s
  click_invoice (paid_button yes_ id) s = click_mark_paid js app net yes_ id s
  click_invoice (void_button yes_ id) s = click_void js app net yes_ id s
  click_invoice (types_search typed) s = record s { search = typed }
  click_invoice (chooses_status status) s = record s { status_filter = status }

  abbrev pub click_invoices : List InvoiceClick → Invoices → Invoices
  click_invoices [] s = s
  click_invoices (c ∷ cs) s = click_invoices cs (click_invoice c s)

  abbrev pub or_null : Result Value → Value
  or_null (ok v) = v
  or_null (throw e) = null

  -- Nothing is loading, and the detail is what a call for the open row gave; without an open row there
  -- is no detail.
  abbrev pub Own : Option String → Value → Type 0
  Own none detail = detail ≡ null
  Own (some id) detail =
      (w : World) × (detail ≡ or_null (request js app net (invoice_path id "") plain w).0)

  pub record IsOwn (s : Invoices) : Type 0 where
    pub settled : s.detail_loading ≡ false
    pub own : Own s.expanded_id s.detail_data

  replied-IsOwn :
      (id : String) (r : Result Value) (w : World) (s : Invoices)
      → s.expanded_id ≡ some id
      → or_null r ≡ or_null (request js app net (invoice_path id "") plain w).0
      → IsOwn (detail_replied r s)
  unfolding detail_replied
  replied-IsOwn id (ok v) w s open_ e = record {
    settled = refl;
    own = subst (λ o. Own o v) (sym open_) (w, e);
  }
  replied-IsOwn id (throw t) w s open_ e = record {
    settled = refl;
    own = subst (λ o. Own o null) (sym open_) (w, e);
  }

  load_detail-IsOwn : (id : String) (s : Invoices) → IsOwn s → IsOwn (load_detail js app net id s)
  unfolding load_detail open_detail
  load_detail-IsOwn id s h =
      let opened = record s { expanded_id = some id; detail_loading = true } in
      let call = request js app net (invoice_path id "") plain s.queries.api in
      elim (Bool-cases (is_expanded id s)) [
        | inl was ↦ rw (was, load_detail) (record { settled = h.settled; own = refl })
        | inr new ↦
            rw (new, load_detail)
              (replied-IsOwn id call.0 s.queries.api
                (record opened { queries = record s.queries { api = call.1 } }) refl refl)
      ]

  changed-IsOwn :
      (r : Result Value) (q : Queries) (s : Invoices)
      → IsOwn s
      → IsOwn (changed r (record s { queries = q }))
  changed-IsOwn (ok v) q s h = record { settled = h.settled; own = refl }
  changed-IsOwn (throw e) q s h = record { settled = h.settled; own = h.own }

  change_invoice-IsOwn :
      (rest id : String) (s : Invoices) → IsOwn s → IsOwn (change_invoice js app net rest id s)
  change_invoice-IsOwn rest id s h =
      let call =
        send_mutation js app net (invoice_path id rest) (bare "POST") (invoices_key ∷ [])
          s.queries in
      changed-IsOwn call.0 call.1 s h

  click_invoice-IsOwn : (c : InvoiceClick) (s : Invoices) → IsOwn s → IsOwn (click_invoice c s)
  unfolding click_mark_paid click_void mark_paid void_invoice
  click_invoice-IsOwn (row id) s h = load_detail-IsOwn id s h
  click_invoice-IsOwn (paid_button true id) s h = change_invoice-IsOwn "/mark-paid" id s h
  click_invoice-IsOwn (paid_button false id) s h = h
  click_invoice-IsOwn (void_button true id) s h = change_invoice-IsOwn "/void" id s h
  click_invoice-IsOwn (void_button false id) s h = h
  click_invoice-IsOwn (types_search typed) s h = record { settled = h.settled; own = h.own }
  click_invoice-IsOwn (chooses_status status) s h = record { settled = h.settled; own = h.own }

  click_invoices-IsOwn :
      (cs : List InvoiceClick) (s : Invoices) → IsOwn s → IsOwn (click_invoices cs s)
  click_invoices-IsOwn [] s h = h
  click_invoices-IsOwn (c ∷ cs) s h =
      click_invoices-IsOwn cs (click_invoice c s) (click_invoice-IsOwn c s h)

  -- If each call is answered before the next click, then whatever is clicked and whatever the server
  -- answers: nothing is loading afterwards, the detail is what a call for the row that is open gave, and
  -- there is none without an open row.
  pub new_invoices-IsOwn :
      (cs : List InvoiceClick) (q : Queries) → IsOwn (click_invoices cs (new_invoices q))
  unfolding new_invoices
  new_invoices-IsOwn cs q =
      click_invoices-IsOwn cs (new_invoices q) (record { settled = refl; own = refl })
