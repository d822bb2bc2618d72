-- ===== src/Pages/Webhooks.antt =====
-- web/src/pages/Webhooks.tsx: the dialog of a webhook, and the calls.
use Prim.Native.String
use omni_tun.Prelude.{
  ℕ, zero, suc, String, Bool, true, false, Option, none, some, List, [], ◌∷◌, toggle_in,
}
use omni_tun.Js.{Value, str, arr, prop, Entries, entry, no_entries, Elements, no_elements, element}
use omni_tun.Js.Env.{Js}
use omni_tun.Api.{Request, Reply, Result, ok, throw, App, World, request}
use omni_tun.Queries.{Queries, plain, bare, with_body, send_mutation}

-- A webhook, without its dates and its state.
pub record Webhook : Type 0 where
  pub id : String
  pub name : String
  pub url : String
  pub events : List String
  pub secret : String

pub record WebhookForm : Type 0 where
  pub name : String
  pub url : String
  pub events : List String
  pub secret : String

-- The toasts are translation keys, the latest first.
pub record WebhooksPage : Type 0 where
  pub show_create : Bool
  pub edit_target : Option Webhook
  pub delete_target : Option Webhook
  pub deliveries_target : Option Webhook
  pub expanded_delivery : Option String
  pub form : WebhookForm
  pub toasts : List String
  pub queries : Queries

abbrev pub secret_chars : String
secret_chars = "ABCDEFGHIJKLMNOPQRSTUVWXYZabcdefghijklmnopqrstuvwxyz0123456789"

-- `s.charAt(i)`
abbrev pub char_at : String → ℕ → String
char_at String.[] i = ""
char_at (String.◌∷◌ c s) zero = String.◌∷◌ c String.[]
char_at (String.◌∷◌ c s) (suc i) = char_at s i

-- `drawn i` is the place that is drawn when `i` more characters follow.
abbrev pub secret_of : (ℕ → ℕ) → ℕ → String
secret_of drawn zero = ""
secret_of drawn (suc i) = String.◌++◌ (char_at secret_chars (drawn i)) (secret_of drawn i)

unfoldable pub generate_secret : (ℕ → ℕ) → String
generate_secret drawn = String.◌++◌ "whsec_" (secret_of drawn 32)

abbrev pub empty_webhook : String → WebhookForm
empty_webhook secret = record { name = ""; url = ""; events = []; secret = secret }

-- The text is what `generateSecret` gives.
unfoldable pub open_create_webhook : String → WebhooksPage → WebhooksPage
open_create_webhook secret s = record s { form = empty_webhook secret; show_create = true }

unfoldable pub open_edit_webhook : Webhook → WebhooksPage → WebhooksPage
open_edit_webhook w s = record s {
  form = record { name = w.name; url = w.url; events = w.events; secret = w.secret };
  edit_target = some w;
}

unfoldable pub close_webhook : WebhooksPage → WebhooksPage
close_webhook s = record s { show_create = false; edit_target = none }

unfoldable pub toggle_event : String → WebhooksPage → WebhooksPage
toggle_event event s = record s { form = record s.form { events = toggle_in event s.form.events } }

unfoldable pub regenerate_secret : String → WebhooksPage → WebhooksPage
regenerate_secret secret s = record s { form = record s.form { secret = secret } }

abbrev pub webhooks_key : List String
webhooks_key = "webhooks" ∷ []

abbrev pub webhook_path : String → String → String
webhook_path id rest = String.◌++◌ "/v1/webhooks/" (String.◌++◌ id rest)

abbrev pub event_texts : List String → Elements
event_texts [] = no_elements
event_texts (e ∷ es) = element (str e) (event_texts es)

abbrev pub webhook_entries : WebhookForm → Entries
webhook_entries f = entry "name" (str f.name) (
    entry "url" (str f.url)
      (entry "events" (arr (event_texts f.events)) (entry "secret" (str f.secret) no_entries)))

module _ (js : Js) (app : App) (net : List Request → Request → Reply) where
  abbrev pub webhook_created : String → Result Value → WebhooksPage → WebhooksPage
  webhook_created secret (ok v) s = record s {
    show_create = false;
    form = empty_webhook secret;
    toasts = "webhooks.created" ∷ s.toasts;
  }
  webhook_created secret (throw e) s = s

  abbrev pub webhook_updated : Result Value → WebhooksPage → WebhooksPage
  webhook_updated (ok v) s = record s { edit_target = none; toasts = "webhooks.updated" ∷ s.toasts }
  webhook_updated (throw e) s = s

  abbrev pub webhook_deleted : Result Value → WebhooksPage → WebhooksPage
  webhook_deleted (ok v) s = record s {
    delete_target = none;
    toasts = "webhooks.deleted" ∷ s.toasts;
  }
  webhook_deleted (throw e) s = s

  -- The text is the secret of the next form.
  unfoldable pub handle_submit_webhook : String → WebhooksPage → WebhooksPage
  handle_submit_webhook secret s = elim s.edit_target [
    | none ↦
        let (result, q) =
          send_mutation js app net "/v1/webhooks" (with_body js "POST" (webhook_entries s.form))
            (webhooks_key ∷ []) s.queries in
        webhook_created secret result (record s { queries = q })
    | some w ↦
        let (result, q) =
          send_mutation js app net (webhook_path w.id "")
            (with_body js "PUT" (webhook_entries s.form)) (webhooks_key ∷ []) s.queries in
        webhook_updated result (record s { queries = q })
  ]

  unfoldable pub delete_webhook : String → WebhooksPage → WebhooksPage
  delete_webhook id s =
      let (result, q) =
        send_mutation js app net (webhook_path id "") (bare "DELETE") (webhooks_key ∷ [])
          s.queries in
      webhook_deleted result (record s { queries = q })

  -- `t('…', { status: data.status_code })` with the variant of the toast. `status_text` is the printing of
  -- the status. Where there is no reply to read, reading its status throws and no toast is shown.
  abbrev pub webhook_tested : (Value → String) → Result Value → WebhooksPage → WebhooksPage
  webhook_tested status_text (ok v) s = elim (prop v "status_code") [
    | none ↦ s
    | some status ↦ record s { toasts = status_text status ∷ s.toasts }
  ]
  webhook_tested status_text (throw e) s = s

  unfoldable pub test_webhook : (Value → String) → String → WebhooksPage → WebhooksPage
  test_webhook status_text id s =
      let (result, q) =
        send_mutation js app net (webhook_path id "/test") (bare "POST") [] s.queries in
      webhook_tested status_text result (record s { queries = q })

  unfoldable pub query_webhooks : World → Result Value × World
  query_webhooks w = request js app net "/v1/webhooks" plain w

  -- The query of the deliveries, which is enabled while they are shown.
  unfoldable pub query_deliveries : WebhooksPage → Option (Result Value × World)
  query_deliveries s = elim s.deliveries_target [
    | none ↦ none
    | some w ↦ some (request js app net (webhook_path w.id "/deliveries") plain s.queries.api)
  ]
