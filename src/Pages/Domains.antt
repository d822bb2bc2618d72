-- ===== src/Pages/Domains.antt =====
-- web/src/pages/Domains.tsx: the form of a domain, and the calls.
use Prim.Native.String
use omni_tun.Prelude.{
  String, Bool, false, ◌||◌, Option, none, some, List, [], ◌∷◌, ◌==◌, if◌then◌else◌,
}
use omni_tun.Js.{Value, str, entry, no_entries, Elements}
use omni_tun.Js.Env.{Js}
use omni_tun.Api.{Request, Reply, Result, ok, throw, App, World}
use omni_tun.Queries.{Queries, bare, with_body, send_mutation, query_tunnels}
use omni_tun.Forms.{is_blank}

-- The id of the domain to delete, the reply whose DNS instructions are shown, and the toasts, as
-- translation keys, the latest first.
pub record DomainsPage : Type 0 where
  pub show_add : Bool
  pub delete_target : Option String
  pub show_instructions : Option Value
  pub domain : String
  pub tunnel_id : String
  pub toasts : List String
  pub queries : Queries

abbrev pub domains_key : List String
domains_key = "domains" ∷ []

abbrev pub domain_path : String → String → String
domain_path id rest = String.◌++◌ "/v1/domains/" (String.◌++◌ id rest)

module _ (js : Js) (app : App) (net : List Request → Request → Reply) where
  abbrev pub domain_added : Result Value → DomainsPage → DomainsPage
  domain_added (ok v) s = record s {
    show_add = false;
    domain = "";
    tunnel_id = "";
    show_instructions = some v;
    toasts = "domains.created" ∷ s.toasts;
  }
  domain_added (throw e) s = s

  unfoldable pub handle_add_domain : DomainsPage → DomainsPage
  handle_add_domain s =
      if is_blank s.domain || (s.tunnel_id == "")
      then s
      else (let (result, q) =
            send_mutation js app net "/v1/domains"
              (with_body js "POST"
                (entry "domain" (str s.domain) (entry "tunnel_id" (str s.tunnel_id) no_entries)))
              (domains_key ∷ []) s.queries in
          domain_added result (record s { queries = q }))

  abbrev pub domain_removed : Result Value → DomainsPage → DomainsPage
  domain_removed (ok v) s = record s { delete_target = none; toasts = "domains.removed" ∷ s.toasts }
  domain_removed (throw e) s = s

  unfoldable pub remove_domain : String → DomainsPage → DomainsPage
  remove_domain id s =
      let (result, q) =
        send_mutation js app net (domain_path id "") (bare "DELETE") (domains_key ∷ []) s.queries in
      domain_removed result (record s { queries = q })

  abbrev pub verify_triggered : Result Value → DomainsPage → DomainsPage
  verify_triggered (ok v) s = record s { toasts = "domains.verify_triggered" ∷ s.toasts }
  verify_triggered (throw e) s = s

  unfoldable pub verify_domain : String → DomainsPage → DomainsPage
  verify_domain id s =
      let (result, q) =
        send_mutation js app net (domain_path id "/verify") (bare "POST") (domains_key ∷ [])
          s.queries in
      verify_triggered result (record s { queries = q })

  -- The tunnels to choose from, which are read while the dialog is open.
  unfoldable pub query_choices : DomainsPage → Option (Result Elements × World)
  query_choices s = if s.show_add then some (query_tunnels js app net s.queries.api) else none
