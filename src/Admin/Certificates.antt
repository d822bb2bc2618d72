-- ===== src/Admin/Certificates.antt =====
-- admin/src/pages/Certificates.tsx: the tabs with their queries, the calls, and what is shown of a
-- certificate.
use Prim.Native.String
use omni_tun.Prelude.{
  ℤ, pos, negsuc, String, Bool, Option, none, some, List, [], ◌∷◌, ltb, ◌==◌, if◌then◌else◌,
}
use omni_tun.Js.{Value}
use omni_tun.Js.Env.{Js}
use omni_tun.Api.{Request, Reply, Result, App, World, request}
use omni_tun.Queries.{Queries, plain, bare, send_mutation}

pub data CertificateTab : Type 0 where
  system tenants : CertificateTab

pub record Certificates : Type 0 where
  pub tab : CertificateTab
  pub queries : Queries

unfoldable pub new_certificates : Queries → Certificates
new_certificates q = record { tab = system; queries = q }

unfoldable pub set_certificate_tab : CertificateTab → Certificates → Certificates
set_certificate_tab tab s = record s { tab = tab }

-- The variant and the label of the badge of a status; the label is a translation key or the status.
unfoldable pub get_status_badge : String → String × String
get_status_badge status =
    if status == "valid"
    then ("success", "certificates.valid")
    else if status == "expiring_soon"
    then ("warning", "certificates.expiringSoon")
    else if status == "expired"
    then ("destructive", "certificates.expired")
    else ("secondary", status)

-- The days are a whole number.
unfoldable pub get_expiry_color : ℤ → String
get_expiry_color (negsuc n) = "text-destructive"
get_expiry_color (pos n) = if ltb n 30 then "text-amber-400" else "text-emerald-400"

abbrev pub certificates_key : List String
certificates_key = "admin" ∷ "certificates" ∷ []

abbrev pub certificate_path : String → String → String
certificate_path id rest = String.◌++◌ "/api/admin/v1/certificates/" (String.◌++◌ id rest)

module _ (js : Js) (app : App) (net : List Request → Request → Reply) where
  -- Both queries, each `none` while it is not enabled.
  unfoldable pub query_system : Certificates → World → Option (Result Value × World)
  query_system s w = elim s.tab [
    | system ↦ some (request js app net "/api/admin/v1/certificates/system" plain w)
    | tenants ↦ none
  ]

  unfoldable pub query_tenants : Certificates → World → Option (Result Value × World)
  query_tenants s w = elim s.tab [
    | system ↦ none
    | tenants ↦ some (request js app net "/api/admin/v1/certificates/tenants" plain w)
  ]

  abbrev pub change_certificate : String → String → Certificates → Certificates
  change_certificate rest id s = record s {
    queries =
        (send_mutation js app net (certificate_path id rest) (bare "POST") (certificates_key ∷ [])
          s.queries).1;
  }

  unfoldable pub renew_certificate : String → Certificates → Certificates
  renew_certificate = change_certificate "/renew"

  unfoldable pub revoke_certificate : String → Certificates → Certificates
  revoke_certificate = change_certificate "/revoke"

  -- The button, with the answer to `window.confirm`.
  unfoldable pub click_revoke : Bool → String → Certificates → Certificates
  click_revoke confirmed id s = if confirmed then revoke_certificate id s else s
