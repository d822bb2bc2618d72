-- ===== src/Onboarding/Defs.antt =====
-- The state of the page with its handlers.
use omni_tun.Prelude.{
  ℕ, ℤ, pos, ◌>>=◌, ◌+◌, ◌-◌, min, Option, ◌∷◌, String, Char, code, Bool, true, false, ◌&&◌, ◌||◌,
  none, some, List, [], nat_eq, leb, if◌then◌else◌, ◌==◌,
}
use Prim.Native.String
use omni_tun.Js.{Value, str, num, obj, entry, no_entries, prop, or_else, truthy}
use omni_tun.Js.Env.{Js, text_of}
use omni_tun.Api.{Request, Options, Reply, Result, ok, throw, World, App, request}
use omni_tun.Forms.{is_blank}
use omni_tun.Palette.{take_text}

abbrev pub steps : ℕ
steps = 5

pub record CreatedTunnel : Type 0 where
  pub id : Value
  pub slug : Value
  pub domain : Value

-- The step, the fields of the organisation with its error (a translation key), those of the first
-- tunnel with what was created, the toasts (their translation keys), the latest first, and the client.
pub record Onboarding : Type 0 where
  pub step : ℕ
  pub org_name : String
  pub org_slug : String
  pub org_creating : Bool
  pub org_error : String
  pub tunnel_port : String
  pub tunnel_protocol : String
  pub tunnel_name : String
  pub tunnel_creating : Bool
  pub created_tunnel : Option CreatedTunnel
  pub toasts : List String
  pub api : World

-- The initial state of the page.
abbrev pub new_page : World → Onboarding
new_page w = record {
  step = 1;
  org_name = "";
  org_slug = "";
  org_creating = false;
  org_error = "";
  tunnel_port = "";
  tunnel_protocol = "http";
  tunnel_name = "";
  tunnel_creating = false;
  created_tunnel = none;
  toasts = [];
  api = w;
}

abbrev pub is_slug_char : Char → Bool
is_slug_char c = (leb 97 (code c) && leb (code c) 122) || (leb 48 (code c) && leb (code c) 57)

-- `.replace(/[^a-z0-9]+/g, '-')`; the flag says whether the character before was replaced.
abbrev pub dashed : Bool → String → String
dashed after String.[] = String.[]
dashed after (String.◌∷◌ c s) =
    let kept = dashed false s in
    let replaced = dashed true s in
    if is_slug_char c
    then String.◌∷◌ c kept
    else if after
    then replaced
    else String.◌++◌ "-" replaced

abbrev pub is_dash : Char → Bool
is_dash c = nat_eq (code c) 45

abbrev pub without_leading : String → String
without_leading String.[] = String.[]
without_leading (String.◌∷◌ c s) =
    let rest = without_leading s in if is_dash c then rest else String.◌∷◌ c s

abbrev pub without_trailing : String → String
without_trailing String.[] = String.[]
without_trailing (String.◌∷◌ c s) =
    let rest = without_trailing s in if is_dash c && (rest == "") then "" else String.◌∷◌ c rest

-- `to_lower` is `toLowerCase`.
unfoldable pub slugify : (String → String) → String → String
slugify to_lower text =
    take_text 64 (without_trailing (without_leading (dashed false (to_lower text))))

-- `onChange` of the name of the organisation.
unfoldable pub type_org_name : (String → String) → String → Onboarding → Onboarding
type_org_name to_lower typed o = record o {
  org_name = typed;
  org_slug = slugify to_lower typed;
  org_error = "";
}

unfoldable pub next_step : Onboarding → Onboarding
next_step o = record o { step = min (o.step + 1) steps }

-- The step is at least 1.
unfoldable pub prev_step : Onboarding → Onboarding
prev_step o = record o { step = if leb o.step 2 then 1 else o.step - 1 }

abbrev pub complete_options : Options
complete_options = record { method = some "POST"; headers = []; body = none }

module _ (js : Js) (app : App) (net : List Request → Request → Reply) where
  -- `handleSkip` and `handleFinish`: whatever the call gives, the page goes to "/".
  unfoldable pub handle_finish : Onboarding → Onboarding × String
  handle_finish o = (
    record o { api = (request js app net "/v1/org/onboarding/complete" complete_options o.api).1 },
    "/",
  )

  -- The rest of the `try`, or the `catch`; then the `finally`.
  unfoldable pub org_created : Result Value → Onboarding → Onboarding
  org_created (ok v) o = record (next_step o) { org_creating = false }
  org_created (throw e) o = record o {
    org_error = "onboarding.failed_create_org";
    org_creating = false;
  }

  abbrev pub org_options : (String → String) → (String → String) → Onboarding → Options
  org_options trim to_lower o = record {
    method = some "PATCH";
    headers = [];
    body = some (
        js.stringify (
          obj (
            entry "name" (str (trim o.org_name)) (
              entry "slug"
                (str (if o.org_slug == "" then slugify to_lower o.org_name else o.org_slug))
                no_entries))));
  }

  -- Up to the call; `none` where the name is missing.
  unfoldable pub org_submitted : Onboarding → Option Onboarding
  org_submitted o =
      if is_blank o.org_name then none else some (record o { org_creating = true; org_error = "" })

  unfoldable pub handle_create_org : (String → String) → (String → String) → Onboarding → Onboarding
  handle_create_org trim to_lower o = elim (org_submitted o) [
    | none ↦ record o { org_error = "onboarding.step2_name_required" }
    | some sent ↦
        let (result, w) = request js app net "/v1/org/" (org_options trim to_lower o) o.api in
        org_created result (record sent { api = w })
  ]

  -- What the form sends: `translate` gives the text of a key, `parse_int` is `parseInt`, `none` for NaN.
  abbrev pub port_of : (String → Option ℤ) → String → ℤ
  port_of parse_int typed = elim (parse_int typed) [
    | none ↦ pos 3000
    | some n ↦ if truthy (num n) then n else pos 3000
  ]

  abbrev pub tunnel_options : (String → String) → (String → Option ℤ) → Onboarding → Options
  tunnel_options translate parse_int o = record {
    method = some "POST";
    headers = [];
    body = some (
        js.stringify (
          obj (
            entry "name"
              (str (
                if o.tunnel_name == ""
                then translate "onboarding.step4_name_placeholder"
                else o.tunnel_name))
              (entry "protocol" (str o.tunnel_protocol)
                (entry "local_port" (num (port_of parse_int o.tunnel_port)) no_entries)))));
  }

  -- `{ id, slug, domain: data.domain || … }`; `none` where the reply has no properties.
  unfoldable pub created_from : Value → Option CreatedTunnel
  created_from reply = do
    id ← prop reply "id"
    slug ← prop reply "slug"
    domain ← prop reply "domain"
    some (record {
      id = id;
      slug = slug;
      domain = or_else domain (str (String.◌++◌ (text_of js slug) ".omnitun.io"));
    })

  unfoldable pub tunnel_submitted : Onboarding → Onboarding
  tunnel_submitted o = record o { tunnel_creating = true }

  abbrev pub failed_tunnel : Onboarding → Onboarding
  failed_tunnel o = record o {
    toasts = "onboarding.failed_create_tunnel" ∷ o.toasts;
    tunnel_creating = false;
  }

  -- After the toast of the success: the reply is read, and the step follows.
  abbrev pub tunnel_read : Option CreatedTunnel → Onboarding → Onboarding
  tunnel_read none o = failed_tunnel o
  tunnel_read (some created) o = record (next_step (record o { created_tunnel = some created })) {
    tunnel_creating = false;
  }

  -- The rest of the `try`, or the `catch`; then the `finally`.
  unfoldable pub tunnel_created : Result Value → Onboarding → Onboarding
  tunnel_created (throw e) o = failed_tunnel o
  tunnel_created (ok reply) o =
      tunnel_read (created_from reply) (record o { toasts = "onboarding.step4_created" ∷ o.toasts })

  unfoldable pub handle_create_tunnel :
      (String → String) → (String → Option ℤ) → Onboarding → Onboarding
  handle_create_tunnel translate parse_int o =
      let (result, w) =
        request js app net "/v1/tunnels" (tunnel_options translate parse_int o) o.api in
      tunnel_created result (record (tunnel_submitted o) { api = w })
