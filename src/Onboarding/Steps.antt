-- ===== src/Onboarding/Steps.antt =====
-- The order of the steps, with the replies of the server arriving at any time.
use omni_tun.Prelude.{
  ◌≤◌, String, Bool, true, false, ◌&&◌, ◌||◌, ◌≡◌, Option, none, some, List, nat_eq,
}
use omni_tun.Js.{Value}
use omni_tun.Js.Env.{Js}
use omni_tun.Api.{Result, ok, throw, World, App, Request, Reply}
use omni_tun.Onboarding.Defs.{
  Onboarding, CreatedTunnel, next_step, prev_step, type_org_name, org_submitted, org_created,
  tunnel_submitted, tunnel_created,
}

abbrev pub is_created : Option CreatedTunnel → Bool
is_created none = false
is_created (some t) = true

-- The page, and whether the server has accepted an organisation.
pub record Progress : Type 0 where
  pub page : Onboarding
  pub is_saved : Bool

-- A button that leads on: on the first and the third step, and on the fourth with a tunnel.
abbrev pub may_go_on : Onboarding → Bool
may_go_on o = nat_eq o.step 1 || nat_eq o.step 3 || nat_eq o.step 4 && is_created o.created_tunnel

abbrev pub accepted : Result Value → Bool → Bool
accepted (ok v) b = true
accepted (throw e) b = b

module _ (js : Js) (app : App) (net : List Request → Request → Reply) where
  -- What the user does where the page shows a button for it, and the replies of the server, which come
  -- while their request is under way, whatever the step is by then.
  pub data Moves : Progress → Progress → Type 0 where
    types_name :
        (p : Progress) (to_lower : String → String) (typed : String)
        → Moves p (record p { page = type_org_name to_lower typed p.page })
    types_tunnel :
        (p : Progress) (port protocol name : String)
        → Moves p (record p {
          page = record p.page {
            tunnel_port = port;
            tunnel_protocol = protocol;
            tunnel_name = name;
          };
        })
    goes_back :
        (p : Progress)
        → 2 ≤ p.page.step
        → p.page.step ≤ 4
        → Moves p (record p { page = prev_step p.page })
    goes_on :
        (p : Progress) → may_go_on p.page ≡ true → Moves p (record p { page = next_step p.page })
    submits_org :
        (p : Progress) (o : Onboarding)
        → p.page.step ≡ 2
        → p.page.org_creating ≡ false
        → org_submitted js app net p.page ≡ some o
        → Moves p (record p { page = o })
    org_replies :
        (p : Progress) (r : Result Value) (w : World)
        → p.page.org_creating ≡ true
        → Moves p (record {
          page = org_created js app net r (record p.page { api = w });
          is_saved = accepted r p.is_saved;
        })
    submits_tunnel :
        (p : Progress)
        → p.page.step ≡ 4
        → p.page.tunnel_creating ≡ false
        → Moves p (record p { page = tunnel_submitted js app net p.page })
    tunnel_replies :
        (p : Progress) (r : Result Value) (w : World)
        → p.page.tunnel_creating ≡ true
        → Moves p (record p { page = tunnel_created js app net r (record p.page { api = w }) })

  pub data Journey (p : Progress) : Progress → Type 0 where
    sets_out : Journey p p
    moves : {q r : Progress} → Journey p q → Moves q r → Journey p r
