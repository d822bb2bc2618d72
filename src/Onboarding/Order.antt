-- ===== src/Onboarding/Order.antt =====
-- In which order the steps come.
use omni_tun.Prelude.{
  ◌≤◌, true, false, not, ◌||◌, ◌≡◌, refl, some, List, leb, arith, inl, inr, Bool-cases,
  Option-cases,
}
use omni_tun.Js.{Value}
use omni_tun.Js.Env.{Js}
use omni_tun.Api.{Result, ok, throw, World, App, Request, Reply}
use omni_tun.Forms.{is_blank}
use omni_tun.Onboarding.Defs.{
  Onboarding, next_step, prev_step, type_org_name, org_submitted, org_created, tunnel_submitted,
  tunnel_created, created_from, new_page,
}
use omni_tun.Onboarding.Steps.{
  Progress, is_created, accepted, Moves, types_name, types_tunnel, goes_back, goes_on, submits_org,
  org_replies, submits_tunnel, tunnel_replies, Journey, sets_out, moves,
}

-- The steps are one to five; the third comes after an accepted organisation, the fifth after a tunnel;
-- and what a late reply may do.
pub record IsOnTrack (p : Progress) : Type 0 where
  pub from_one : 1 ≤ p.page.step
  pub to_five : p.page.step ≤ 5
  pub saved : (leb p.page.step 2 || p.is_saved) ≡ true
  pub made : (leb p.page.step 4 || is_created p.page.created_tunnel) ≡ true
  org_pending :
      (not p.page.org_creating || leb p.page.step 2 || is_created p.page.created_tunnel) ≡ true
  tunnel_pending : (not p.page.tunnel_creating || p.is_saved) ≡ true

-- What the page shows of the progress is the same.
steady-IsOnTrack :
    (p q : Progress)
    → q.page.step ≡ p.page.step
    → q.page.created_tunnel ≡ p.page.created_tunnel
    → q.page.org_creating ≡ p.page.org_creating
    → q.page.tunnel_creating ≡ p.page.tunnel_creating
    → q.is_saved ≡ p.is_saved
    → IsOnTrack p
    → IsOnTrack q
steady-IsOnTrack p q es ec eo et ev h = record {
  from_one = omega (arith, es, h.from_one);
  to_five = omega (arith, es, h.to_five);
  saved = rw (es, ev) h.saved;
  made = rw (es, ec) h.made;
  org_pending = rw (es, ec, eo) h.org_pending;
  tunnel_pending = rw (et, ev) h.tunnel_pending;
}

org_created-IsOnTrack :
    (js : Js) (app : App) (net : List Request → Request → Reply) (r : Result Value) (p : Progress)
    → p.page.org_creating ≡ true
    → IsOnTrack p
    → IsOnTrack
        (record { page = org_created js app net r p.page; is_saved = accepted r p.is_saved })
unfolding org_created next_step
org_created-IsOnTrack js app net (ok v) p e h = record {
  from_one = omega (arith, h.from_one);
  to_five = omega (arith, h.to_five);
  saved = ground arith;
  made = ground (arith, e, h.org_pending);
  org_pending = refl;
  tunnel_pending = ground arith;
}
org_created-IsOnTrack js app net (throw t) p e h = record {
  from_one = h.from_one;
  to_five = h.to_five;
  saved = h.saved;
  made = h.made;
  org_pending = refl;
  tunnel_pending = h.tunnel_pending;
}

tunnel_created-IsOnTrack :
    (js : Js) (app : App) (net : List Request → Request → Reply) (r : Result Value) (p : Progress)
    → p.page.tunnel_creating ≡ true
    → IsOnTrack p
    → IsOnTrack (record p { page = tunnel_created js app net r p.page })
unfolding tunnel_created next_step
tunnel_created-IsOnTrack js app net (throw t) p e h = record {
  from_one = h.from_one;
  to_five = h.to_five;
  saved = h.saved;
  made = h.made;
  org_pending = h.org_pending;
  tunnel_pending = refl;
}
tunnel_created-IsOnTrack js app net (ok reply) p e h =
    elim (Option-cases (created_from js app net reply)) [
      | inl unread ↦ rw unread (record {
        from_one = h.from_one;
        to_five = h.to_five;
        saved = h.saved;
        made = h.made;
        org_pending = h.org_pending;
        tunnel_pending = refl;
      })
      | inr (t, read) ↦ rw read (record {
        from_one = omega (arith, h.from_one);
        to_five = omega (arith, h.to_five);
        saved = ground (arith, e, h.tunnel_pending);
        made = ground arith;
        org_pending = ground arith;
        tunnel_pending = refl;
      })
    ]

org_submitted-eq :
    (js : Js) (app : App) (net : List Request → Request → Reply) (o sent : Onboarding)
    → org_submitted js app net o ≡ some sent
    → sent ≡ record o { org_creating = true; org_error = "" }
unfolding org_submitted
org_submitted-eq js app net o sent e = elim (Bool-cases (is_blank o.org_name)) [
  | inl blank ↦ (let k = rw blank at e in cc)
  | inr filled ↦ (let k = rw filled at e in cc)
]

Moves-IsOnTrack :
    {js : Js} {app : App} {net : List Request → Request → Reply} {p q : Progress}
    → Moves js app net p q
    → IsOnTrack p
    → IsOnTrack q
unfolding next_step prev_step tunnel_submitted type_org_name
Moves-IsOnTrack (types_name p to_lower typed) h = steady-IsOnTrack p _ refl refl refl refl refl h
Moves-IsOnTrack (types_tunnel p port protocol name) h =
    steady-IsOnTrack p _ refl refl refl refl refl h
Moves-IsOnTrack (goes_back p low high) h = record {
  from_one = ground (arith, low, high);
  to_five = ground (arith, low, high);
  saved = ground (arith, low, high, h.saved);
  made = ground (arith, low, high);
  org_pending = ground (arith, low, high, h.org_pending);
  tunnel_pending = h.tunnel_pending;
}
Moves-IsOnTrack (goes_on p on) h = record {
  from_one = omega (arith, h.from_one);
  to_five = omega (arith, h.to_five);
  saved = ground (arith, on, h.saved);
  made = ground (arith, on, h.made);
  org_pending = ground (arith, on, h.org_pending);
  tunnel_pending = h.tunnel_pending;
}
Moves-IsOnTrack {js} {app} {net} (submits_org p o two idle e) h =
    rw (org_submitted-eq js app net p.page o e) (record {
      from_one = h.from_one;
      to_five = h.to_five;
      saved = h.saved;
      made = h.made;
      org_pending = ground (arith, two);
      tunnel_pending = h.tunnel_pending;
    })
Moves-IsOnTrack {js} {app} {net} (org_replies p r w e) h =
    org_created-IsOnTrack js app net r (record p { page = record p.page { api = w } }) e
      (steady-IsOnTrack p _ refl refl refl refl refl h)
Moves-IsOnTrack (submits_tunnel p four idle) h = record {
  from_one = h.from_one;
  to_five = h.to_five;
  saved = h.saved;
  made = h.made;
  org_pending = h.org_pending;
  tunnel_pending = ground (arith, four, h.saved);
}
Moves-IsOnTrack {js} {app} {net} (tunnel_replies p r w e) h =
    tunnel_created-IsOnTrack js app net r (record p { page = record p.page { api = w } }) e
      (steady-IsOnTrack p _ refl refl refl refl refl h)

Journey-IsOnTrack :
    {js : Js} {app : App} {net : List Request → Request → Reply} {p q : Progress}
    → IsOnTrack p
    → Journey js app net p q
    → IsOnTrack q
Journey-IsOnTrack h sets_out = h
Journey-IsOnTrack h (moves j m) = Moves-IsOnTrack m (Journey-IsOnTrack h j)

abbrev pub start : World → Progress
start w = record { page = new_page w; is_saved = false }

-- Whatever the user does on a new page and in whatever order the replies come: the step is one to five,
-- the steps from the third on follow an organisation that the server has accepted, and the fifth a tunnel
-- that it has created.
pub start-Journey-IsOnTrack :
    (js : Js) (app : App) (net : List Request → Request → Reply) (w : World) (q : Progress)
    → Journey js app net (start w) q
    → IsOnTrack q
start-Journey-IsOnTrack js app net w q j =
    let first : IsOnTrack (start w) = record {
      from_one = omega arith;
      to_five = omega arith;
      saved = refl;
      made = refl;
      org_pending = refl;
      tunnel_pending = refl;
    } in
    Journey-IsOnTrack first j
