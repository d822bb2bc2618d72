-- ===== src/Pages/TunnelDetail/Traffic.antt =====
-- The points of the chart.
use omni_tun.Prelude.{
  ℕ, zero, suc, ◌+◌, ◌≤◌, String, ◌≡◌, refl, ap, ◌∙◌, sym, Option, none, some, List, [], ◌∷◌, ◌++◌,
  drop, length, length-append, append-nil, append_assoc, arith, Bool-cases, inl, inr, ◌==◌, ℤ,
}
use omni_tun.Types.{Tunnel}
use omni_tun.Js.{Value}
use omni_tun.Js.Env.{Js}
use omni_tun.Api.{Request, Reply, Result, ok, throw, App}
use omni_tun.Queries.{Queries, update_tunnel, mutate}
use omni_tun.Pages.TunnelDetail.Defs.{
  TrafficPoint, TunnelDetail, new_detail, on_point, open_edit, close_edit, edit_input, edited,
  handle_edit, switch_tunnel, restart_button, points_before, generate_mock_traffic,
}
use omni_tun.Pages.TunnelDetail.Editing.{
  DetailEvent, point, opens, types_name, chooses_auth, types_max, cancels, saves, switches,
  restarts, handle_detail, after_events,
}

-- The points that the timer has made, the oldest first; the latest event comes first.
abbrev pub made : List DetailEvent → List TrafficPoint
made [] = []
made (point p ∷ evs) = made evs ++ (p ∷ [])
made (_ ∷ evs) = made evs

-- The last `n` of a list that is at least so long.
length-points_before :
    (iso : ℤ → String) (drawn_in drawn_out : ℕ → ℕ) (now n : ℕ)
    → length (points_before iso drawn_in drawn_out now n) ≡ n
length-points_before iso drawn_in drawn_out now zero = refl
length-points_before iso drawn_in drawn_out now (suc n) =
    ap suc (length-points_before iso drawn_in drawn_out now n)

-- Dropping one more from a window that a new element is added to.
drop-suc :
    (n : ℕ) (xs : List TrafficPoint) (p : TrafficPoint)
    → suc n ≤ length xs
    → drop 1 (drop n xs) ++ (p ∷ []) ≡ drop (suc n) (xs ++ (p ∷ []))
drop-suc n [] p h = elim h [ ]
drop-suc zero (x ∷ xs) p h = refl
drop-suc (suc n) (x ∷ xs) p h = drop-suc n xs p (omega arith)

length-drop : (n : ℕ) (xs : List TrafficPoint) → n ≤ length xs → length (drop n xs) + n ≡ length xs
length-drop zero xs h = omega arith
length-drop (suc n) [] h = elim h [ ]
length-drop (suc n) (x ∷ xs) h = omega (arith, length-drop n xs (omega arith))

edited-traffic :
    (js : Js) (app : App) (net : List Request → Request → Reply) (id : String) (r : Result Value)
    (s : TunnelDetail)
    → (edited js app net id r s).mock_traffic ≡ s.mock_traffic
unfolding edited
edited-traffic js app net id (ok v) s = refl
edited-traffic js app net id (throw e) s = refl

handle_edit-traffic :
    (js : Js) (app : App) (net : List Request → Request → Reply) (route_id : Option String)
    (s : TunnelDetail)
    → (handle_edit js app net route_id s).mock_traffic ≡ s.mock_traffic
unfolding handle_edit
handle_edit-traffic js app net none s = refl
handle_edit-traffic js app net (some id) s =
    let call = mutate js app net (update_tunnel (edit_input id s)) s.queries in
    elim (Bool-cases (id == "")) [
      | inl missing ↦ rw (missing, handle_edit)
      | inr there ↦
          rw (there, handle_edit)
            (edited-traffic js app net id call.0 (record s { queries = call.1 }))
    ]

module _ (js : Js) (app : App) (net : List Request → Request → Reply)
    (route_id : Option String) where
  switch_tunnel-traffic :
      (tunnel : Tunnel) (s : TunnelDetail)
      → (switch_tunnel js app net tunnel s).mock_traffic ≡ s.mock_traffic
  unfolding switch_tunnel
  switch_tunnel-traffic tunnel s = ground arith

  -- What an event makes of the points.
  abbrev window : DetailEvent → List TrafficPoint → List TrafficPoint
  window (point p) xs = drop 1 xs ++ (p ∷ [])
  window _ xs = xs

  handle_detail-traffic :
      (ev : DetailEvent) (s : TunnelDetail)
      → (handle_detail js app net route_id ev s).mock_traffic ≡ window ev s.mock_traffic
  unfolding on_point open_edit close_edit restart_button
  handle_detail-traffic (point p) s = refl
  handle_detail-traffic (opens none) s = refl
  handle_detail-traffic (opens (some tunnel)) s = refl
  handle_detail-traffic (types_name typed) s = refl
  handle_detail-traffic (chooses_auth mode) s = refl
  handle_detail-traffic (types_max n) s = refl
  handle_detail-traffic cancels s = refl
  handle_detail-traffic saves s = handle_edit-traffic js app net route_id s
  handle_detail-traffic (switches tunnel) s = switch_tunnel-traffic tunnel s
  handle_detail-traffic (restarts tunnel) s = refl

  -- The points of the oldest time are dropped, one for each that is made.
  abbrev newest : List DetailEvent → List TrafficPoint → List TrafficPoint
  newest evs xs = drop (length (made evs)) (xs ++ made evs)

  window-newest :
      (ev : DetailEvent) (evs : List DetailEvent) (xs : List TrafficPoint)
      → 1 ≤ length xs
      → window ev (newest evs xs) ≡ newest (ev ∷ evs) xs
  window-newest (point p) evs xs h =
      let n : suc (length (made evs)) ≡ length (made evs ++ (p ∷ [])) =
        omega (arith, length-append (made evs) (p ∷ [])) in
      drop-suc (length (made evs)) (xs ++ made evs) p (omega (arith, length-append xs (made evs)))
      ∙ ap (drop (suc (length (made evs)))) (append_assoc xs (made evs) (p ∷ []))
      ∙ ap (λ k. drop k (xs ++ (made evs ++ (p ∷ [])))) n
  window-newest (opens tunnel) evs xs h = refl
  window-newest _ evs xs h = refl

  after_events-traffic :
      (evs : List DetailEvent) (s : TunnelDetail)
      → 1 ≤ length s.mock_traffic
      → (after_events js app net route_id evs s).mock_traffic ≡ newest evs s.mock_traffic
  after_events-traffic [] s h = sym (append-nil s.mock_traffic)
  after_events-traffic (ev ∷ evs) s h =
      handle_detail-traffic ev (after_events js app net route_id evs s)
      ∙ ap (window ev) (after_events-traffic evs s h)
      ∙ window-newest ev evs s.mock_traffic h

-- Whatever happens on the page, the chart has thirty points: the newest of those that it began with,
-- followed by those that the timer has made.
pub after_events-thirty :
    (js : Js) (app : App) (net : List Request → Request → Reply) (route_id : Option String)
    (iso : ℤ → String) (drawn_in drawn_out : ℕ → ℕ) (now : ℕ) (evs : List DetailEvent) (q : Queries)
    → (let first = generate_mock_traffic iso drawn_in drawn_out now in
        let shown = (after_events js app net route_id evs (new_detail first q)).mock_traffic in
        (length shown ≡ 30) × (shown ≡ drop (length (made evs)) (first ++ made evs)))
unfolding new_detail generate_mock_traffic
after_events-thirty js app net route_id iso drawn_in drawn_out now evs q =
    let first = points_before iso drawn_in drawn_out now 30 in
    let thirty = length-points_before iso drawn_in drawn_out now 30 in
    let e = after_events-traffic js app net route_id evs (new_detail first q) (omega arith) in
    (
      ap length e
          ∙ omega (
            arith,
            thirty,
            length-append first (made evs),
            length-drop (length (made evs)) (first ++ made evs)
                (omega (arith, length-append first (made evs))),
          ),
      e,
    )
