-- ===== src/Admin/Invoices/Race.antt =====
-- Clicks on rows while the calls of earlier clicks are under way.
use omni_tun.Prelude.{
  String, true, false, ◌≡◌, ◌≢◌, refl, some, List, [], ◌∷◌, ◌++◌, ne→eq_false, subst, Bool-cases,
  ◌⊎◌, inl, inr, if◌then◌else◌,
}
use omni_tun.Js.{Value, null}
use omni_tun.Api.{Result, ok, throw}
use omni_tun.Queries.{Queries}
use omni_tun.Admin.Invoices.Defs.{Invoices, new_invoices, is_expanded, open_detail, detail_replied}

-- The page with the ids of the calls that are under way, and the calls that were answered, the latest
-- first.
pub record Racing : Type 0 where
  pub page : Invoices
  pub pending : List String
  pub answered : List (String × Result Value)

unfoldable pub clicked : String → Racing → Racing
clicked id r = record r {
  page = open_detail id r.page;
  pending = if is_expanded id r.page then r.pending else id ∷ r.pending;
}

-- A click on the button of a row, and the reply to any of the calls.
pub data RaceStep (r : Racing) : Racing → Type 0 where
  clicks : (id : String) → RaceStep r (clicked id r)
  replies :
      (before after : List String) (id : String) (result : Result Value)
      → r.pending ≡ before ++ (id ∷ after)
      → RaceStep r (record {
        page = detail_replied result r.page;
        pending = before ++ after;
        answered = (id, result) ∷ r.answered;
      })

pub data Races (r : Racing) : Racing → Type 0 where
  starts : Races r r
  goes_on : {s t : Racing} → Races r s → RaceStep s t → Races r t

abbrev pub new_race : Queries → Racing
new_race q = record { page = new_invoices q; pending = []; answered = [] }

-- What the latest answer gave: nothing if it failed.
abbrev pub latest : List (String × Result Value) → Value
latest [] = null
latest ((id, ok v) ∷ answered) = v
latest ((id, throw e) ∷ answered) = null

-- A spinner stands for a call that is under way; the detail is that of the latest answer, or there is
-- none.
pub record IsAwaited (r : Racing) : Type 0 where
  pub awaited : r.pending ≡ [] → r.page.detail_loading ≡ false
  pub from_latest : (r.page.detail_data ≡ null) ⊎ (r.page.detail_data ≡ latest r.answered)

clicked-IsAwaited : (id : String) {r : Racing} → IsAwaited r → IsAwaited (clicked id r)
unfolding clicked open_detail
clicked-IsAwaited id {r} h = elim (Bool-cases (is_expanded id r.page)) [
  | inl was ↦ record {
    awaited = λ none_left. rw (was, open_detail) (h.awaited (rw was at none_left));
    from_latest = rw (was, open_detail) (inl refl);
  }
  | inr new ↦ record {
    awaited = λ none_left. (let e = rw new at none_left in cc (e));
    from_latest = rw (new, open_detail) h.from_latest;
  }
]

RaceStep-IsAwaited : {r s : Racing} → RaceStep r s → IsAwaited r → IsAwaited s
unfolding detail_replied
RaceStep-IsAwaited (clicks id) h = clicked-IsAwaited id h
RaceStep-IsAwaited (replies before after id (ok v) e) h = record {
  awaited = λ none_left. refl;
  from_latest = inr refl;
}
RaceStep-IsAwaited (replies before after id (throw t) e) h = record {
  awaited = λ none_left. refl;
  from_latest = inl refl;
}

-- In whatever order rows are clicked and calls are answered: the spinner is gone once no call is under
-- way, and the detail that is kept is what the latest answer gave, if there is one.
pub Races-IsAwaited : (q : Queries) {r : Racing} → Races (new_race q) r → IsAwaited r
unfolding new_invoices
Races-IsAwaited q starts = record { awaited = λ none_left. refl; from_latest = inl refl }
Races-IsAwaited q (goes_on rs st) = RaceStep-IsAwaited st (Races-IsAwaited q rs)

-- The row of one invoice, with the detail that was asked for another.
abbrev pub mixed : Queries → String → String → Value → Value → Racing
mixed q a b u v = record {
  page = record (new_invoices q) { expanded_id = some b; detail_data = u };
  pending = [];
  answered = (a, ok u) ∷ (b, ok v) ∷ [];
}

-- Both calls are under way.
abbrev both_asked : Queries → String → String → Racing
both_asked q a b = record {
  page = record (new_invoices q) { expanded_id = some b; detail_loading = true };
  pending = b ∷ a ∷ [];
  answered = [];
}

clicked-both_asked :
    (q : Queries) (a b : String) → a ≢ b → clicked b (clicked a (new_race q)) ≡ both_asked q a b
unfolding clicked open_detail new_invoices
clicked-both_asked q a b ne = rw (ne→eq_false a b ne)

-- For any two invoices: if the row of the second is opened while the call of the first one is under way
-- and that call is answered last, the second row is open and shows the detail of the first.
pub Races-mixed :
    (q : Queries) (a b : String) (u v : Value) → a ≢ b → Races (new_race q) (mixed q a b u v)
unfolding detail_replied new_invoices
Races-mixed q a b u v ne =
    let clicks_made : Races (new_race q) (clicked b (clicked a (new_race q))) =
      goes_on (goes_on starts (clicks a)) (clicks b) in
    let asked = subst (Races (new_race q)) (clicked-both_asked q a b ne) clicks_made in
    goes_on (goes_on asked (replies [] (a ∷ []) b (ok v) refl)) (replies [] [] a (ok u) refl)
