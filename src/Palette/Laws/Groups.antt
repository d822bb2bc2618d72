-- ===== src/Palette/Laws/Groups.antt =====
-- Which results a group has.
use omni_tun.Prelude.{
  String, false, ◌≡◌, refl, sym, ap, ◌∙◌, List, [], ◌∷◌, ◌++◌, select, ◌==◌, arith, append-nil,
  append_assoc, eq_iff, Bool-cases, inl, inr, if◌then◌else◌,
}
use omni_tun.Palette.Results.{SearchResult, Groups, put_result, grouped_onto, grouped}

-- The results that are shown under `g`.
abbrev pub items_of : String → Groups → List SearchResult
items_of g [] = []
items_of g ((k, items) ∷ groups) = let rest = items_of g groups in if k == g then items else rest

items_of-put_result :
    (g : String) (r : SearchResult) (groups : Groups)
    → items_of g (put_result r groups) ≡ items_of g groups ++ (if r.group == g then r ∷ [] else [])
unfolding put_result
items_of-put_result g r [] = refl
items_of-put_result g r ((k, items) ∷ groups) = elim (Bool-cases (r.group == k)) [
  | inl same ↦
      let e : (r.group == g) ≡ (k == g) = ap (λ x. x == g) ((eq_iff r.group k).0 same) in
      ground (arith, same, e, append-nil (items_of g groups))
  | inr other ↦ elim (Bool-cases (k == g)) [
    | inl here ↦
        let e : (r.group == g) ≡ false =
          ap (λ x. r.group == x) (sym ((eq_iff k g).0 here)) ∙ other in
        ground (arith, other, here, e, append-nil items)
    | inr there ↦ ground (arith, other, there, items_of-put_result g r groups)
  ]
]

items_of-grouped_onto :
    (g : String) (groups : Groups) (rs : List SearchResult)
    → items_of g (grouped_onto groups rs) ≡ items_of g groups ++ select (λ r. r.group == g) rs
items_of-grouped_onto g groups [] = sym (append-nil (items_of g groups))
items_of-grouped_onto g groups (r ∷ rs) = ground (
  arith,
  items_of-grouped_onto g (put_result r groups) rs,
  items_of-put_result g r groups,
  append_assoc (items_of g groups) (r ∷ []) (select (λ r. r.group == g) rs),
  append-nil (items_of g groups),
)

-- Each group has the results of its name, in their order.
pub items_of-grouped :
    (g : String) (rs : List SearchResult) → items_of g (grouped rs) ≡ select (λ r. r.group == g) rs
unfolding grouped
items_of-grouped g rs = items_of-grouped_onto g [] rs
