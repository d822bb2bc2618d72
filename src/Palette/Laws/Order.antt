-- ===== src/Palette/Laws/Order.antt =====
-- The groups hold the results, each in its group, in the order of the keyboard.
use omni_tun.Prelude.{
  String, false, ◌≡◌, refl, sym, ap, ◌∙◌, List, [], ◌∷◌, ◌++◌, ◌==◌, All, arith, append-nil,
  append_assoc, Bool-cases, inl, inr, subst, Bool,
}
use omni_tun.Palette.Results.{
  SearchResult, Locale, Cache, Groups, put_result, grouped_onto, grouped, results, collect,
  docs_results, tunnel_matches, tunnel_result, domain_matches, domain_result, network_matches,
  network_result, settings_matches, settings_result, settings_routes,
}

abbrev pub flatten : Groups → List SearchResult
flatten [] = []
flatten ((g, items) ∷ groups) = items ++ flatten groups

-- Only the last group may be `g`.
abbrev Open : String → Groups → Type 0
Open g [] = Unit
Open g ((k, items) ∷ []) = Unit
Open g ((k, items) ∷ e ∷ groups) = ((g == k) ≡ false) × Open g (e ∷ groups)

-- No group is `g`.
abbrev Fresh : String → Groups → Type 0
Fresh g groups = All (λ e. (g == e.0) ≡ false) groups

Fresh-Open : (g : String) (groups : Groups) → Fresh g groups → Open g groups
Fresh-Open g [] h = h
Fresh-Open g (e ∷ []) h = tt
Fresh-Open g (e ∷ e' ∷ groups) (p, h) = (p, Fresh-Open g (e' ∷ groups) h)

flatten-put_result :
    (r : SearchResult) (groups : Groups)
    → Open r.group groups
    → flatten (put_result r groups) ≡ flatten groups ++ (r ∷ [])
unfolding put_result
flatten-put_result r [] h = refl
flatten-put_result r ((k, items) ∷ []) h =
    ground (arith, append-nil items, append-nil (items ++ (r ∷ [])))
flatten-put_result r ((k, items) ∷ e ∷ groups) (p, h) =
    rw (p, flatten-put_result r (e ∷ groups) h, append_assoc items (flatten (e ∷ groups)) (r ∷ []))

-- A group of another name in front.
onto-Open :
    (r : SearchResult) (e : String × List SearchResult) (groups : Groups)
    → (r.group == e.0) ≡ false
    → Open r.group (put_result r groups)
    → Open r.group (e ∷ put_result r groups)
unfolding put_result
onto-Open r e [] p h = (p, tt)
onto-Open r e ((k, items) ∷ groups) p h = elim (Bool-cases (r.group == k)) [
  | inl same ↦ ground (arith, same, p, h)
  | inr other ↦ ground (arith, other, p, h)
]

put_result-Open :
    (r : SearchResult) (groups : Groups) → Open r.group groups → Open r.group (put_result r groups)
unfolding put_result
put_result-Open r [] h = tt
put_result-Open r ((k, items) ∷ []) h = elim (Bool-cases (r.group == k)) [
  | inl same ↦ ground (arith, same)
  | inr other ↦ ground (arith, other)
]
put_result-Open r ((k, items) ∷ e ∷ groups) (p, h) =
    ground (arith, p, onto-Open r (k, items) (e ∷ groups) p (put_result-Open r (e ∷ groups) h))

put_result-Fresh :
    (g : String) (r : SearchResult) (groups : Groups)
    → (g == r.group) ≡ false
    → Fresh g groups
    → Fresh g (put_result r groups)
unfolding put_result
put_result-Fresh g r [] ne h = (ne, tt)
put_result-Fresh g r ((k, items) ∷ groups) ne (p, h) =
    ground (arith, p, h, put_result-Fresh g r groups ne h)

-- All results have this group.
abbrev Of : String → List SearchResult → Type 0
Of g rs = All (λ r. r.group ≡ g) rs

put_result-Open_of :
    (g : String) (r : SearchResult) (groups : Groups)
    → r.group ≡ g
    → Open g groups
    → Open g (put_result r groups)
put_result-Open_of g r groups e h =
    subst (λ k. Open k (put_result r groups)) e
      (put_result-Open r groups (subst (λ k. Open k groups) (sym e) h))

flatten-grouped_onto :
    (g : String) (groups : Groups) (rs : List SearchResult)
    → Of g rs
    → Open g groups
    → flatten (grouped_onto groups rs) ≡ flatten groups ++ rs
flatten-grouped_onto g groups [] h open_ = sym (append-nil (flatten groups))
flatten-grouped_onto g groups (r ∷ rs) (e, h) open_ =
    flatten-grouped_onto g (put_result r groups) rs h (put_result-Open_of g r groups e open_)
    ∙ ap (λ l. l ++ rs) (flatten-put_result r groups (subst (λ k. Open k groups) (sym e) open_))
    ∙ append_assoc (flatten groups) (r ∷ []) rs

grouped_onto-Fresh :
    (k g : String) (groups : Groups) (rs : List SearchResult)
    → Of g rs
    → (k == g) ≡ false
    → Fresh k groups
    → Fresh k (grouped_onto groups rs)
grouped_onto-Fresh k g groups [] h ne fresh = fresh
grouped_onto-Fresh k g groups (r ∷ rs) (e, h) ne fresh =
    grouped_onto-Fresh k g (put_result r groups) rs h ne
      (put_result-Fresh k r groups (ap (λ x. k == x) e ∙ ne) fresh)

grouped_onto-append :
    (groups : Groups) (rs rs' : List SearchResult)
    → grouped_onto groups (rs ++ rs') ≡ grouped_onto (grouped_onto groups rs) rs'
grouped_onto-append groups [] rs' = refl
grouped_onto-append groups (r ∷ rs) rs' = grouped_onto-append (put_result r groups) rs rs'

-- Parts of one group each, no two of the same.
abbrev IsParted : Groups → Type 0
IsParted [] = Unit
IsParted ((g, rs) ∷ parts) = Of g rs × All (λ e. (e.0 == g) ≡ false) parts × IsParted parts

AllFresh : Groups → Groups → Type 0
AllFresh parts groups = All (λ e. Fresh e.0 groups) parts

grouped_onto-AllFresh :
    (g : String) (parts groups : Groups) (rs : List SearchResult)
    → Of g rs
    → All (λ e. (e.0 == g) ≡ false) parts
    → AllFresh parts groups
    → AllFresh parts (grouped_onto groups rs)
unfolding AllFresh
grouped_onto-AllFresh g [] groups rs h ne fresh = tt
grouped_onto-AllFresh g (e ∷ parts) groups rs h (n, ne) (f, fresh) =
    (grouped_onto-Fresh e.0 g groups rs h n f, grouped_onto-AllFresh g parts groups rs h ne fresh)

flatten-grouped_onto_parts :
    (parts groups : Groups)
    → IsParted parts
    → AllFresh parts groups
    → flatten (grouped_onto groups (flatten parts)) ≡ flatten groups ++ flatten parts
unfolding AllFresh
flatten-grouped_onto_parts [] groups h fresh = sym (append-nil (flatten groups))
flatten-grouped_onto_parts ((g, rs) ∷ parts) groups (of, ne, h) (f, fresh) =
    ap flatten (grouped_onto-append groups rs (flatten parts))
    ∙ flatten-grouped_onto_parts parts (grouped_onto groups rs) h
        (grouped_onto-AllFresh g parts groups rs of ne fresh)
    ∙ ap (λ l. l ++ flatten parts) (flatten-grouped_onto g groups rs of (Fresh-Open g groups f))
    ∙ append_assoc (flatten groups) rs (flatten parts)

collect-Of {ℓ} :
    {A : Type ℓ} (lo : Locale) (query g : String) (matches : A → Bool)
    (to_result : A → SearchResult)
    → ((x : A) → (to_result x).group ≡ g)
    → (xs : List A) → Of g (collect lo query matches to_result xs)
collect-Of lo query g matches to_result e [] = tt
collect-Of lo query g matches to_result e (x ∷ xs) =
    let rest = collect-Of lo query g matches to_result e xs in
    elim (Bool-cases (matches x)) [
      | inl h ↦ ground (arith, h, e x, rest)
      | inr h ↦ ground (arith, h, rest)
    ]

-- The parts that the search pushes, one kind of thing after the other.
abbrev parts_of : Locale → String → Cache → Groups
parts_of lo query cache =
    ("tunnels", collect lo query (tunnel_matches lo query) (tunnel_result lo query) cache.tunnels)
    ∷ ("domains", collect lo query (domain_matches lo query) (domain_result lo query) cache.domains)
    ∷ (
      "networks",
      collect lo query (network_matches lo query) (network_result lo query) cache.mesh_networks,
    )
    ∷ (
      "settings",
      collect lo query (settings_matches lo query) (settings_result lo query) settings_routes,
    )
    ∷ ("docs", docs_results lo query)
    ∷ []

docs_results-Of : (lo : Locale) (query : String) → Of "docs" (docs_results lo query)
unfolding docs_results
docs_results-Of lo query = ground arith

parts_of-IsParted :
    (lo : Locale) (query : String) (cache : Cache) → IsParted (parts_of lo query cache)
unfolding tunnel_result domain_result network_result settings_result
parts_of-IsParted lo query cache = (
  collect-Of lo query "tunnels" (tunnel_matches lo query) (tunnel_result lo query) (λ x. refl)
      cache.tunnels,
  (refl, (refl, (refl, (refl, tt)))),
  (
    collect-Of lo query "domains" (domain_matches lo query) (domain_result lo query) (λ x. refl)
        cache.domains,
    (refl, (refl, (refl, tt))),
    (
      collect-Of lo query "networks" (network_matches lo query) (network_result lo query)
          (λ x. refl) cache.mesh_networks,
      (refl, (refl, tt)),
      (
        collect-Of lo query "settings" (settings_matches lo query) (settings_result lo query)
            (λ x. refl) settings_routes,
        (refl, tt),
        (docs_results-Of lo query, tt, tt),
      ),
    ),
  ),
)

flatten-parts_of :
    (lo : Locale) (query : String) (cache : Cache)
    → flatten (parts_of lo query cache) ≡ results lo query cache
unfolding results
flatten-parts_of lo query cache = rw (append-nil (docs_results lo query))

-- The groups one after the other, as they are shown, are the results in the order of the keyboard.
pub flatten-grouped-results :
    (lo : Locale) (query : String) (cache : Cache)
    → flatten (grouped (results lo query cache)) ≡ results lo query cache
unfolding results grouped AllFresh
flatten-grouped-results lo query cache =
    ap (λ l. flatten (grouped_onto [] l)) (sym (flatten-parts_of lo query cache))
    ∙ flatten-grouped_onto_parts (parts_of lo query cache) [] (parts_of-IsParted lo query cache)
        (tt, (tt, (tt, (tt, (tt, tt)))))
    ∙ flatten-parts_of lo query cache
