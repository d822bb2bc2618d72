-- ===== src/ApiDocs/Laws/Groups.antt =====
-- The groups of the operations of a document.
use omni_tun.Prelude.{
  Bool, true, false, any, contains, put, ◌>>=◌, fun_ext, Option-cases, ◌⊎◌, String, ◌≡◌, refl, ◌∙◌,
  ap, sym, Option, none, some, List, [], ◌∷◌, ◌++◌, Dict, get, get-put, select, ◌==◌, eq_iff,
  append-nil, append_assoc, Bool-cases, inl, inr,
}
use omni_tun.ApiDocs.Defs.{
  PathOperation, OpenApiSpec, Endpoint, tag_of, or_none, inherited_names, put_endpoint,
  group_methods, group_paths, grouped_paths,
}

-- The operations of a path, and of the whole document, in its order.
abbrev pub endpoints_of : String → Dict PathOperation → List Endpoint
endpoints_of path [] = []
endpoints_of path ((method, op) ∷ methods) =
    record { path = path; method = method; op = op } ∷ endpoints_of path methods

abbrev pub endpoints : Dict (Dict PathOperation) → List Endpoint
endpoints [] = []
endpoints ((path, methods) ∷ paths) = endpoints_of path methods ++ endpoints paths

abbrev pub tagged : String → List Endpoint → List Endpoint
tagged tag es = select (λ e. tag_of e.op == tag) es

-- An operation whose tag throws.
abbrev pub is_inherited : Endpoint → Bool
is_inherited e = contains (tag_of e.op) inherited_names

abbrev with_endpoint : Endpoint → Dict (List Endpoint) → Dict (List Endpoint)
with_endpoint e groups = put (tag_of e.op) (or_none (get (tag_of e.op) groups) ++ (e ∷ [])) groups

abbrev put_all : List Endpoint → Dict (List Endpoint) → Option (Dict (List Endpoint))
put_all [] groups = some groups
put_all (e ∷ es) groups = put_endpoint e groups >>= (λ gs. put_all es gs)

put_all-append :
    (es fs : List Endpoint) (groups : Dict (List Endpoint))
    → put_all (es ++ fs) groups ≡ (put_all es groups >>= (λ gs. put_all fs gs))
put_all-append [] fs groups = refl
put_all-append (e ∷ es) fs groups = elim (Option-cases (put_endpoint e groups)) [
  | inl nothing ↦ rw nothing refl
  | inr (gs, e') ↦ rw e' (put_all-append es fs gs)
]

group_methods-put_all :
    (path : String) (methods : Dict PathOperation) (groups : Dict (List Endpoint))
    → group_methods path methods groups ≡ put_all (endpoints_of path methods) groups
unfolding group_methods
group_methods-put_all path [] groups = refl
group_methods-put_all path ((method, op) ∷ methods) groups =
    ap (λ k. put_endpoint (record { path = path; method = method; op = op }) groups >>= k)
      (fun_ext (λ gs. group_methods-put_all path methods gs))

group_paths-put_all :
    (paths : Dict (Dict PathOperation)) (groups : Dict (List Endpoint))
    → group_paths paths groups ≡ put_all (endpoints paths) groups
unfolding group_paths
group_paths-put_all [] groups = refl
group_paths-put_all ((path, methods) ∷ paths) groups =
    ap (λ k. group_methods path methods groups >>= k) (fun_ext (λ gs. group_paths-put_all paths gs))
    ∙ ap (λ o. o >>= (λ gs. put_all (endpoints paths) gs))
        (group_methods-put_all path methods groups)
    ∙ sym (put_all-append (endpoints_of path methods) (endpoints paths) groups)

-- A group with more operations; a group without any is not there.
abbrev pub joined : Option (List Endpoint) → List Endpoint → Option (List Endpoint)
joined old [] = old
joined old (e ∷ es) = some (or_none old ++ (e ∷ es))

joined-some : (xs : List Endpoint) (es : List Endpoint) → joined (some xs) es ≡ some (xs ++ es)
joined-some xs [] = ap some (sym (append-nil xs))
joined-some xs (e ∷ es) = refl

get-with_endpoint :
    (tag : String) (e : Endpoint) (es : List Endpoint) (groups : Dict (List Endpoint))
    → joined (get tag (with_endpoint e groups)) (tagged tag es)
      ≡ joined (get tag groups) (tagged tag (e ∷ es))
get-with_endpoint tag e es groups =
    let t = tag_of e.op in
    elim (Bool-cases (t == tag)) [
      | inl same ↦
          rw (same, get-put, same, joined-some)
            (rw append_assoc (
              ap (λ k. some (or_none (get k groups) ++ (e ∷ tagged tag es)))
                ((eq_iff t tag).0 same)))
      | inr other ↦ rw (other, get-put, other)
    ]

-- The loops throw exactly if a tag does; otherwise each group grows by its operations.
abbrev Grouped : List Endpoint → Dict (List Endpoint) → Type 0
Grouped es groups =
    ((any is_inherited es ≡ true) × (put_all es groups ≡ none))
    ⊎ ((any is_inherited es ≡ false)
        × ((gs : Dict (List Endpoint)) × (put_all es groups ≡ some gs)
            × ((tag : String) → get tag gs ≡ joined (get tag groups) (tagged tag es))))

put_all-Grouped : (es : List Endpoint) (groups : Dict (List Endpoint)) → Grouped es groups
unfolding put_endpoint
put_all-Grouped [] groups = inr (refl, (groups, refl, λ tag. refl))
put_all-Grouped (e ∷ es) groups = elim (Bool-cases (is_inherited e)) [
  | inl throws ↦ inl (rw throws refl, rw throws refl)
  | inr fine ↦ elim (put_all-Grouped es (with_endpoint e groups)) [
    | inl (bad, thrown) ↦ inl (rw fine bad, rw fine thrown)
    | inr (good, (gs, made, groups_of)) ↦
        inr (
          rw fine good,
          (gs, rw fine made, λ tag. groups_of tag ∙ get-with_endpoint tag e es groups),
        )
  ]
]

-- Whatever the document: the grouping throws exactly if the first tag of some operation is the name of
-- a property that every object inherits, such as "constructor". Otherwise the group of a tag holds the
-- operations with this first tag, all of them, each as often as the document has it and in its order,
-- and there is no group without an operation.
pub get-grouped_paths :
    (spec : OpenApiSpec)
    → ((any is_inherited (endpoints spec.paths) ≡ true) × (grouped_paths spec ≡ none))
      ⊎ ((any is_inherited (endpoints spec.paths) ≡ false)
          × ((groups : Dict (List Endpoint)) × (grouped_paths spec ≡ some groups)
              × ((tag : String)
                  → get tag groups ≡ joined none (tagged tag (endpoints spec.paths)))))
unfolding grouped_paths get
get-grouped_paths spec =
    rw (group_paths-put_all spec.paths []) (put_all-Grouped (endpoints spec.paths) [])
