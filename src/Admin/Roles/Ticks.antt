-- ===== src/Admin/Roles/Ticks.antt =====
-- What the boxes of the permissions do.
use omni_tun.Prelude.{
  String, Bool, true, false, not, ◌≡◌, refl, List, [], ◌∷◌, any, all, select, contains,
  contains-append, contains-select, IsDistinct, select-IsDistinct, append-IsDistinct,
  toggle_in-IsDistinct, All, Bool-cases, inl, inr, arith, eq_refl, ℕ, zero, suc, none, some,
  get_elem?, is_distinct, IsDistinct-is_distinct, if◌then◌else◌,
}
use omni_tun.Admin.Roles.Permissions.{
  permission_categories, toggle_permission, toggle_category, all_category_checked,
  some_category_checked,
}

contains-toggle_category :
    (x : String) (perms : List String) (checked : Bool) (prev : List String)
    → contains x (toggle_category perms checked prev)
      ≡ (if contains x perms then checked else contains x prev)
unfolding toggle_category
contains-toggle_category x perms true prev = ground (
  arith,
  contains-append x prev (select (λ p. not (contains p prev)) perms),
  contains-select (λ p. not (contains p prev)) x perms,
)
contains-toggle_category x perms false prev =
    ground (arith, contains-select (λ p. not (contains p perms)) x prev)

all_checked :
    (perms form_perms : List String) (ps : List String)
    → ((x : String) → contains x ps ≡ true → contains x form_perms ≡ true)
    → all (λ p. contains p form_perms) ps ≡ true
all_checked perms form_perms [] h = refl
all_checked perms form_perms (p ∷ ps) h =
    let first = h p (ground (arith, eq_refl p)) in
    let rest = all_checked perms form_perms ps (λ x e. h x (ground (arith, e))) in
    ground (arith, first, rest)

none_checked :
    (form_perms ps : List String)
    → ((x : String) → contains x ps ≡ true → contains x form_perms ≡ false)
    → any (λ p. contains p form_perms) ps ≡ false
none_checked form_perms [] h = refl
none_checked form_perms (p ∷ ps) h =
    let first = h p (ground (arith, eq_refl p)) in
    let rest = none_checked form_perms ps (λ x e. h x (ground (arith, e))) in
    ground (arith, first, rest)

-- The box of a category gives each of its permissions what the box shows and leaves every other
-- permission as it was; the box is then ticked or empty as it was set, never in between.
pub toggle_category_lem :
    (perms : List String) (checked : Bool) (prev : List String)
    → ((x : String)
        → contains x (toggle_category perms checked prev)
          ≡ (if contains x perms then checked else contains x prev))
      × (all_category_checked perms (toggle_category perms true prev) ≡ true)
      × (any (λ p. contains p (toggle_category perms false prev)) perms ≡ false)
      × (some_category_checked perms (toggle_category perms checked prev) ≡ false)
unfolding all_category_checked some_category_checked
toggle_category_lem perms checked prev = (each, all_true, none_false, settled checked)
  where
    each :
        (x : String)
        → contains x (toggle_category perms checked prev)
          ≡ (if contains x perms then checked else contains x prev)
    each x = contains-toggle_category x perms checked prev

    all_true : all (λ p. contains p (toggle_category perms true prev)) perms ≡ true
    all_true =
        all_checked perms (toggle_category perms true prev) perms
          (λ x e. ground (arith, e, contains-toggle_category x perms true prev))

    none_false : any (λ p. contains p (toggle_category perms false prev)) perms ≡ false
    none_false =
        none_checked (toggle_category perms false prev) perms
          (λ x e. ground (arith, e, contains-toggle_category x perms false prev))

    settled : (b : Bool) → some_category_checked perms (toggle_category perms b prev) ≡ false
    settled true = ground (arith, all_true)
    settled false = ground (arith, none_false)

-- A click on the box of a permission, or on that of the category at this place, to this value.
pub data Tick : Type 0 where
  permission : String → Tick
  category : ℕ → Bool → Tick

abbrev pub category_at : ℕ → List String
category_at i = elim (get_elem? permission_categories i) [ none ↦ [] | some c ↦ c.1 ]

abbrev pub tick : Tick → List String → List String
tick (permission p) prev = toggle_permission p prev
tick (category i checked) prev = toggle_category (category_at i) checked prev

abbrev pub ticks : List Tick → List String → List String
ticks [] prev = prev
ticks (t ∷ ts) prev = ticks ts (tick t prev)

category_at-IsDistinct : (i : ℕ) → IsDistinct (category_at i)
category_at-IsDistinct i =
    IsDistinct-is_distinct (category_at i) (at_place i permission_categories refl)
  where
    at_place :
        (i : ℕ) (cats : List (String × List String))
        → all (λ c. is_distinct c.1) cats ≡ true
        → is_distinct (elim (get_elem? cats i) [ none ↦ [] | some c ↦ c.1 ]) ≡ true
    at_place i [] h = refl
    at_place zero (c ∷ cats) h = ground (arith, h)
    at_place (suc i) (c ∷ cats) h = at_place i cats (ground (arith, h))

select-outside :
    (prev perms : List String)
    → All (λ y. contains y prev ≡ false) (select (λ p. not (contains p prev)) perms)
select-outside prev [] = tt
select-outside prev (p ∷ perms) = elim (Bool-cases (contains p prev)) [
  | inl there ↦ rw there (select-outside prev perms)
  | inr new ↦ rw new (new, select-outside prev perms)
]

toggle_category-IsDistinct :
    (perms : List String) (checked : Bool) (prev : List String)
    → IsDistinct perms
    → IsDistinct prev
    → IsDistinct (toggle_category perms checked prev)
unfolding toggle_category
toggle_category-IsDistinct perms true prev h k =
    append-IsDistinct prev _ k (select-IsDistinct (λ p. not (contains p prev)) perms h)
      (select-outside prev perms)
toggle_category-IsDistinct perms false prev h k =
    select-IsDistinct (λ p. not (contains p perms)) prev k

-- Whatever boxes are clicked, a form without repeated permissions stays one.
pub ticks-IsDistinct :
    (ts : List Tick) (prev : List String) → IsDistinct prev → IsDistinct (ticks ts prev)
unfolding toggle_permission
ticks-IsDistinct [] prev h = h
ticks-IsDistinct (permission p ∷ ts) prev h =
    ticks-IsDistinct ts (toggle_permission p prev) (toggle_in-IsDistinct p prev h)
ticks-IsDistinct (category i checked ∷ ts) prev h =
    ticks-IsDistinct ts _
      (toggle_category-IsDistinct (category_at i) checked prev (category_at-IsDistinct i) h)
