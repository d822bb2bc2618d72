-- ===== src/Prelude/Sets.antt =====
-- Lists of texts as the sets that the pages keep: selected ids, tags, permissions, events.
use Prim.Native.String.{String}
use mathlib.Core.Path.{◌≡◌, refl, ap}
use mathlib.Core.Bool.{Bool, true, false, not, ◌&&◌, ◌||◌}
use mathlib.Core.Logic.{inl, inr}
use mathlib.Core.List.{List, [], ◌∷◌, ◌++◌}
use native.Mathlib.Omega.{arith}
use text.Mathlib.Text.{◌==◌}
use text.Mathlib.TextEquality.{eq_iff}
use omni_tun.Prelude.Tests.{if◌then◌else◌, Bool-cases}
use omni_tun.Prelude.Lists.{any, select, All}

-- `l.includes(s)`
abbrev pub contains : String → List String → Bool
contains s l = any (λ x. x == s) l

-- `l.filter((x) => x !== s)`
abbrev pub without : String → List String → List String
without s l = select (λ x. not (x == s)) l

-- `[...l, s]`
abbrev pub snoc : List String → String → List String
snoc [] s = s ∷ []
snoc (x ∷ l) s = x ∷ snoc l s

-- Take out what is there, add what is not.
unfoldable pub toggle_in : String → List String → List String
toggle_in s l = if contains s l then without s l else snoc l s

pub contains-without :
    (x s : String) (l : List String) → contains x (without s l) ≡ (not (x == s) && contains x l)
contains-without x s [] = ground arith
contains-without x s (y ∷ l) =
    ground (arith, eq_iff y s, eq_iff y x, eq_iff x s, contains-without x s l)

pub contains-snoc :
    (x s : String) (l : List String) → contains x (snoc l s) ≡ (contains x l || (s == x))
contains-snoc x s [] = ground arith
contains-snoc x s (y ∷ l) = ground (arith, contains-snoc x s l)

pub contains-toggle_in :
    (x s : String) (l : List String)
    → contains x (toggle_in s l) ≡ (if x == s then not (contains x l) else contains x l)
unfolding toggle_in
contains-toggle_in x s l = elim (Bool-cases (x == s)) [
  | inl same ↦
      let e : contains x l ≡ contains s l = ap (λ y. contains y l) ((eq_iff x s).0 same) in
      ground (arith, same, e, contains-without x s l, contains-snoc x s l, eq_iff x s, eq_iff s x)
  | inr other ↦
      ground (arith, other, contains-without x s l, contains-snoc x s l, eq_iff x s, eq_iff s x)
]

-- No element stands twice.
abbrev pub IsDistinct : List String → Type 0
IsDistinct [] = Unit
IsDistinct (x ∷ l) = (contains x l ≡ false) × IsDistinct l

pub contains-select_none :
    (p : String → Bool) (x : String) (l : List String)
    → contains x l ≡ false
    → contains x (select p l) ≡ false
contains-select_none p x [] h = refl
contains-select_none p x (y ∷ l) h = ground (arith, h, contains-select_none p x l)

pub select-IsDistinct :
    (p : String → Bool) (l : List String) → IsDistinct l → IsDistinct (select p l)
select-IsDistinct p [] h = h
select-IsDistinct p (x ∷ l) (new, h) =
    ground (arith, select-IsDistinct p l h, contains-select_none p x l new)

pub snoc-IsDistinct :
    (s : String) (l : List String) → contains s l ≡ false → IsDistinct l → IsDistinct (snoc l s)
snoc-IsDistinct s [] new h = (refl, tt)
snoc-IsDistinct s (x ∷ l) new (old, h) =
    let other : (s == x) ≡ false = ground (arith, new, eq_iff x s, eq_iff s x) in
    let later : contains s l ≡ false = ground (arith, new) in
    (ground (arith, contains-snoc x s l, old, other), snoc-IsDistinct s l later h)

pub toggle_in-IsDistinct :
    (s : String) (l : List String) → IsDistinct l → IsDistinct (toggle_in s l)
unfolding toggle_in
toggle_in-IsDistinct s l h = elim (Bool-cases (contains s l)) [
  | inl there ↦ rw there (select-IsDistinct (λ x. not (x == s)) l h)
  | inr new ↦ rw new (snoc-IsDistinct s l new h)
]

pub contains-append :
    (x : String) (l m : List String) → contains x (l ++ m) ≡ (contains x l || contains x m)
contains-append x [] m = refl
contains-append x (y ∷ l) m = ground (arith, contains-append x l m)

pub contains-select :
    (p : String → Bool) (x : String) (l : List String)
    → contains x (select p l) ≡ (p x && contains x l)
contains-select p x [] = ground arith
contains-select p x (y ∷ l) = elim (Bool-cases (y == x)) [
  | inl same ↦
      let e : p y ≡ p x = ap p ((eq_iff y x).0 same) in
      ground (arith, same, e, contains-select p x l)
  | inr other ↦ ground (arith, other, contains-select p x l)
]

contains-outside :
    (x : String) (l m : List String)
    → All (λ y. contains y (x ∷ l) ≡ false) m
    → (contains x m ≡ false) × All (λ y. contains y l ≡ false) m
contains-outside x l [] h = (refl, tt)
contains-outside x l (y ∷ m) (out, h) =
    let (rest, outs) = contains-outside x l m h in
    (ground (arith, out, rest, eq_iff x y, eq_iff y x), (ground (arith, out), outs))

pub append-IsDistinct :
    (l m : List String)
    → IsDistinct l
    → IsDistinct m
    → All (λ y. contains y l ≡ false) m
    → IsDistinct (l ++ m)
append-IsDistinct [] m h k out = k
append-IsDistinct (x ∷ l) m (new, h) k out =
    let (apart, outs) = contains-outside x l m out in
    (ground (arith, contains-append x l m, new, apart), append-IsDistinct l m h k outs)

abbrev pub is_distinct : List String → Bool
is_distinct [] = true
is_distinct (x ∷ l) = not (contains x l) && is_distinct l

pub IsDistinct-is_distinct : (l : List String) → is_distinct l ≡ true → IsDistinct l
IsDistinct-is_distinct [] h = tt
IsDistinct-is_distinct (x ∷ l) h = (ground (arith, h), IsDistinct-is_distinct l (ground (arith, h)))
