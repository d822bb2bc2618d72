-- ===== src/Prelude/Split.antt =====
-- `s.split(…)` at a separator of one character, and the text that joins the parts again.
use Prim.Native.Char.{Char, code}
use Prim.Native.String
use Prim.Native.String.{String}
use mathlib.Core.Path.{◌≡◌, refl, sym, ap, ◌∙◌}
use mathlib.Core.Logic.{inl, inr}
use mathlib.Core.Bool.{Bool, true, false, not, ◌&&◌}
use mathlib.Core.List.{List, [], ◌∷◌}
use native.Mathlib.Omega.{arith}
use text.Mathlib.TextLemmas.{nil-append, cons-append}
use text.Mathlib.TextEquality.{Char-path}
use omni_tun.Prelude.Tests.{nat_eq, if◌then◌else◌, Bool-cases}
use omni_tun.Prelude.Lists.{All}

-- Put a character in front of the first part.
abbrev onto_first : Char → List String → List String
onto_first c [] = (String.◌∷◌ c String.[]) ∷ []
onto_first c (p ∷ ps) = String.◌∷◌ c p ∷ ps

abbrev pub same_char : Char → Char → Bool
same_char c d = nat_eq (code c) (code d)

abbrev pub split_on : Char → String → List String
split_on sep String.[] = "" ∷ []
split_on sep (String.◌∷◌ c s) =
    let rest = split_on sep s in if same_char c sep then "" ∷ rest else onto_first c rest

-- The separator is not in the text.
abbrev pub IsFree : Char → String → Type 0
IsFree sep String.[] = Unit
IsFree sep (String.◌∷◌ c s) = (same_char c sep ≡ false) × IsFree sep s

abbrev pub is_free : Char → String → Bool
is_free sep String.[] = true
is_free sep (String.◌∷◌ c s) = not (same_char c sep) && is_free sep s

pub IsFree-of_is_free : (sep : Char) (s : String) → is_free sep s ≡ true → IsFree sep s
IsFree-of_is_free sep String.[] h = tt
IsFree-of_is_free sep (String.◌∷◌ c s) h =
    (ground (arith, h), IsFree-of_is_free sep s (ground (arith, h)))

-- The parts with the separator between them.
abbrev pub join_with : Char → List String → String
join_with sep [] = ""
join_with sep (p ∷ ps) = elim ps [
  | [] ↦ p
  | q ∷ qs ↦ String.◌++◌ p (String.◌∷◌ sep (join_with sep ps))
]

-- A text without the separator is one part.
pub split_on_of_IsFree : (sep : Char) (s : String) → IsFree sep s → split_on sep s ≡ s ∷ []
split_on_of_IsFree sep String.[] h = refl
split_on_of_IsFree sep (String.◌∷◌ c s) (p, h) = rw (p, split_on_of_IsFree sep s h)

same_char_refl : (c : Char) → same_char c c ≡ true
same_char_refl c = ground arith

-- The separator ends the first part.
pub split_on-append :
    (sep : Char) (s t : String)
    → IsFree sep s
    → split_on sep (String.◌++◌ s (String.◌∷◌ sep t)) ≡ s ∷ split_on sep t
split_on-append sep String.[] t h = rw (nil-append, same_char_refl sep)
split_on-append sep (String.◌∷◌ d s) t (p, h) = rw (cons-append, p, split_on-append sep s t h)

-- Splitting gives at least one part.
split_on-cons :
    (sep : Char) (s : String) → (p : String) × (ps : List String) × (split_on sep s ≡ p ∷ ps)
split_on-cons sep String.[] = ("", [], refl)
split_on-cons sep (String.◌∷◌ c s) =
    let (p, ps, e) = split_on-cons sep s in
    elim (Bool-cases (same_char c sep)) [
      | inl ends ↦ ("", split_on sep s, rw ends)
      | inr stays ↦ (String.◌∷◌ c p, ps, rw (stays, e))
    ]

join_with-onto :
    (sep c : Char) (p : String) (ps : List String)
    → join_with sep (String.◌∷◌ c p ∷ ps) ≡ String.◌∷◌ c (join_with sep (p ∷ ps))
join_with-onto sep c p [] = refl
join_with-onto sep c p (q ∷ ps) = cons-append c p _

-- The parts of a text, joined again, are the text.
pub join_with-split_on : (sep : Char) (s : String) → join_with sep (split_on sep s) ≡ s
join_with-split_on sep String.[] = refl
join_with-split_on sep (String.◌∷◌ c s) =
    let (p, ps, e) = split_on-cons sep s in
    let ih : join_with sep (p ∷ ps) ≡ s = sym (ap (join_with sep) e) ∙ join_with-split_on sep s in
    elim (Bool-cases (same_char c sep)) [
      | inl ends ↦
          rw (ends, e, nil-append, join_with-split_on sep s)
            (ap (λ (d : Char). String.◌∷◌ d s) (Char-path sep c (ground arith)))
      | inr stays ↦ rw (stays, e, join_with-onto, ih)
    ]

-- No part has the separator.
pub split_on-IsFree : (sep : Char) (s : String) → All (IsFree sep) (split_on sep s)
split_on-IsFree sep String.[] = (tt, tt)
split_on-IsFree sep (String.◌∷◌ c s) =
    let (p, ps, e) = split_on-cons sep s in
    let h = split_on-IsFree sep s in
    elim (Bool-cases (same_char c sep)) [
      | inl ends ↦ rw ends (tt, h)
      | inr stays ↦ rw (stays, e) (let (hp, hps) = rw e at h in ((stays, hp), hps))
    ]

-- Parts without the separator, joined and split again.
pub split_on-join_with :
    (sep : Char) (p : String) (ps : List String)
    → All (IsFree sep) (p ∷ ps)
    → split_on sep (join_with sep (p ∷ ps)) ≡ p ∷ ps
split_on-join_with sep p [] (h, hs) = split_on_of_IsFree sep p h
split_on-join_with sep p (q ∷ qs) (h, hs) =
    split_on-append sep p _ h ∙ ap (λ l. p ∷ l) (split_on-join_with sep q qs hs)

pub IsFree-append_cons :
    (x : Char) (s : String) (c : Char) (t : String)
    → IsFree x s
    → same_char c x ≡ false
    → IsFree x t
    → IsFree x (String.◌++◌ s (String.◌∷◌ c t))
IsFree-append_cons x String.[] c t h e k = rw nil-append (e, k)
IsFree-append_cons x (String.◌∷◌ d s) c t (p, h) e k =
    rw cons-append (p, IsFree-append_cons x s c t h e k)

-- Parts without a character, joined with another, are without it.
pub IsFree-join_with :
    (x sep : Char) (ps : List String)
    → same_char sep x ≡ false
    → All (IsFree x) ps
    → IsFree x (join_with sep ps)
IsFree-join_with x sep [] e h = tt
IsFree-join_with x sep (p ∷ []) e (h, hs) = h
IsFree-join_with x sep (p ∷ q ∷ qs) e (h, hs) =
    IsFree-append_cons x p sep _ h e (IsFree-join_with x sep (q ∷ qs) e hs)
