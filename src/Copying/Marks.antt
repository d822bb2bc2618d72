-- ===== src/Copying/Marks.antt =====
-- How long a mark is shown.
use omni_tun.Prelude.{
  ℕ, ◌+◌, String, Bool, true, false, not, ◌≡◌, refl, sym, none, some, [], ◌∷◌, any, leb, arith,
  Bool-cases, inl, inr, if◌then◌else◌, ◌&&◌, ◌||◌,
}
use omni_tun.Copying.Defs.{new_copying, marked, pass}

leb-shift : (a b k : ℕ) → leb (a + k) (b + k) ≡ leb a b
leb-shift a b k = ground arith

leb-shift_twice : (a now gap wait : ℕ) → leb (a + now) (wait + (gap + now)) ≡ leb a (gap + wait)
leb-shift_twice a now gap wait = ground arith

-- What is left of one earlier timer, and whether it or the later one has fired.
two_timers :
    (first later : ℕ) (b : String) (fired gone : Bool)
    → (if fired || any (λ t. leb t later) (if not gone then first ∷ [] else [])
        then none
        else some b)
      ≡ (if fired || (not gone && leb first later) then none else some b)
two_timers first later b fired true = refl
two_timers first later b fired false = elim (Bool-cases (leb first later)) [
  | inl due ↦ rw due refl
  | inr pending ↦ rw pending refl
]

-- A second copy `gap` milliseconds after the first one, and `wait` milliseconds later.
pub second_mark_lem :
    (a b : String) (now gap wait : ℕ)
    → (pass wait (marked b (pass gap (marked a (new_copying now))))).copied
      ≡ (if leb 2000 wait || (not (leb 2000 gap) && leb 2000 (gap + wait)) then none else some b)
unfolding pass marked new_copying
second_mark_lem a b now gap wait =
    rw
      (
        sym (leb-shift 2000 gap now),
        sym (leb-shift 2000 wait (gap + now)),
        sym (leb-shift_twice 2000 now gap wait),
      )
      (two_timers (2000 + now) (wait + (gap + now)) b
        (leb (2000 + (gap + now)) (wait + (gap + now))) (leb (2000 + now) (gap + now)))
