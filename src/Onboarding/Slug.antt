-- ===== src/Onboarding/Slug.antt =====
-- What `slugify` makes.
use text.Mathlib.TextLemmas.{nil-append, cons-append}
use omni_tun.Prelude.{
  ℕ, zero, suc, ◌≤◌, String, Char, Bool, true, false, ◌&&◌, ◌||◌, ◌≡◌, refl, ◌==◌, arith,
  Bool-cases, inl, inr,
}
use omni_tun.Forms.{every_char, text_length}
use omni_tun.Palette.{take_text}
use omni_tun.Onboarding.Defs.{
  is_slug_char, is_dash, dashed, without_leading, without_trailing, slugify,
}

-- A letter, a digit or a dash.
abbrev pub may_stand : Char → Bool
may_stand c = is_slug_char c || is_dash c

every_char-dashed : (after : Bool) (s : String) → every_char may_stand (dashed after s) ≡ true
every_char-dashed after String.[] = refl
every_char-dashed after (String.◌∷◌ c s) = elim (Bool-cases (is_slug_char c)) [
  | inl kept ↦ rw kept (ground (arith, kept, every_char-dashed false s))
  | inr replaced ↦ elim (Bool-cases after) [
    | inl again ↦ rw (replaced, again, every_char-dashed true s)
    | inr first ↦ rw (replaced, first, cons-append, nil-append, every_char-dashed true s)
  ]
]

every_char-without_leading :
    (p : Char → Bool) (s : String) → every_char p s ≡ true → every_char p (without_leading s) ≡ true
every_char-without_leading p String.[] h = refl
every_char-without_leading p (String.◌∷◌ c s) h = elim (Bool-cases (is_dash c)) [
  | inl dash ↦ rw dash (every_char-without_leading p s (ground (arith, h)))
  | inr other ↦ rw other h
]

every_char-without_trailing :
    (p : Char → Bool) (s : String)
    → every_char p s ≡ true
    → every_char p (without_trailing s) ≡ true
every_char-without_trailing p String.[] h = refl
every_char-without_trailing p (String.◌∷◌ c s) h =
    let rest = every_char-without_trailing p s (ground (arith, h)) in
    let first : p c ≡ true = ground (arith, h) in
    elim (Bool-cases (is_dash c && (without_trailing s == ""))) [
      | inl ends ↦ rw ends
      | inr other ↦ rw (other, first, rest)
    ]

every_char-take_text :
    (p : Char → Bool) (n : ℕ) (s : String)
    → every_char p s ≡ true
    → every_char p (take_text n s) ≡ true
every_char-take_text p zero s h = refl
every_char-take_text p (suc n) String.[] h = refl
every_char-take_text p (suc n) (String.◌∷◌ c s) h =
    let rest = every_char-take_text p n s (ground (arith, h)) in
    let first : p c ≡ true = ground (arith, h) in rw (first, rest)

-- Such characters are one UTF-16 unit each.
text_length-take_text :
    (n : ℕ) (s : String) → every_char may_stand s ≡ true → text_length (take_text n s) ≤ n
unfolding text_length
text_length-take_text zero s h = omega arith
text_length-take_text (suc n) String.[] h = omega arith
text_length-take_text (suc n) (String.◌∷◌ c s) h =
    ground (arith, h, text_length-take_text n s (ground (arith, h)))

abbrev pub begins_with_dash : String → Bool
begins_with_dash String.[] = false
begins_with_dash (String.◌∷◌ c s) = is_dash c

begins_with_dash-without_leading : (s : String) → begins_with_dash (without_leading s) ≡ false
begins_with_dash-without_leading String.[] = refl
begins_with_dash-without_leading (String.◌∷◌ c s) = elim (Bool-cases (is_dash c)) [
  | inl dash ↦ rw dash (begins_with_dash-without_leading s)
  | inr other ↦ rw other other
]

begins_with_dash-without_trailing :
    (s : String) → begins_with_dash s ≡ false → begins_with_dash (without_trailing s) ≡ false
begins_with_dash-without_trailing String.[] h = refl
begins_with_dash-without_trailing (String.◌∷◌ c s) h = rw h h

begins_with_dash-take_text :
    (n : ℕ) (s : String) → begins_with_dash s ≡ false → begins_with_dash (take_text n s) ≡ false
begins_with_dash-take_text zero s h = refl
begins_with_dash-take_text (suc n) String.[] h = refl
begins_with_dash-take_text (suc n) (String.◌∷◌ c s) h = h

-- Whatever the text and the letter case of its locale: the slug has only letters from a to z, digits and
-- dashes, at most sixty-four of them, and does not begin with a dash.
pub slugify_bounds :
    (to_lower : String → String) (text : String)
    → (every_char may_stand (slugify to_lower text) ≡ true)
      × (text_length (slugify to_lower text) ≤ 64)
      × (begins_with_dash (slugify to_lower text) ≡ false)
unfolding slugify
slugify_bounds to_lower text =
    let lower = to_lower text in
    let kept =
      every_char-without_trailing may_stand (without_leading (dashed false lower)) (
        every_char-without_leading may_stand (dashed false lower)
          (every_char-dashed false lower)) in
    let trimmed = without_trailing (without_leading (dashed false lower)) in
    (
      every_char-take_text may_stand 64 trimmed kept,
      text_length-take_text 64 trimmed kept,
      begins_with_dash-take_text 64 trimmed (
          begins_with_dash-without_trailing (without_leading (dashed false lower))
            (begins_with_dash-without_leading (dashed false lower))),
    )
