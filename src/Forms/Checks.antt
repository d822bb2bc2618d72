-- ===== src/Forms/Checks.antt =====
-- The checks on what is typed: the regular expressions, the lengths and the strength of a password.
use omni_tun.Prelude.{
  ℕ, ◌+◌, String, Char, code, Bool, true, false, not, ◌&&◌, ◌||◌, Option, none, some, leb, nat_eq,
  if◌then◌else◌,
}

abbrev pub between : ℕ → ℕ → Char → Bool
between a b c = leb a (code c) && leb (code c) b

-- `\s`
abbrev pub is_space : Char → Bool
is_space c =
    between 9 13 c
    || nat_eq (code c) 32
    || nat_eq (code c) 160
    || nat_eq (code c) 5760
    || between 8192 8202 c
    || between 8232 8233 c
    || nat_eq (code c) 8239
    || nat_eq (code c) 8287
    || nat_eq (code c) 12_288
    || nat_eq (code c) 65_279

abbrev pub some_char : (Char → Bool) → String → Bool
some_char p String.[] = false
some_char p (String.◌∷◌ c s) = p c || some_char p s

abbrev pub every_char : (Char → Bool) → String → Bool
every_char p String.[] = true
every_char p (String.◌∷◌ c s) = p c && every_char p s

-- `!s.trim()`
unfoldable pub is_blank : String → Bool
is_blank s = every_char is_space s

-- `s.length`, which counts UTF-16 units
unfoldable pub text_length : String → ℕ
text_length String.[] = 0
text_length (String.◌∷◌ c s) = (if leb (code c) 65_535 then 1 else 2) + text_length s

abbrev pub is_at : Char → Bool
is_at c = nat_eq (code c) 64

abbrev pub is_plain : Char → Bool
is_plain c = not (is_space c) && not (is_at c)

-- What follows the first `@`, where something stands before it and no space does.
abbrev pub after_at : Bool → String → Option String
after_at seen String.[] = none
after_at seen (String.◌∷◌ c s) =
    let rest = after_at true s in
    if is_at c then (if seen then some s else none) else if is_space c then none else rest

abbrev pub is_filled : String → Bool
is_filled String.[] = false
is_filled (String.◌∷◌ c s) = true

-- A dot with something behind it.
abbrev pub dot_before_rest : String → Bool
dot_before_rest String.[] = false
dot_before_rest (String.◌∷◌ c s) = nat_eq (code c) 46 && is_filled s || dot_before_rest s

abbrev pub is_domain : String → Bool
is_domain String.[] = false
is_domain (String.◌∷◌ c s) = every_char is_plain (String.◌∷◌ c s) && dot_before_rest s

-- `EMAIL_RE.test(s)`: the first `@` is the only one, and a dot stands inside of what follows it.
unfoldable pub is_email : String → Bool
is_email s = elim (after_at false s) [ none ↦ false | some domain ↦ is_domain domain ]

abbrev pub is_upper : Char → Bool
is_upper = between 65 90

abbrev pub is_lower : Char → Bool
is_lower = between 97 122

abbrev pub is_digit : Char → Bool
is_digit = between 48 57

pub data Strength : Type 0 where
  weak medium strong : Strength

abbrev pub point : Bool → ℕ
point b = if b then 1 else 0

unfoldable pub get_strength : String → Strength
get_strength pw =
    let score =
      point (leb 8 (text_length pw))
      + point (some_char is_upper pw && some_char is_lower pw)
      + point (some_char is_digit pw)
      + point (some_char (λ c. not (is_upper c || is_lower c || is_digit c)) pw) in
    if leb score 1 then weak else if leb score 2 then medium else strong
