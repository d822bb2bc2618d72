-- ===== src/Pages/Activity.antt =====
-- The activity tab of web/src/pages/Settings.tsx: how an event and its user are shown.
use Prim.Native.String
use omni_tun.Prelude.{
  ℕ, ◌+◌, String, ◌≡◌, some, List, [], ◌∷◌, get_elem?, get_elem?-some, split_on, ◌==◌,
  if◌then◌else◌, arith,
}
use Prim.Native.Nat.{◌%◌}

abbrev pub action_text : String → List String → String
action_text action (resource ∷ verb ∷ rest) = String.◌++◌ resource (String.◌++◌ " " verb)
action_text action _ = action

unfoldable pub format_action : String → String
format_action action = action_text action (split_on "." action)

-- `s.charAt(0)`
abbrev pub first_char : String → String
first_char String.[] = ""
first_char (String.◌∷◌ c s) = String.◌∷◌ c String.[]

-- `to_upper` is `toUpperCase`.
unfoldable pub get_initials : (String → String) → String → String → String
get_initials to_upper name email =
    if name == ""
    then (if email == "" then "?" else to_upper (first_char email))
    else to_upper (first_char name)

abbrev pub avatar_colors : List String
avatar_colors =
    "bg-blue-100 text-blue-700 dark:bg-blue-900 dark:text-blue-200"
    ∷ "bg-emerald-100 text-emerald-700 dark:bg-emerald-900 dark:text-emerald-200"
    ∷ "bg-amber-100 text-amber-700 dark:bg-amber-900 dark:text-amber-200"
    ∷ "bg-purple-100 text-purple-700 dark:bg-purple-900 dark:text-purple-200"
    ∷ "bg-pink-100 text-pink-700 dark:bg-pink-900 dark:text-pink-200"
    ∷ "bg-cyan-100 text-cyan-700 dark:bg-cyan-900 dark:text-cyan-200" ∷ []

-- `reduce((a, c) => a + c.charCodeAt(0), a)`
abbrev pub sum_codes : ℕ → List ℕ → ℕ
sum_codes a [] = a
sum_codes a (c ∷ cs) = sum_codes (a + c) cs

-- `codes` gives the code units of a text; their sum is its own absolute value.
unfoldable pub color_index : (String → List ℕ) → String → ℕ
color_index codes user_id = sum_codes 0 (codes user_id) % 6

-- Every user has one of the colours.
pub color_index-some :
    (codes : String → List ℕ) (user_id : String)
    → (color : String) × (get_elem? avatar_colors (color_index codes user_id) ≡ some color)
unfolding color_index
color_index-some codes user_id =
    get_elem?-some avatar_colors (color_index codes user_id) (omega arith)
