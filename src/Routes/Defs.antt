-- ===== src/Routes/Defs.antt =====
-- Routes, and which of them the router may choose for a path. The router is third-party: an interface.
use omni_tun.Prelude.{
  ◌⊎◌, String, Char, Bool, true, false, not, ◌&&◌, ◌||◌, ◌≡◌, Option, none, some, List, [], ◌∷◌,
  ◌==◌, select, any, all, same_char, split_on, if◌then◌else◌,
}
use omni_tun.Forms.{is_lower, is_digit, every_char}

-- A part of the path of a route: a word, or a parameter such as `:id`.
pub data Part : Type 0 where
  word param : String → Part

-- The path of a route; `*` is `anything`.
pub data Pattern : Type 0 where
  parts : List Part → Pattern
  anything : Pattern

-- What a route shows: a page, or `<Navigate to=…>`.
pub data Element : Type 0 where
  page redirect : String → Element

-- A route that is a child of `ProtectedRoute` is protected.
pub record Route : Type 0 where
  pub path : Pattern
  pub is_protected : Bool
  pub element : Element

abbrev pub slash : Char
slash = "/"

abbrev pub is_filled_part : String → Bool
is_filled_part s = not (s == "")

-- The parts between the slashes.
abbrev pub segments : String → List String
segments path = select is_filled_part (split_on slash path)

abbrev pub parts_fit : List Part → List String → Bool
parts_fit [] [] = true
parts_fit [] (s ∷ ss) = false
parts_fit (p ∷ ps) [] = false
parts_fit (word w ∷ ps) (s ∷ ss) = (w == s) && parts_fit ps ss
parts_fit (param name ∷ ps) (s ∷ ss) = parts_fit ps ss

-- The pattern spells out the path, up to its parameters; `*` spells out none and fits all.
abbrev pub spells : String → Pattern → Bool
spells path (parts ps) = parts_fit ps (segments path)
spells path anything = false

abbrev pub admits : String → Pattern → Bool
admits path (parts ps) = parts_fit ps (segments path)
admits path anything = true

abbrev pub is_spelt : String → Route → Bool
is_spelt path r = spells path r.path

abbrev pub fits : String → Route → Bool
fits path r = admits path r.path

abbrev pub Mem : Route → List Route → Type 0
Mem r [] = ⊥
Mem r (x ∷ xs) = (r ≡ x) ⊎ Mem r xs

-- A lower-case letter of the alphabet, a digit or a dash.
abbrev pub is_tidy_char : Char → Bool
is_tidy_char c = is_lower c || is_digit c || same_char c "-"

-- Parts of such characters with one slash between; `after` says that a slash stands before.
abbrev pub tidy_rest : Bool → String → Bool
tidy_rest after String.[] = true
tidy_rest after (String.◌∷◌ c s) =
    (is_tidy_char c || same_char c slash && not after) && tidy_rest (same_char c slash) s

-- A path that the router reads as it is written: nothing in it is decoded, and its words have one
-- spelling.
abbrev pub is_tidy : String → Bool
is_tidy String.[] = false
is_tidy (String.◌∷◌ c s) = same_char c slash && tidy_rest true s

abbrev pub tidy_part : Part → Bool
tidy_part (word w) = is_filled_part w && every_char is_tidy_char w
tidy_part (param name) = is_filled_part name && every_char is_tidy_char name

abbrev pub tidy_pattern : Pattern → Bool
tidy_pattern (parts ps) = all tidy_part ps
tidy_pattern anything = true

-- The words of the routes are lower-case words.
abbrev pub tidy_table : List Route → Bool
tidy_table table = all (λ r. tidy_pattern r.path) table

-- `Routes`: what it chooses is a route of the table. It compares words regardless of case and decodes
-- the path, so the other laws are about tidy paths and tables: there it chooses a route that fits, if
-- there is one, and `*` only where no route spells out the path.
pub record Router : Type 0 where
  pub choose : List Route → String → Option Route
  pub choose-mem :
      (table : List Route) (path : String) (r : Route) → choose table path ≡ some r → Mem r table
  pub choose-fits :
      (table : List Route) (path : String) (r : Route)
      → tidy_table table ≡ true
      → is_tidy path ≡ true
      → choose table path ≡ some r
      → fits path r ≡ true
  pub choose-some :
      (table : List Route) (path : String)
      → tidy_table table ≡ true
      → is_tidy path ≡ true
      → any (fits path) table ≡ true
      → (r : Route) × (choose table path ≡ some r)
  pub choose-spelt :
      (table : List Route) (path : String) (r : Route)
      → tidy_table table ≡ true
      → is_tidy path ≡ true
      → any (is_spelt path) table ≡ true
      → choose table path ≡ some r
      → is_spelt path r ≡ true

-- `ProtectedRoute`
unfoldable pub guarded : Bool → Route → Element
guarded is_logged_in r = if r.is_protected && not is_logged_in then redirect "/login" else r.element

abbrev pub element_of : Bool → Option Route → Option Element
element_of is_logged_in none = none
element_of is_logged_in (some r) = some (guarded is_logged_in r)

-- What the application shows at a path.
unfoldable pub shown_at : Router → List Route → Bool → String → Option Element
shown_at router table is_logged_in path = element_of is_logged_in (router.choose table path)
