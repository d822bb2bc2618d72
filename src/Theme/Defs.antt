-- ===== src/Theme/Defs.antt =====
-- The theme with the storage and the document.
use omni_tun.Prelude.{
  ℕ, ◌+◌, ◌%◌, String, Bool, true, false, Option, none, some, List, [], ◌∷◌, Dict, get, put,
  get_elem?, length, ◌==◌, if◌then◌else◌,
}

pub data Theme : Type 0 where
  light dark system : Theme

abbrev pub theme_text : Theme → String
theme_text light = "light"
theme_text dark = "dark"
theme_text system = "system"

-- `stored === 'dark'` and so on.
abbrev pub theme_of : String → Theme
theme_of stored = if stored == "dark" then dark else if stored == "light" then light else system

abbrev pub storage_key : String
storage_key = "omnitun-theme"

-- `localStorage`, if it is there: its methods throw where it is not, and both callers ignore that.
abbrev pub LocalStorage : Type 0
LocalStorage = Option (Dict String)

unfoldable pub get_stored_theme : LocalStorage → Theme
get_stored_theme none = system
get_stored_theme (some st) = elim (get storage_key st) [
  | none ↦ system
  | some stored ↦ theme_of stored
]

unfoldable pub set_item : String → String → LocalStorage → LocalStorage
set_item key value none = none
set_item key value (some st) = some (put key value st)

-- `applyTheme`; the argument is what `matchMedia` says of the system's preference.
unfoldable pub is_dark : Bool → Theme → Bool
is_dark prefers_dark light = false
is_dark prefers_dark dark = true
is_dark prefers_dark system = prefers_dark

abbrev pub theme_cycle : List Theme
theme_cycle = light ∷ dark ∷ system ∷ []

abbrev pub index_in : Theme → ℕ
index_in light = 0
index_in dark = 1
index_in system = 2

abbrev pub theme_at : List Theme → ℕ → Theme → Theme
theme_at themes i otherwise = elim (get_elem? themes i) [ none ↦ otherwise | some t ↦ t ]

-- `themeCycle[(idx + 1) % themeCycle.length]`
unfoldable pub next_theme : Theme → Theme
next_theme prev = theme_at theme_cycle ((index_in prev + 1) % length theme_cycle) prev

-- The component's theme with the storage, and whether the document has the class `dark`; the listener
-- of the system's preference is there while the theme is `system`.
pub record ThemeToggle : Type 0 where
  pub theme : Theme
  pub storage : LocalStorage
  pub document_dark : Bool

-- Mounting reads the storage, and the effect applies the theme.
unfoldable pub mount : Bool → LocalStorage → ThemeToggle
mount prefers_dark st = record {
  theme = get_stored_theme st;
  storage = st;
  document_dark = is_dark prefers_dark (get_stored_theme st);
}

-- The button, with the effect that follows the changed theme.
unfoldable pub cycle : Bool → ThemeToggle → ThemeToggle
cycle prefers_dark s =
    let theme = next_theme s.theme in
    record {
      theme = theme;
      storage = set_item storage_key (theme_text theme) s.storage;
      document_dark = is_dark prefers_dark theme;
    }

-- The system's preference changes: `handleChange`, where the listener is there.
unfoldable pub on_preference : Bool → ThemeToggle → ThemeToggle
on_preference prefers_dark s = elim s.theme [
  | system ↦ record s { document_dark = is_dark prefers_dark system }
  | _ ↦ s
]
