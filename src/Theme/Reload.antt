-- ===== src/Theme/Reload.antt =====
-- A reload shows what the button last chose.
use omni_tun.Prelude.{
  Bool, ◌≡◌, refl, some, Dict, String, List, [], ◌∷◌, ap, ◌∙◌, get, put, get-put_self, arith,
}
use omni_tun.Theme.Defs.{
  Theme, light, dark, system, theme_text, theme_of, storage_key, get_stored_theme, set_item,
  is_dark, next_theme, ThemeToggle, mount, cycle, on_preference,
}

-- What a user can see happen.
pub data Happening : Type 0 where
  click : Happening
  preference : Bool → Happening

-- The preference with the component.
abbrev pub after : Happening → Bool × ThemeToggle → Bool × ThemeToggle
after click (prefers, s) = (prefers, cycle prefers s)
after (preference prefers') (prefers, s) = (prefers', on_preference prefers' s)

abbrev pub after_all : List Happening → Bool × ThemeToggle → Bool × ThemeToggle
after_all [] p = p
after_all (e ∷ es) p = after_all es (after e p)

theme_of-theme_text : (t : Theme) → theme_of (theme_text t) ≡ t
theme_of-theme_text light = refl
theme_of-theme_text dark = refl
theme_of-theme_text system = refl

-- The theme is the stored one, and the document shows it.
pub record IsShown (p : Bool × ThemeToggle) : Type 0 where
  pub kept : get_stored_theme p.1.storage ≡ p.1.theme
  pub shown : p.1.document_dark ≡ is_dark p.0 p.1.theme
  pub available : (st : Dict String) × (p.1.storage ≡ some st)

stored_as :
    (st : Dict String) (text : String)
    → get storage_key st ≡ some text
    → get_stored_theme (some st) ≡ theme_of text
unfolding get_stored_theme
stored_as st text h = ground (arith, h)

stored_next :
    (t : Theme) (st : Dict String)
    → get_stored_theme (set_item storage_key (theme_text t) (some st)) ≡ t
unfolding set_item
stored_next t st =
    stored_as (put storage_key (theme_text t) st) (theme_text t)
      (get-put_self storage_key (theme_text t) st)
    ∙ theme_of-theme_text t

on_preference-IsShown :
    (prefers prefers' : Bool) (s : ThemeToggle)
    → IsShown (prefers, s)
    → IsShown (prefers', on_preference prefers' s)
unfolding on_preference is_dark
on_preference-IsShown prefers prefers' s h = record {
  kept = ground (arith, h.kept);
  shown = ground (arith, h.shown);
  available = (h.available.0, ground (arith, h.available.1));
}

put_stored :
    (t : Theme) (st : Dict String)
    → set_item storage_key (theme_text t) (some st) ≡ some (put storage_key (theme_text t) st)
unfolding set_item
put_stored t st = refl

after-IsShown : (e : Happening) (p : Bool × ThemeToggle) → IsShown p → IsShown (after e p)
unfolding cycle
after-IsShown click (prefers, s) h =
    let (st, e) = h.available in
    let t = next_theme s.theme in
    record {
      kept =
          ap (λ x. get_stored_theme (set_item storage_key (theme_text t) x)) e ∙ stored_next t st;
      shown = refl;
      available = (
        put storage_key (theme_text t) st,
        ap (set_item storage_key (theme_text t)) e ∙ put_stored t st,
      );
    }
after-IsShown (preference prefers') (prefers, s) h = on_preference-IsShown prefers prefers' s h

mount-IsShown : (prefers : Bool) (st : Dict String) → IsShown (prefers, mount prefers (some st))
unfolding mount
mount-IsShown prefers st = record { kept = refl; shown = refl; available = (st, refl) }

after_all-IsShown :
    (es : List Happening) (p : Bool × ThemeToggle) → IsShown p → IsShown (after_all es p)
after_all-IsShown [] p h = h
after_all-IsShown (e ∷ es) p h = after_all-IsShown es (after e p) (after-IsShown e p h)

IsShown-mount : (p : Bool × ThemeToggle) → IsShown p → mount p.0 p.1.storage ≡ p.1
unfolding mount
IsShown-mount (prefers, s) h = rw (h.kept, ← h.shown)

-- Where the storage is available: after any clicks and changes of the system's preference, mounting
-- the component again on the storage gives the state that is shown.
pub mount-after_all :
    (es : List Happening) (prefers : Bool) (st : Dict String)
    → let p = after_all es (prefers, mount prefers (some st)) in mount p.0 p.1.storage ≡ p.1
mount-after_all es prefers st =
    IsShown-mount (after_all es (prefers, mount prefers (some st)))
      (after_all-IsShown es (prefers, mount prefers (some st)) (mount-IsShown prefers st))

-- Three clicks lead back.
pub next_theme_thrice : (t : Theme) → next_theme (next_theme (next_theme t)) ≡ t
unfolding next_theme
next_theme_thrice light = refl
next_theme_thrice dark = refl
next_theme_thrice system = refl
