-- ===== src/Toasts/Defs.antt =====
-- The provider as a step relation with the browser's timers.
use omni_tun.Prelude.{
  ℕ, String, not, Option, none, some, List, [], ◌∷◌, ◌++◌, ◌==◌, ltb, select, if◌then◌else◌,
}

pub data ToastVariant : Type 0 where
  default success error warning : ToastVariant

-- What `toast` is called with.
pub record ToastInput : Type 0 where
  pub title : String
  pub description : Option String
  pub variant : Option ToastVariant
  pub duration : Option ℕ

pub record Toast : Type 0 where
  pub id : String
  pub input : ToastInput

-- The toasts that are shown, and the ids that a timer will dismiss.
pub record Toasts : Type 0 where
  pub toasts : List Toast
  pub timers : List String

abbrev pub no_toasts : Toasts
no_toasts = record { toasts = []; timers = [] }

-- `t.duration ?? 4000`
abbrev pub duration_of : ToastInput → ℕ
duration_of t = elim t.duration [ none ↦ 4000 | some d ↦ d ]

unfoldable pub dismiss : String → Toasts → Toasts
dismiss id s = record s { toasts = select (λ t. not (t.id == id)) s.toasts }

-- `toast`; the id is what `crypto.randomUUID` gives.
unfoldable pub toast : String → ToastInput → Toasts → Toasts
toast id t s = record {
  toasts = s.toasts ++ (record { id = id; input = t } ∷ []);
  timers = if ltb 0 (duration_of t) then id ∷ s.timers else s.timers;
}

-- A timer that has fired is gone.
abbrev pub fired : String → List String → List String
fired id [] = []
fired id (x ∷ l) = let rest = fired id l in if x == id then l else x ∷ rest

unfoldable pub on_timeout : String → Toasts → Toasts
on_timeout id s = dismiss id (record s { timers = fired id s.timers })
