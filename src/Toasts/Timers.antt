-- ===== src/Toasts/Timers.antt =====
-- Which toasts the timers leave.
use omni_tun.Prelude.{
  String, Bool, true, false, not, ◌≡◌, refl, ap, ◌∙◌, List, [], ◌∷◌, ◌==◌, ltb, select, any,
  contains, All, All-append, All-select, arith, eq_iff, Bool-cases, inl, inr,
}
use omni_tun.Toasts.Defs.{
  ToastInput, Toast, Toasts, no_toasts, duration_of, dismiss, toast, fired, on_timeout,
}

-- A toast whose duration is 0 stays until the user dismisses it.
abbrev pub is_sticky : Toast → Bool
is_sticky t = not (ltb 0 (duration_of t.input))

-- The id is neither shown nor waited for.
abbrev pub IsFresh : String → Toasts → Type 0
IsFresh id s = (any (λ t. t.id == id) s.toasts ≡ false) × (contains id s.timers ≡ false)

-- A toast is shown under a fresh id; the user dismisses one; a pending timer fires.
pub data Step : Toasts → Toasts → Type 0 where
  shows : (s : Toasts) (id : String) (t : ToastInput) → IsFresh id s → Step s (toast id t s)
  dismisses : (s : Toasts) (id : String) → Step s (dismiss id s)
  fires : (s : Toasts) (id : String) → contains id s.timers ≡ true → Step s (on_timeout id s)

pub data Reach (s : Toasts) : Toasts → Type 0 where
  here : Reach s s
  next : {t u : Toasts} → Reach s t → Step t u → Reach s u

-- A timer is pending for exactly the toasts that are not sticky.
abbrev IsTimed : List String → Toast → Type 0
IsTimed timers t = contains t.id timers ≡ not (is_sticky t)

abbrev AllTimed : Toasts → Type 0
AllTimed s = All (IsTimed s.timers) s.toasts

IsTimed-cons :
    (id : String) (timers : List String) (ts : List Toast)
    → any (λ t. t.id == id) ts ≡ false
    → All (IsTimed timers) ts
    → All (IsTimed (id ∷ timers)) ts
IsTimed-cons id timers [] e h = tt
IsTimed-cons id timers (t ∷ ts) e (p, h) = (
  ground (arith, e, p, eq_iff t.id id, eq_iff id t.id),
  IsTimed-cons id timers ts (ground (arith, e)) h,
)

contains-fired :
    (x id : String) (l : List String) → (x == id) ≡ false → contains x (fired id l) ≡ contains x l
contains-fired x id [] h = refl
contains-fired x id (y ∷ l) h =
    ground (arith, eq_iff y id, eq_iff y x, eq_iff x id, contains-fired x id l)

IsTimed-fired :
    (id : String) (timers : List String) (ts : List Toast)
    → All (IsTimed timers) ts
    → All (IsTimed (fired id timers)) (select (λ t. not (t.id == id)) ts)
IsTimed-fired id timers [] h = tt
IsTimed-fired id timers (t ∷ ts) (p, h) = elim (Bool-cases (t.id == id)) [
  | inl gone ↦ rw gone (IsTimed-fired id timers ts h)
  | inr stays ↦ rw stays (contains-fired t.id id timers stays ∙ p, IsTimed-fired id timers ts h)
]

toast-AllTimed :
    (id : String) (t : ToastInput) (s : Toasts)
    → IsFresh id s
    → AllTimed s
    → AllTimed (toast id t s)
unfolding toast
toast-AllTimed id t s (unshown, unawaited) h = elim (Bool-cases (ltb 0 (duration_of t))) [
  | inl timed ↦ rw timed (
      All-append (IsTimed (id ∷ s.timers)) s.toasts _ (IsTimed-cons id s.timers s.toasts unshown h)
        (ground (arith, timed, eq_iff id id), tt))
  | inr sticky ↦
      rw sticky (All-append (IsTimed s.timers) s.toasts _ h (ground (arith, sticky, unawaited), tt))
]

Step-AllTimed : {s u : Toasts} → Step s u → AllTimed s → AllTimed u
unfolding dismiss on_timeout
Step-AllTimed (shows s id t fresh) h = toast-AllTimed id t s fresh h
Step-AllTimed (dismisses s id) h = All-select (IsTimed s.timers) (λ t. not (t.id == id)) s.toasts h
Step-AllTimed (fires s id e) h = IsTimed-fired id s.timers s.toasts h

Reach-AllTimed : {s u : Toasts} → AllTimed s → Reach s u → AllTimed u
Reach-AllTimed h here = h
Reach-AllTimed h (next r st) = Step-AllTimed st (Reach-AllTimed h r)

-- The timers fire one after the other.
abbrev pub fire_all : List String → Toasts → Toasts
fire_all [] s = s
fire_all (id ∷ ids) s = fire_all ids (on_timeout id s)

select-all : (ts : List Toast) → ts ≡ select (λ t. not (contains t.id [])) ts
select-all [] = refl
select-all (t ∷ ts) = ap (λ l. t ∷ l) (select-all ts)

select-without :
    (id : String) (ids : List String) (ts : List Toast)
    → select (λ t. not (contains t.id ids)) (select (λ t. not (t.id == id)) ts)
      ≡ select (λ t. not (contains t.id (id ∷ ids))) ts
select-without id ids [] = refl
select-without id ids (t ∷ ts) =
    ground (arith, select-without id ids ts, eq_iff t.id id, eq_iff id t.id)

toasts-fire_all :
    (ids : List String) (s : Toasts)
    → (fire_all ids s).toasts ≡ select (λ t. not (contains t.id ids)) s.toasts
unfolding on_timeout dismiss
toasts-fire_all [] s = select-all s.toasts
toasts-fire_all (id ∷ ids) s =
    toasts-fire_all ids (on_timeout id s) ∙ select-without id ids s.toasts

select-sticky :
    (timers : List String) (ts : List Toast)
    → All (IsTimed timers) ts
    → select (λ t. not (contains t.id timers)) ts ≡ select is_sticky ts
select-sticky timers [] h = refl
select-sticky timers (t ∷ ts) (p, h) = ground (arith, p, select-sticky timers ts h)

-- From an empty screen, whatever was shown and dismissed: when the pending timers have fired, exactly
-- the sticky toasts that were shown are left.
pub toasts-fire_all_timers :
    {s : Toasts} → Reach no_toasts s → (fire_all s.timers s).toasts ≡ select is_sticky s.toasts
toasts-fire_all_timers {s} r =
    toasts-fire_all s.timers s ∙ select-sticky s.timers s.toasts (Reach-AllTimed tt r)
