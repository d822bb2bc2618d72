-- ===== src/Api/Refresh/Sharing.antt =====
-- At most one refresh is under way, and who shares a promise gets the same token.
use omni_tun.Prelude.{
  ℕ, ◌≤◌, ◌<◌, true, ◌≡◌, ◌≢◌, refl, Option, none, some, List, [], ◌∷◌, All, length, arith, ◌⊎◌,
  inl, inr, ap, sym, ◌∙◌,
}
use omni_tun.Js.{Value}
use omni_tun.Api.Refresh.{
  Shared, idle, contains, without, In, begin, join, settle_run, resume, deliver, Step, enter_first,
  enter_later, settles, owner_resumes, waiter_resumes, Reach, here, next,
}

-- How the shared promise fits the callers and the runs.
abbrev Fits : Option ℕ → List ℕ → List ℕ → Type 0
Fits none owners running = (owners ≡ []) × (running ≡ [])
Fits (some p) owners running = (owners ≡ p ∷ []) × ((running ≡ []) ⊎ (running ≡ p ∷ []))

-- No promise is settled twice.
abbrev IsFunctional : List (ℕ × Value) → Type 0
IsFunctional [] = Unit
IsFunctional ((p, v) ∷ l) = All (λ e. e.0 ≢ p) l × IsFunctional l

pub record IsShared (s : Shared) : Type 0 where
  pub fits : Fits s.current s.owners s.running
  pub below : All (λ e. e.0 < s.started) s.settled
  pub running_below : All (λ p. p < s.started) s.running
  pub apart : All (λ p. All (λ e. e.0 ≢ p) s.settled) s.running
  pub functional : IsFunctional s.settled
  pub genuine : All (λ e. In e s.settled) s.returned

IsShared-idle : IsShared idle
IsShared-idle = record {
  fits = (refl, refl);
  below = tt;
  running_below = tt;
  apart = tt;
  functional = tt;
  genuine = tt;
}

module _ {A : Type 0} {P Q : A → Type 0} (f : (a : A) → P a → Q a) where
  All-mono : (l : List A) → All P l → All Q l
  All-mono [] h = tt
  All-mono (x ∷ l) (p, h) = (f x p, All-mono l h)

-- A promise that is older than all is none of the settled ones.
apart_lem : (n : ℕ) (l : List (ℕ × Value)) → All (λ e. e.0 < n) l → All (λ e. e.0 ≢ n) l
apart_lem n = All-mono (λ e h q. omega (arith, q, h))

-- What is under way is the current promise, and its maker waits for it.
only_run :
    (c : Option ℕ) (owners running : List ℕ) (p : ℕ)
    → Fits c owners running
    → contains p running ≡ true
    → (c ≡ some p) × (owners ≡ p ∷ []) × (running ≡ p ∷ [])
only_run none owners running p (o, r) e = cc (rw r at e)
only_run (some q) owners running p (o, inl r) e = cc (rw r at e)
only_run (some q) owners running p (o, inr r) e =
    let same : p ≡ q = let e' = rw r at e in ground arith in
    (ap some (sym same), rw same o, rw same r)

only_owner :
    (c : Option ℕ) (owners running : List ℕ) (p : ℕ)
    → Fits c owners running
    → contains p owners ≡ true
    → (owners ≡ p ∷ []) × ((running ≡ []) ⊎ (running ≡ p ∷ []))
only_owner none owners running p (o, r) e = cc (rw o at e)
only_owner (some q) owners running p (o, r) e =
    let same : p ≡ q = let e' = rw o at e in ground arith in (rw same o, rw same r)

without_self : (p : ℕ) → without p (p ∷ []) ≡ []
without_self p = ground arith

Fits-idle :
    (c : Option ℕ) (owners running : List ℕ)
    → c ≡ none
    → Fits c owners running
    → (owners ≡ []) × (running ≡ [])
Fits-idle none owners running e h = h
Fits-idle (some p) owners running e h = cc

begin-IsShared : (s : Shared) → s.current ≡ none → IsShared s → IsShared (begin s)
unfolding begin
begin-IsShared s e h =
    let (o, r) = Fits-idle s.current s.owners s.running e h.fits in
    record {
      fits = (ap (λ (l : List ℕ). s.started ∷ l) o, inr (ap (λ (l : List ℕ). s.started ∷ l) r));
      below = All-mono (λ e h. omega (arith, h)) s.settled h.below;
      running_below = (omega arith, All-mono (λ p h. omega (arith, h)) s.running h.running_below);
      apart = (apart_lem s.started s.settled h.below, h.apart);
      functional = h.functional;
      genuine = h.genuine;
    }

join-IsShared : (p : ℕ) (s : Shared) → IsShared s → IsShared (join p s)
unfolding join
join-IsShared p s h = record {
  fits = h.fits;
  below = h.below;
  running_below = h.running_below;
  apart = h.apart;
  functional = h.functional;
  genuine = h.genuine;
}

settle_run-IsShared :
    (p : ℕ) (v : Value) (s : Shared)
    → contains p s.running ≡ true
    → IsShared s
    → IsShared (settle_run p v s)
unfolding settle_run
settle_run-IsShared p v s e h =
    let (c, o, r) = only_run s.current s.owners s.running p h.fits e in
    let gone : without p s.running ≡ [] = rw r (without_self p) in
    let older = (rw r at h.running_below).0 in
    let unsettled = (rw r at h.apart).0 in
    record {
      fits = rw (c, gone) (o, inl refl);
      below = (older, h.below);
      running_below = rw gone tt;
      apart = rw gone tt;
      functional = (unsettled, h.functional);
      genuine = All-mono (λ e h. inr h) s.returned h.genuine;
    }

In-All : {A : Type 0} (P : A → Type 0) (x : A) (l : List A) → In x l → All P l → P x
In-All P x [] i h = elim i [ ]
In-All P x (y ∷ l) (inl same) (p, h) = rw same p
In-All P x (y ∷ l) (inr i) (p, h) = In-All P x l i h

resume-IsShared :
    (p : ℕ) (v : Value) (s : Shared)
    → contains p s.owners ≡ true
    → In (p, v) s.settled
    → IsShared s
    → IsShared (resume p v s)
unfolding resume
resume-IsShared p v s e i h =
    let (o, r) = only_owner s.current s.owners s.running p h.fits e in
    record {
      fits = (rw o (without_self p), ended r);
      below = h.below;
      running_below = h.running_below;
      apart = h.apart;
      functional = h.functional;
      genuine = (i, h.genuine);
    }
  where
    ended : (s.running ≡ []) ⊎ (s.running ≡ p ∷ []) → s.running ≡ []
    ended (inl r) = r
    ended (inr r) = absurd (In-All (λ e. e.0 ≢ p) (p, v) s.settled i (rw r at h.apart).0 refl)

deliver-IsShared :
    (p : ℕ) (v : Value) (s : Shared) → In (p, v) s.settled → IsShared s → IsShared (deliver p v s)
unfolding deliver
deliver-IsShared p v s i h = record {
  fits = h.fits;
  below = h.below;
  running_below = h.running_below;
  apart = h.apart;
  functional = h.functional;
  genuine = (i, h.genuine);
}

Step-IsShared : {s t : Shared} → Step s t → IsShared s → IsShared t
Step-IsShared (enter_first s e) h = begin-IsShared s e h
Step-IsShared (enter_later s p e) h = join-IsShared p s h
Step-IsShared (settles s p v e) h = settle_run-IsShared p v s e h
Step-IsShared (owner_resumes s p v e i) h = resume-IsShared p v s e i h
Step-IsShared (waiter_resumes s p v e i) h = deliver-IsShared p v s i h

Reach-IsShared : {s t : Shared} → IsShared s → Reach s t → IsShared t
Reach-IsShared h here = h
Reach-IsShared h (next r st) = Step-IsShared st (Reach-IsShared h r)

Fits-length : (c : Option ℕ) (owners running : List ℕ) → Fits c owners running → length running ≤ 1
Fits-length none owners running (o, r) = omega (arith, ap length r)
Fits-length (some p) owners running (o, inl r) = omega (arith, ap length r)
Fits-length (some p) owners running (o, inr r) = omega (arith, ap length r)

-- However calls arrive and go on, at most one refresh is under way at any time.
pub Reach-single : {s : Shared} → Reach idle s → length s.running ≤ 1
Reach-single {s} r = Fits-length s.current s.owners s.running (Reach-IsShared IsShared-idle r).fits

same_value :
    (l : List (ℕ × Value)) (p : ℕ) (v v' : Value)
    → IsFunctional l
    → In (p, v) l
    → In (p, v') l
    → v ≡ v'
same_value [] p v v' f i j = elim i [ ]
same_value ((q, u) ∷ l) p v v' (d, f) (inl a) (inl b) = ap (λ (e : ℕ × Value). e.1) (a ∙ sym b)
same_value ((q, u) ∷ l) p v v' (d, f) (inl a) (inr j) =
    absurd (In-All (λ e. e.0 ≢ q) (p, v') l j d (ap (λ (e : ℕ × Value). e.0) a))
same_value ((q, u) ∷ l) p v v' (d, f) (inr i) (inl b) =
    absurd (In-All (λ e. e.0 ≢ q) (p, v) l i d (ap (λ (e : ℕ × Value). e.0) b))
same_value ((q, u) ∷ l) p v v' (d, f) (inr i) (inr j) = same_value l p v v' f i j

-- All calls that waited for one refresh return the same value, which is what that refresh gave.
pub Reach-same_value :
    {s : Shared} (p : ℕ) (v v' : Value)
    → Reach idle s
    → In (p, v) s.returned
    → In (p, v') s.returned
    → (v ≡ v') × In (p, v) s.settled
Reach-same_value {s} p v v' r i j =
    let h = Reach-IsShared IsShared-idle r in
    let a = In-All (λ e. In e s.settled) (p, v) s.returned i h.genuine in
    let b = In-All (λ e. In e s.settled) (p, v') s.returned j h.genuine in
    (same_value s.settled p v v' h.functional a b, a)
