-- ===== src/Api/Refresh.antt =====
-- `refreshToken` of `lib/api.ts` under interleaving: calls that arrive while a refresh is under way
-- share its promise. A promise is a number, given out in the order in which they are made.
pub mod Sharing
mod Tests
use omni_tun.Prelude.{
  ℕ, suc, ◌+◌, Bool, true, false, ◌||◌, ◌≡◌, Option, none, some, List, [], ◌∷◌, nat_eq,
  if◌then◌else◌, ◌⊎◌,
}
use omni_tun.Js.{Value}

-- `refreshPromise`; the runs of `_doRefresh` that have not ended; the values of the promises that are
-- settled; the calls that made a promise and wait for it; the calls that were handed one and wait for
-- it; what the finished calls returned, with the promise that they waited for.
pub record Shared : Type 0 where
  pub current : Option ℕ
  pub started : ℕ
  pub running : List ℕ
  pub settled : List (ℕ × Value)
  pub owners : List ℕ
  pub waiters : List ℕ
  pub returned : List (ℕ × Value)

abbrev pub idle : Shared
idle = record {
  current = none;
  started = 0;
  running = [];
  settled = [];
  owners = [];
  waiters = [];
  returned = [];
}

abbrev pub contains : ℕ → List ℕ → Bool
contains p [] = false
contains p (q ∷ l) = nat_eq p q || contains p l

-- Take out one occurrence.
abbrev pub without : ℕ → List ℕ → List ℕ
without p [] = []
without p (q ∷ l) = let rest = without p l in if nat_eq p q then l else q ∷ rest

abbrev pub In : {A : Type 0} → A → List A → Type 0
In x [] = ⊥
In x (y ∷ ys) = (x ≡ y) ⊎ In x ys

-- `this.refreshPromise = this._doRefresh()`
pub begin : Shared → Shared
begin s = record s {
  current = some s.started;
  started = s.started + 1;
  running = s.started ∷ s.running;
  owners = s.started ∷ s.owners;
}

-- `return this.refreshPromise`
pub join : ℕ → Shared → Shared
join p s = record s { waiters = p ∷ s.waiters }

-- The run of `_doRefresh` behind `p` returns `v`.
pub settle_run : ℕ → Value → Shared → Shared
settle_run p v s = record s { running = without p s.running; settled = (p, v) ∷ s.settled }

-- The caller that made `p` goes on behind its `await`: `this.refreshPromise = null; return result`.
pub resume : ℕ → Value → Shared → Shared
resume p v s = record s {
  current = none;
  owners = without p s.owners;
  returned = (p, v) ∷ s.returned;
}

-- A caller that was handed `p` gets its value.
pub deliver : ℕ → Value → Shared → Shared
deliver p v s = record s { waiters = without p s.waiters; returned = (p, v) ∷ s.returned }

-- One turn of the event loop. A call enters by the test on `refreshPromise`; a promise settles at any
-- time while its run is under way; a waiting call goes on at any time after that.
pub data Step : Shared → Shared → Type 0 where
  enter_first : (s : Shared) → s.current ≡ none → Step s (begin s)
  enter_later : (s : Shared) (p : ℕ) → s.current ≡ some p → Step s (join p s)
  settles :
      (s : Shared) (p : ℕ) (v : Value) → contains p s.running ≡ true → Step s (settle_run p v s)
  owner_resumes :
      (s : Shared) (p : ℕ) (v : Value)
      → contains p s.owners ≡ true
      → In (p, v) s.settled
      → Step s (resume p v s)
  waiter_resumes :
      (s : Shared) (p : ℕ) (v : Value)
      → contains p s.waiters ≡ true
      → In (p, v) s.settled
      → Step s (deliver p v s)

pub data Reach (s : Shared) : Shared → Type 0 where
  here : Reach s s
  next : {t u : Shared} → Reach s t → Step t u → Reach s u
