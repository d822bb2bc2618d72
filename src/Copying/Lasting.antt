-- ===== src/Copying/Lasting.antt =====
-- How old a mark can be.
use omni_tun.Prelude.{
  ℕ, ◌+◌, ◌<◌, String, Bool, true, false, not, ◌≡◌, refl, ap, sym, ◌∙◌, Option, none, some, List,
  [], ◌∷◌, any, leb, select, arith, Bool-cases, inl, inr, ◌⊎◌,
}
use omni_tun.Copying.Defs.{
  Copying, new_copying, marked, pass, copy_awaited, write_text, toasted, written,
}

-- A click on a button that awaits the browser, one on a button that does not, with the answer of the
-- browser, and some time.
pub data CopyEvent : Type 0 where
  awaits : Bool → String → String → String → CopyEvent
  writes : Bool → String → String → CopyEvent
  waits : ℕ → CopyEvent

abbrev pub handle_copying : CopyEvent → Copying → Copying
handle_copying (awaits accepted text key title) s = copy_awaited accepted text key title s
handle_copying (writes accepted text key) s = marked key (write_text accepted text s)
handle_copying (waits n) s = pass n s

-- The latest event comes first.
abbrev pub after_copying : List CopyEvent → Copying → Copying
after_copying [] s = s
after_copying (ev ∷ evs) s = handle_copying ev (after_copying evs s)

abbrev pub older : ℕ → Option (String × ℕ) → Option (String × ℕ)
older n none = none
older n (some (key, age)) = some (key, n + age)

-- The key of the latest copy, and the time since then.
abbrev pub latest_copy : List CopyEvent → Option (String × ℕ)
latest_copy [] = none
latest_copy (awaits true text key title ∷ evs) = some (key, 0)
latest_copy (awaits false text key title ∷ evs) = latest_copy evs
latest_copy (writes accepted text key ∷ evs) = some (key, 0)
latest_copy (waits n ∷ evs) = older n (latest_copy evs)

-- The mark, with its timer, which is the latest one.
pub record Lasts (s : Copying) (o : Option (String × ℕ)) (key : String) : Type 0 where
  pub age : ℕ
  pub latest : o ≡ some (key, age)
  pub mark : s.copied ≡ some key
  pub fires_at : ℕ
  pub others : List ℕ
  pub pending : s.due ≡ fires_at ∷ others
  pub on_time : fires_at + age ≡ 2000 + s.now
  pub later : s.now < fires_at

abbrev Lasting : Copying → Option (String × ℕ) → Type 0
Lasting s o = (s.copied ≡ none) ⊎ ((key : String) × Lasts s o key)

marked-Lasting : (key : String) (s : Copying) → Lasting (marked key s) (some (key, 0))
unfolding marked
marked-Lasting key s = inr (
  key,
  record {
    age = 0;
    latest = refl;
    mark = refl;
    fires_at = 2000 + s.now;
    others = s.due;
    pending = refl;
    on_time = omega arith;
    later = omega arith;
  },
)

toasted-Lasting :
    (title : String) (s : Copying) (o : Option (String × ℕ))
    → Lasting s o
    → Lasting (toasted title s) o
toasted-Lasting title s o (inl gone) = inl gone
toasted-Lasting title s o (inr (key, l)) = inr (
  key,
  record {
    age = l.age;
    latest = l.latest;
    mark = l.mark;
    fires_at = l.fires_at;
    others = l.others;
    pending = l.pending;
    on_time = l.on_time;
    later = l.later;
  },
)

-- The first timer has not fired if none has.
first_pending : (n t : ℕ) (ts : List ℕ) → any (λ u. leb u n) (t ∷ ts) ≡ false → leb t n ≡ false
first_pending n t ts h = elim (Bool-cases (leb t n)) [
  | inl due ↦ (let wrong = rw due at h in cc (wrong))
  | inr still ↦ still
]

pass-Lasts :
    (n : ℕ) (s : Copying) (o : Option (String × ℕ)) (key : String)
    → any (λ t. leb t (n + s.now)) s.due ≡ false
    → Lasts s o key
    → Lasts (pass n s) (older n o) key
unfolding pass
pass-Lasts n s o key none_due l =
    let still =
      first_pending (n + s.now) l.fires_at l.others
        (ap (any (λ t. leb t (n + s.now))) (sym l.pending) ∙ none_due) in
    record {
      age = n + l.age;
      latest = ap (older n) l.latest;
      mark = rw none_due l.mark;
      fires_at = l.fires_at;
      others = select (λ t. not (leb t (n + s.now))) l.others;
      pending = rw (l.pending, still) refl;
      on_time = (let e = l.on_time in omega arith);
      later = ground (arith, still);
    }

pass-Lasting :
    (n : ℕ) (s : Copying) (o : Option (String × ℕ)) → Lasting s o → Lasting (pass n s) (older n o)
unfolding pass
pass-Lasting n s o h = elim (Bool-cases (any (λ t. leb t (n + s.now)) s.due)) [
  | inl fired ↦ inl (rw fired refl)
  | inr none_due ↦ elim h [
    | inl gone ↦ inl (rw (none_due, gone) refl)
    | inr (key, l) ↦ inr (key, pass-Lasts n s o key none_due l)
  ]
]

after_copying-Lasting :
    (evs : List CopyEvent) (now : ℕ)
    → Lasting (after_copying evs (new_copying now)) (latest_copy evs)
unfolding new_copying
after_copying-Lasting [] now = inl refl
after_copying-Lasting (awaits true text key title ∷ evs) now =
    toasted-Lasting title (marked key (written text (after_copying evs (new_copying now))))
      (some (key, 0)) (marked-Lasting key (written text (after_copying evs (new_copying now))))
after_copying-Lasting (awaits false text key title ∷ evs) now = after_copying-Lasting evs now
after_copying-Lasting (writes accepted text key ∷ evs) now =
    marked-Lasting key (write_text accepted text (after_copying evs (new_copying now)))
after_copying-Lasting (waits n ∷ evs) now =
    pass-Lasting n (after_copying evs (new_copying now)) (latest_copy evs)
      (after_copying-Lasting evs now)

-- Whatever is copied and however long the user waits in between: a mark that is shown is that of the
-- latest copy, which was made less than two seconds before.
pub after_copying-recent :
    (evs : List CopyEvent) (now : ℕ) (key : String)
    → (after_copying evs (new_copying now)).copied ≡ some key
    → (age : ℕ) × (latest_copy evs ≡ some (key, age)) × (age < 2000)
after_copying-recent evs now key shown = elim (after_copying-Lasting evs now) [
  | inl gone ↦ cc (gone, shown)
  | inr (k, l) ↦
      (let same : k ≡ key = cc (l.mark, shown) in
        (
          l.age,
          l.latest ∙ ap (λ j. some (j, l.age)) same,
          (let e = l.on_time in omega (arith, l.later)),
        ))
]
