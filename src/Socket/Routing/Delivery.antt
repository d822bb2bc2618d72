-- ===== src/Socket/Routing/Delivery.antt =====
-- Who gets a message, and how often.
use omni_tun.Prelude.{
  ℕ, suc, ◌+◌, String, Bool, true, false, ◌≡◌, ◌≢◌, refl, some, List, [], ◌∷◌, ◌++◌, nat_eq, ◌==◌,
  ne→eq_false, if◌then◌else◌, arith, Bool-cases, inl, inr,
}
use omni_tun.Js.{Value, str, prop}
use omni_tun.Js.Env.{Js}
use omni_tun.Socket.Routing.Defs.{
  Registry, member, insert, delete, handlers_of, on, off, run, typed_handlers, route, on_message,
}
use omni_tun.Socket.Routing.Subscriptions.{
  subscribed, member-append, member-delete, handlers_of-on, handlers_of-off,
}

abbrev pub count : ℕ → List ℕ → ℕ
count k [] = 0
count k (h ∷ l) = let rest = count k l in if nat_eq k h then suc rest else rest

abbrev pub IsDistinct : List ℕ → Type 0
IsDistinct [] = Unit
IsDistinct (h ∷ l) = (member h l ≡ false) × IsDistinct l

-- No handler is twice in the set of a channel.
abbrev pub IsTidy : Registry → Type 0
IsTidy r = (channel : String) → IsDistinct (handlers_of channel r)

IsDistinct-snoc :
    (h : ℕ) (l : List ℕ) → member h l ≡ false → IsDistinct l → IsDistinct (l ++ h ∷ [])
IsDistinct-snoc h [] m d = (refl, tt)
IsDistinct-snoc h (k ∷ l) m (n, d) =
    (ground (arith, member-append k l (h ∷ [])), IsDistinct-snoc h l (ground arith) d)

IsDistinct-insert : (h : ℕ) (l : List ℕ) → IsDistinct l → IsDistinct (insert h l)
unfolding insert
IsDistinct-insert h l d = elim (Bool-cases (member h l)) [
  | inl old ↦ rw old d
  | inr new ↦ rw new (IsDistinct-snoc h l new d)
]

IsDistinct-delete : (h : ℕ) (l : List ℕ) → IsDistinct l → IsDistinct (delete h l)
unfolding delete
IsDistinct-delete h [] d = tt
IsDistinct-delete h (k ∷ l) (n, d) = elim (Bool-cases (nat_eq h k)) [
  | inl same ↦ rw same (IsDistinct-delete h l d)
  | inr other ↦ rw other (ground (arith, member-delete h k l), IsDistinct-delete h l d)
]

-- `on` and `off` keep the sets free of repetitions.
pub IsTidy-on_off :
    (channel : String) (h : ℕ) (r : Registry)
    → IsTidy r
    → IsTidy (on channel h r) × IsTidy (off channel h r)
IsTidy-on_off channel h r tidy =
    (λ other. rw handlers_of-on (on_case other), λ other. rw handlers_of-off (off_case other))
  where
    on_case :
        (other : String)
        → IsDistinct
            (if channel == other then insert h (handlers_of channel r) else handlers_of other r)
    on_case other = elim (Bool-cases (channel == other)) [
      | inl same ↦ rw same (IsDistinct-insert h _ (tidy channel))
      | inr different ↦ rw different (tidy other)
    ]

    off_case :
        (other : String)
        → IsDistinct
            (if channel == other then delete h (handlers_of channel r) else handlers_of other r)
    off_case other = elim (Bool-cases (channel == other)) [
      | inl same ↦ rw same (IsDistinct-delete h _ (tidy channel))
      | inr different ↦ rw different (tidy other)
    ]

count-append : (k : ℕ) (l m : List ℕ) → count k (l ++ m) ≡ count k l + count k m
count-append k [] m = omega arith
count-append k (h ∷ l) m = ground (arith, count-append k l m)

-- 1 if the test passes.
abbrev pub one_if : Bool → ℕ
one_if b = if b then 1 else 0

count_of_not_member : (k : ℕ) (l : List ℕ) → member k l ≡ false → count k l ≡ 0
count_of_not_member k [] m = refl
count_of_not_member k (h ∷ l) m = ground (arith, count_of_not_member k l)

count_of_IsDistinct : (k : ℕ) (l : List ℕ) → IsDistinct l → count k l ≡ one_if (member k l)
count_of_IsDistinct k [] d = refl
count_of_IsDistinct k (h ∷ l) (n, d) =
    ground (arith, count_of_IsDistinct k l d, count_of_not_member k l)

module _ (js : Js) (throws : ℕ → Value → Bool) where
  run_quiet :
      (msg : Value)
      → ((h : ℕ) → throws h msg ≡ false)
      → (l : List ℕ) → run js throws msg l ≡ (l, true)
  unfolding run
  run_quiet msg quiet [] = refl
  run_quiet msg quiet (h ∷ l) = rw (quiet h, run_quiet msg quiet l)

  -- The two loops together are one loop over both sets.
  run-append :
      (msg : Value) (l m : List ℕ)
      → (run js throws msg (l ++ m)).0 ≡ (
          if (run js throws msg l).1
          then (run js throws msg l).0 ++ (run js throws msg m).0
          else (run js throws msg l).0)
  unfolding run
  run-append msg [] m = refl
  run-append msg (h ∷ l) m = ground (arith, run-append msg l m)

  route-run :
      (type msg : Value) (r : Registry)
      → route js throws type msg r
        ≡ (run js throws msg (typed_handlers js throws type r ++ handlers_of "*" r)).0
  unfolding route
  route-run type msg r = rw run-append

  -- A message that parses calls, in the order of subscription, the handlers of its type and then those
  -- of "*", up to and including the first one that throws.
  pub on_message-run :
      (text : String) (msg type : Value) (r : Registry)
      → js.json_parse text ≡ some msg
      → prop msg "type" ≡ some type
      → on_message js throws text r
        ≡ (run js throws msg (typed_handlers js throws type r ++ handlers_of "*" r)).0
  unfolding on_message
  on_message-run text msg type r p q = ground (arith, p, q, route-run type msg r)

  -- If no handler throws, a message whose type is a non-empty text calls each handler once for its
  -- subscription to that type and once for its subscription to "*".
  pub count-on_message :
      (text channel : String) (msg : Value) (r : Registry) (k : ℕ)
      → IsTidy r
      → ((h : ℕ) → throws h msg ≡ false)
      → js.json_parse text ≡ some msg
      → prop msg "type" ≡ some (str channel)
      → channel ≢ ""
      → count k (on_message js throws text r)
        ≡ one_if (subscribed r channel k) + one_if (subscribed r "*" k)
  unfolding typed_handlers
  count-on_message text channel msg r k tidy quiet p q nonempty =
      rw
        (
          on_message-run text msg (str channel) r p q,
          run_quiet msg quiet,
          ne→eq_false channel "" nonempty,
        )
        (ground (
          arith,
          count-append k (handlers_of channel r) (handlers_of "*" r),
          count_of_IsDistinct k (handlers_of channel r) (tidy channel),
          count_of_IsDistinct k (handlers_of "*" r) (tidy "*"),
        ))
