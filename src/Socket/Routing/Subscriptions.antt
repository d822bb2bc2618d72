-- ===== src/Socket/Routing/Subscriptions.antt =====
-- Who is subscribed to what.
use omni_tun.Prelude.{
  ℕ, String, Bool, not, ◌&&◌, ◌||◌, ◌≡◌, refl, List, [], ◌∷◌, ◌++◌, nat_eq, ◌==◌, eq_iff, get-put,
  if◌then◌else◌, arith,
}
use omni_tun.Socket.Routing.Defs.{Registry, member, insert, delete, handlers_of, on, off}

-- `h` is subscribed to `channel`.
abbrev pub subscribed : Registry → String → ℕ → Bool
subscribed r channel h = member h (handlers_of channel r)

pub member-append : (h : ℕ) (l m : List ℕ) → member h (l ++ m) ≡ (member h l || member h m)
member-append h [] m = refl
member-append h (k ∷ l) m = ground (arith, member-append h l m)

pub member-insert : (h k : ℕ) (l : List ℕ) → member k (insert h l) ≡ (nat_eq k h || member k l)
unfolding insert
member-insert h k l = ground (arith, member-append k l (h ∷ []))

pub member-delete :
    (h k : ℕ) (l : List ℕ) → member k (delete h l) ≡ (not (nat_eq k h) && member k l)
unfolding delete
member-delete h k [] = ground arith
member-delete h k (j ∷ l) = ground (arith, member-delete h k l)

pub handlers_of-on :
    (channel other : String) (h : ℕ) (r : Registry)
    → handlers_of other (on channel h r)
      ≡ (if channel == other then insert h (handlers_of channel r) else handlers_of other r)
unfolding handlers_of on
handlers_of-on channel other h r = grind (arith, get-put {V = List ℕ}, eq_iff channel other)

pub handlers_of-off :
    (channel other : String) (h : ℕ) (r : Registry)
    → handlers_of other (off channel h r)
      ≡ (if channel == other then delete h (handlers_of channel r) else handlers_of other r)
unfolding handlers_of off delete
handlers_of-off channel other h r = grind (arith, get-put {V = List ℕ}, eq_iff channel other)

-- After `on` the handler is subscribed to the channel, after `off` it is not; who else is subscribed
-- to what does not change.
pub subscribed-on-off :
    (channel other : String) (h k : ℕ) (r : Registry)
    → (subscribed (on channel h r) other k
        ≡ (channel == other && nat_eq k h || subscribed r other k))
      × (subscribed (off channel h r) other k
          ≡ (not (channel == other && nat_eq k h) && subscribed r other k))
subscribed-on-off channel other h k r = (
  rw handlers_of-on
      (ground (arith, eq_iff channel other, member-insert h k (handlers_of channel r))),
  rw handlers_of-off
      (ground (arith, eq_iff channel other, member-delete h k (handlers_of channel r))),
)
