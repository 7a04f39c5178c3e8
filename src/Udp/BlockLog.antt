-- ===== src/Udp/BlockLog.antt =====
-- Which refused datagrams are logged: CUdpBlockLogLimiter of src/ProxyLaneHook/UdpBlockLogLimiter.h.
-- A call holds the lock throughout, and its clock is an argument.
mod Slots
pub mod Budget
mod Tests
use proxy_lane.Common.{
  ℕ, zero, suc, Bool, true, false, ◌&&◌, ◌||◌, Option, none, some, List, [], ◌∷◌, ltb, leb, ◌==◌,
  if◌then◌else◌, sub32,
}
use proxy_lane.SockAddr.{SockAddr, In6, equals, af_unspec, clear}

abbrev pub interval_ms : ℕ
interval_ms = 5000

abbrev pub max_per_interval : ℕ
max_per_interval = 10

abbrev pub capacity : ℕ
capacity = 64

pub record Entry : Type 0 where
  pub used : Bool
  pub destination : SockAddr
  pub last_logged : ℕ

pub record Limiter : Type 0 where
  pub entries : List Entry
  pub window_start : ℕ
  pub window_count : ℕ

unfoldable pub zeroed : ℕ → List Entry
zeroed zero = []
zeroed (suc n) = record { used = false; destination = clear; last_logged = 0 } ∷ zeroed n

-- The constructor.
unfoldable pub new_limiter : Limiter
unfolding zeroed
new_limiter = record { entries = zeroed capacity; window_start = 0; window_count = 0 }

-- `entry.used && now - entry.lastLogged < IntervalMs`, a cooldown that still runs.
abbrev pub is_live : ℕ → Entry → Bool
is_live now e = e.used && ltb (sub32 now e.last_logged) interval_ms

-- The loop over the entries from index `i`, with the `slot` found so far; none is `return false`.
-- An entry that is `same` is used, so it is live where its cooldown runs.
unfoldable pub find_slot :
    (Entry → Bool) → (Entry → Bool) → ℕ → Option ℕ → List Entry → Option (Option ℕ)
find_slot same live i slot [] = some slot
find_slot same live i slot (e ∷ es) =
    let rest =
      find_slot same live (suc i)
        (elim slot [ some s ↦ some s | none ↦ if live e then none else some i ]) es in
    if same e then if live e then none else some (some i) else rest

unfoldable pub write : ℕ → Entry → List Entry → List Entry
write i e [] = []
write zero e (x ∷ xs) = e ∷ xs
write (suc i) e (x ∷ xs) = x ∷ write i e xs

-- What follows the loop.
unfoldable pub log_at : Limiter → SockAddr → ℕ → Option (Option ℕ) → Limiter × Bool
unfolding write
log_at l destination now none = (l, false)
log_at l destination now (some none) = (l, false)
log_at l destination now (some (some slot)) = (
  record l {
    entries =
        write slot (record { used = true; destination = destination; last_logged = now }) l.entries;
    window_count = suc l.window_count;
  },
  true,
)

module _ (ws : In6) where
  unfoldable pub is_same : SockAddr → Entry → Bool
  is_same destination e =
      e.used
      && (equals ws e.destination destination
          || (e.destination.family == af_unspec && destination.family == af_unspec))

  -- A new window begins where the old one has run out.
  unfoldable pub window : Limiter → ℕ → Limiter
  window l now =
      if leb interval_ms (sub32 now l.window_start)
      then record l { window_start = now; window_count = 0 }
      else l

  -- AllowLocked.
  unfoldable pub allow : Limiter → SockAddr → ℕ → Limiter × Bool
  unfolding window find_slot is_same log_at
  allow l destination now =
      let w = window l now in
      if leb max_per_interval w.window_count
      then (w, false)
      else log_at w destination now (find_slot (is_same destination) (is_live now) 0 none w.entries)
