-- ===== src/Udp/BlockLog/Budget.antt =====
-- What CUdpBlockLogLimiter of src/ProxyLaneHook/UdpBlockLogLimiter.h lets through.
use proxy_lane.Udp.BlockLog.Slots.{At, find_slot-Found}
use proxy_lane.Common.{
  refl, zero, bytes_eq_refl, leb, ◌∙◌, ap, ◌≢◌, ℕ, suc, ◌+◌, ◌≤◌, ◌<◌, ◌≡◌, sym, ◌⊎◌, inl, inr,
  Bool, true, false, Option, none, some, List, [], ◌∷◌, arith, if◌then◌else◌, length, get_or, All,
  Bool-cases, sub32,
}
use proxy_lane.SockAddr.{
  get_dword_ip, same_address, equals, af_inet6, af_inet, af_unspec, SockAddr, In6,
}
use proxy_lane.Udp.BlockLog.{
  log_at, window, is_live, is_same, Entry, Limiter, interval_ms, max_per_interval, find_slot, write,
  window, allow,
}

-- The calls of one run, each a destination with its tick: how many were allowed.
module _ (ws : In6) where
  abbrev pub allowed : Limiter → List (SockAddr × ℕ) → ℕ
  allowed l [] = 0
  allowed l (c ∷ cs) = let r = allow ws l c.0 c.1 in (if r.1 then 1 else 0) + allowed r.0 cs

-- The calls fall in the window that the limiter is in.
abbrev pub InWindow : ℕ → SockAddr × ℕ → Type 0
InWindow start c = sub32 c.1 start < interval_ms

allow-window :
    (ws : In6) (l : Limiter) (d : SockAddr) (now : ℕ)
    → sub32 now l.window_start < interval_ms
    → l.window_count ≤ max_per_interval
    → let r = allow ws l d now in
      (r.0.window_start ≡ l.window_start)
      × (r.0.window_count ≡ l.window_count + (if r.1 then 1 else 0))
      × (r.0.window_count ≤ max_per_interval)
unfolding allow window log_at
allow-window ws l d now h k = ground arith

-- However many destinations ask, as long as the calls fall in the interval that the limiter is in
-- and it has granted no more than ten lines before, the lines granted in that interval are at most
-- ten in all.
pub allowed_le :
    (ws : In6) (l : Limiter) (calls : List (SockAddr × ℕ))
    → l.window_count ≤ max_per_interval
    → All (InWindow l.window_start) calls
    → l.window_count + allowed ws l calls ≤ max_per_interval
allowed_le ws l [] h all = omega arith
allowed_le ws l (c ∷ cs) h all =
    let (start, count, bound) = allow-window ws l c.0 c.1 all.0 h in
    let r = allow ws l c.0 c.1 in omega (arith, count, allowed_le ws r.0 cs bound (rw start all.1))

get_or-write :
    (j i : ℕ) (e d : Entry) (es : List Entry) → i ≢ j → get_or (write j e es) i d ≡ get_or es i d
unfolding write
get_or-write j i e d [] h = refl
get_or-write zero zero e d (x ∷ xs) h = absurd (h refl)
get_or-write zero (suc i) e d (x ∷ xs) h = refl
get_or-write (suc j) zero e d (x ∷ xs) h = refl
get_or-write (suc j) (suc i) e d (x ∷ xs) h = get_or-write j i e d xs (λ p. h (omega arith))

-- The entry that an allowed call writes.
abbrev entry_of : SockAddr → ℕ → Entry
entry_of destination now = record { used = true; destination = destination; last_logged = now }

log_at-cases :
    (l : Limiter) (d : SockAddr) (now : ℕ) (v : Option (Option ℕ))
    → let r = log_at l d now v in
      ((r.1 ≡ false) × (r.0.entries ≡ l.entries))
      ⊎ ((k : ℕ) × (v ≡ some (some k)) × (r.0.entries ≡ write k (entry_of d now) l.entries))
unfolding log_at
log_at-cases l d now none = inl (refl, refl)
log_at-cases l d now (some none) = inl (refl, refl)
log_at-cases l d now (some (some k)) = inr (k, refl, refl)

window-entries : (ws : In6) (l : Limiter) (now : ℕ) → (window ws l now).entries ≡ l.entries
unfolding window
window-entries ws l now = ground arith

-- Either the entries stay and the call is refused, or one slot that the loop found is written.
abbrev Wrote : In6 → Limiter → SockAddr → ℕ → Limiter × Bool → Type 0
Wrote ws l d now r =
    ((r.1 ≡ false) × (r.0.entries ≡ l.entries))
    ⊎ ((k : ℕ) × At (is_same ws d) (is_live now) 0 l.entries k
        × (r.0.entries ≡ write k (entry_of d now) l.entries))

allow-cases :
    (ws : In6) (l : Limiter) (d : SockAddr) (now : ℕ) → Wrote ws l d now (allow ws l d now)
unfolding allow
allow-cases ws l d now =
    let w = window ws l now in
    let v = find_slot (is_same ws d) (is_live now) 0 none w.entries in
    let entries = window-entries ws l now in
    elim (Bool-cases (leb max_per_interval w.window_count)) [
      | inl b ↦ inl (rw b (refl, entries))
      | inr b ↦ elim (log_at-cases w d now v) [
        | inl (refused, e) ↦ inl (rw b (refused, e ∙ entries))
        | inr (k, p, e) ↦ elim (find_slot-Found (is_same ws d) (is_live now) 0 none w.entries k p) [
          | inl q ↦ absurd (ground (arith, q))
          | inr (j, q, at) ↦
              let jk : k ≡ j = omega (arith, q) in
              inr (
                j,
                rw (sym entries) at,
                rw b (
                    e
                    ∙ ap (λ es. write k (entry_of d now) es) entries
                    ∙ ap (λ n. write n (entry_of d now) l.entries) jk),
              )
        ]
      ]
    ]

allow-refused :
    (ws : In6) (l : Limiter) (d : SockAddr) (now : ℕ)
    → find_slot (is_same ws d) (is_live now) 0 none l.entries ≡ none
    → (allow ws l d now).1 ≡ false
unfolding allow log_at
allow-refused ws l d now h =
    let same = window-entries ws l now in
    elim (Bool-cases (leb max_per_interval (window ws l now).window_count)) [
      | inl b ↦ rw b refl
      | inr b ↦ rw b (rw same (rw h refl))
    ]

live_elsewhere :
    (now i j : ℕ) (d : Entry) (es : List Entry)
    → is_live now (get_or es i d) ≡ true
    → is_live now (get_or es j d) ≡ false
    → i ≢ j
live_elsewhere now i j d es h k p =
    let q : is_live now (get_or es j d) ≡ true = rw (sym p) h in ground (arith, sym q ∙ k)

-- A cooldown that runs is never given up: the entry at its index is the same after any call,
-- whichever address the call is for and whether or not it is allowed.
pub allow_keeps_live :
    (ws : In6) (l : Limiter) (destination : SockAddr) (now i : ℕ) (d : Entry)
    → i < length l.entries
    → is_live now (get_or l.entries i d) ≡ true
    → get_or (allow ws l destination now).0.entries i d ≡ get_or l.entries i d
allow_keeps_live ws l destination now i d h k = elim (allow-cases ws l destination now) [
  | inl (_, e) ↦ ap (λ es. get_or es i d) e
  | inr (j, (_, dead, _), e) ↦
      ap (λ es. get_or es i d) e
      ∙ get_or-write j i (entry_of destination now) d l.entries
          (live_elsewhere now i j d l.entries k (dead d))
]

module _ (ws : In6) (are_equal_refl : (x : List ℕ) → ws.are_equal x x ≡ true) where
  is_same_refl :
      (d : SockAddr) (now : ℕ)
      → (d.family ≡ af_unspec) ⊎ ((d.family ≡ af_inet) ⊎ (d.family ≡ af_inet6))
      → is_same ws d (entry_of d now) ≡ true
  unfolding is_same equals same_address get_dword_ip
  is_same_refl d now f = ground (arith, bytes_eq_refl d.sin_addr, are_equal_refl d.sin6_addr, f)

  -- Where the platform finds every IPv6 address equal to itself, a destination of IPv4, of IPv6 or
  -- of no family that was just logged is not logged again while five seconds have not passed, also
  -- across the wrap of the clock.
  allow_repeat :
      (l : Limiter) (destination : SockAddr) (now later : ℕ)
      → (destination.family ≡ af_unspec)
        ⊎ ((destination.family ≡ af_inet) ⊎ (destination.family ≡ af_inet6))
      → (allow ws l destination now).1 ≡ true
      → sub32 later now < interval_ms
      → (allow ws (allow ws l destination now).0 destination later).1 ≡ false
  allow_repeat l destination now later f a h = elim (allow-cases ws l destination now) [
    | inl (refused, _) ↦ absurd (ground (arith, refused, a))
    | inr (k, (_, _, found), e) ↦
        allow-refused ws (allow ws l destination now).0 destination later (
          rw e (
            found (entry_of destination now) (is_live later) none (is_same_refl destination now f)
              (ground (arith, h))))
  ]
