-- ===== src/Udp/BlockLog/Slots.antt =====
-- The loop that looks for a slot, in src/ProxyLaneHook/UdpBlockLogLimiter.h.
use proxy_lane.Common.{
  ℕ, suc, ◌+◌, ◌<◌, ◌≡◌, sym, ◌⊎◌, inl, inr, Bool, true, false, Option, none, some, List, [], ◌∷◌,
  arith, if◌then◌else◌, length, get_or, Bool-cases,
}
use proxy_lane.Udp.BlockLog.{Entry, find_slot, write}

-- The entry `j` places on is not live, and the loop stops at an entry in its place that is the same
-- and live.
abbrev pub At : (Entry → Bool) → (Entry → Bool) → ℕ → List Entry → ℕ → Type 0
At same live i es j =
    (j < length es)
    × ((d : Entry) → live (get_or es j d) ≡ false)
    × ((e : Entry) (later : Entry → Bool) (slot : Option ℕ)
        → same e ≡ true
        → later e ≡ true
        → find_slot same later i slot (write j e es) ≡ none)

abbrev pub Found : (Entry → Bool) → (Entry → Bool) → ℕ → List Entry → ℕ → Type 0
Found same live i es k = (j : ℕ) × (k ≡ i + j) × At same live i es j

pub At-head :
    (same live : Entry → Bool) (i : ℕ) (e : Entry) (es : List Entry)
    → live e ≡ false
    → Found same live i (e ∷ es) i
unfolding find_slot write
At-head same live i e es h =
    (0, omega arith, (omega arith, λ d. h, λ e2 later slot s l. ground (arith, s, l)))

pub At-tail :
    (same live : Entry → Bool) (i : ℕ) (e : Entry) (es : List Entry) (k : ℕ)
    → same e ≡ false
    → Found same live (suc i) es k
    → Found same live i (e ∷ es) k
unfolding find_slot write
At-tail same live i e es k h (j, p, (q, d, s)) = (
  suc j,
  omega arith,
  (
    omega arith,
    d,
    λ e2 later slot a b. ground (arith, h, s e2 later slot a b, s e2 later (some i) a b),
  ),
)

-- The loop stops at an entry that is the same.
pub stop :
    (same live : Entry → Bool) (i : ℕ) (e : Entry) (es : List Entry) (k : ℕ)
    → same e ≡ true
    → (let verdict : Option (Option ℕ) = if live e then none else some (some i) in verdict)
      ≡ some (some k)
    → Found same live i (e ∷ es) k
stop same live i e es k s h =
    let l : live e ≡ false = ground arith in
    let q : i ≡ k = ground (arith, h, l) in rw (sym q) (At-head same live i e es l)

-- The slot that was given, or one that the loop found.
pub find_slot-Found :
    (same live : Entry → Bool) (i : ℕ) (slot : Option ℕ) (es : List Entry) (k : ℕ)
    → find_slot same live i slot es ≡ some (some k)
    → (slot ≡ some k) ⊎ Found same live i es k
unfolding find_slot
find_slot-Found same live i slot [] k h = inl (ground arith)
find_slot-Found same live i (some n) (e ∷ es) k h = elim (Bool-cases (same e)) [
  | inl s ↦ inr (stop same live i e es k s (ground (arith, s, h)))
  | inr s ↦ elim (find_slot-Found same live (suc i) (some n) es k (ground (arith, s, h))) [
    | inl p ↦ inl p
    | inr f ↦ inr (At-tail same live i e es k s f)
  ]
]
find_slot-Found same live i none (e ∷ es) k h = elim (Bool-cases (same e)) [
  | inl s ↦ inr (stop same live i e es k s (ground (arith, s, h)))
  | inr s ↦ elim (Bool-cases (live e)) [
    | inl l ↦ elim (find_slot-Found same live (suc i) none es k (ground (arith, s, l, h))) [
      | inl p ↦ inl p
      | inr f ↦ inr (At-tail same live i e es k s f)
    ]
    | inr l ↦ elim (find_slot-Found same live (suc i) (some i) es k (ground (arith, s, l, h))) [
      | inl p ↦ let q : i ≡ k = ground (arith, p) in inr (rw (sym q) (At-head same live i e es l))
      | inr f ↦ inr (At-tail same live i e es k s f)
    ]
  ]
]
