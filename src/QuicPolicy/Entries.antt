-- ===== src/QuicPolicy/Entries.antt =====
-- The entries of the table in src/ProxyLaneHook/BrowserQuicPolicy.cpp.
use proxy_lane.Common.{
  zero, ap, get_or, sym, ◌<◌, ◌∙◌, inr, Bool-cases, ltb, All, inl, ◌≤◌, ◌⊎◌, sub32, ℕ, suc, ◌≡◌,
  refl, false, none, some, [], ◌∷◌, arith, ◌==◌, if◌then◌else◌, length,
}
use proxy_lane.QuicPolicy.{
  evict, oldest, Entry, Key, Table, same_key, find, erase, replace, insert, forget,
}

pub length-replace : (t : Table) (k : Key) (v : Entry) → length (replace t k v) ≡ length t
unfolding replace
length-replace [] k v = refl
length-replace (e ∷ es) k v = ground (arith, length-replace es k v)

pub length-insert : (t : Table) (k : Key) (v : Entry) → length (insert t k v) ≡ suc (length t)
unfolding insert
length-insert [] k v = refl
length-insert (e ∷ es) k v = ground (arith, length-insert es k v)

pub length-erase :
    (t : Table) (k : Key) (v : Entry) → find t k ≡ some v → suc (length (erase t k)) ≡ length t
unfolding erase find
length-erase [] k v h = ground arith
length-erase (e ∷ es) k v h = ground (arith, length-erase es k v)

pub find-replace :
    (t : Table) (k k2 : Key) (v old : Entry)
    → find t k ≡ some old
    → find (replace t k v) k2 ≡ (if same_key k k2 then some v else find t k2)
unfolding replace find
find-replace [] k k2 v old h = ground arith
find-replace (e ∷ es) k k2 v old h = ground (arith, find-replace es k k2 v old)

pub find-insert :
    (t : Table) (k k2 : Key) (v : Entry)
    → find t k ≡ none
    → find (insert t k v) k2 ≡ (if same_key k k2 then some v else find t k2)
unfolding insert find
find-insert [] k k2 v h = refl
find-insert (e ∷ es) k k2 v h = ground (arith, find-insert es k k2 v)

pub find-forget :
    (t : Table) (owner : ℕ) (k : Key)
    → find (forget t owner) k ≡ (if k.owner == owner then none else find t k)
unfolding forget find
find-forget [] owner k = ground arith
find-forget (e ∷ es) owner k = ground (arith, find-forget es owner k)

pub find-erase : (t : Table) (k k2 : Key) → same_key k k2 ≡ false → find (erase t k) k2 ≡ find t k2
unfolding erase find
find-erase [] k k2 h = refl
find-erase (e ∷ es) k k2 h = ground (arith, find-erase es k k2)

pub find-erase-none : (t : Table) (k k2 : Key) → find t k2 ≡ none → find (erase t k) k2 ≡ none
unfolding erase find
find-erase-none [] k k2 h = refl
find-erase-none (e ∷ es) k k2 h = ground (arith, find-erase-none es k k2)

abbrev pub age : ℕ → Key × Entry → ℕ
age now e = sub32 now e.1.updated

abbrev pub HasKey : Table → Key → Type 0
HasKey t k = (v : Entry) × (find t k ≡ some v)

pub HasKey-head : (e : Key × Entry) (t : Table) → HasKey (e ∷ t) e.0
unfolding find
HasKey-head e t = (e.1, ground arith)

pub HasKey-tail : (e : Key × Entry) (t : Table) (k : Key) → HasKey t k → HasKey (e ∷ t) k
unfolding find
HasKey-tail e t k (v, h) = elim (Bool-cases (same_key e.0 k)) [
  | inl s ↦ (e.1, rw s refl)
  | inr s ↦ (v, rw s h)
]

pub HasKey-get_or : (t : Table) (i : ℕ) (d : Key × Entry) → i < length t → HasKey t (get_or t i d).0
HasKey-get_or [] i d h = absurd (omega arith)
HasKey-get_or (e ∷ es) zero d h = HasKey-head e es
HasKey-get_or (e ∷ es) (suc i) d h =
    HasKey-tail e es (get_or es i d).0 (HasKey-get_or es i d (omega arith))

abbrev pub IsIn : Key × Entry → Table → Type 0
IsIn o t = (i : ℕ) × (i < length t) × (get_or t i o ≡ o)

pub IsIn-tail : (o e : Key × Entry) (t : Table) → IsIn o t → IsIn o (e ∷ t)
IsIn-tail o e t (i, h, p) = (suc i, omega arith, p)

pub IsIn-HasKey : (o : Key × Entry) (t : Table) → IsIn o t → HasKey t o.0
IsIn-HasKey o t (i, h, p) = let has = HasKey-get_or t i o h in rw (sym (ap (λ e. e.0) p)) has

-- The entry that the loop keeps is the first one or in the table, and none in it is older.
pub oldest-IsIn :
    (now : ℕ) (o : Key × Entry) (t : Table) → (oldest now o t ≡ o) ⊎ IsIn (oldest now o t) t
unfolding oldest
oldest-IsIn now o [] = inl refl
oldest-IsIn now o (e ∷ es) =
    let kept = if ltb (age now o) (age now e) then e else o in
    let which : (kept ≡ e) ⊎ (kept ≡ o) = ground arith in
    elim (oldest-IsIn now kept es) [
      | inl p ↦ elim which [ inl q ↦ inr (0, omega arith, sym (p ∙ q)) | inr q ↦ inl (p ∙ q) ]
      | inr h ↦ inr (IsIn-tail (oldest now kept es) e es h)
    ]

pub oldest-age :
    (now : ℕ) (o : Key × Entry) (t : Table)
    → (age now o ≤ age now (oldest now o t)) × All (λ e. age now e ≤ age now (oldest now o t)) t
unfolding oldest
oldest-age now o [] = (omega arith, tt)
oldest-age now o (e ∷ es) =
    let rest = oldest-age now (if ltb (age now o) (age now e) then e else o) es in
    (ground (arith, rest.0), (ground (arith, rest.0), rest.1))

-- The entry that goes: one of the table, and none of it is older.
abbrev pub IsOldest : ℕ → Key × Entry → Table → Type 0
IsOldest now o t = IsIn o t × All (λ e. age now e ≤ age now o) t

pub evict-IsOldest :
    (now : ℕ) (t : Table)
    → 0 < length t
    → (o : Key × Entry) × IsOldest now o t
      × (suc (length (evict now t)) ≡ length t)
      × ((k : Key) → same_key o.0 k ≡ false → find (evict now t) k ≡ find t k)
      × ((k : Key) → find t k ≡ none → find (evict now t) k ≡ none)
unfolding evict
evict-IsOldest now [] h = absurd (omega arith)
evict-IsOldest now (e ∷ t) h =
    let o = oldest now e (e ∷ t) in
    let is_in : IsIn o (e ∷ t) = elim (oldest-IsIn now e (e ∷ t)) [
      | inl p ↦ (0, omega arith, sym p)
      | inr i ↦ i
    ] in
    let (v, found) = IsIn-HasKey o (e ∷ t) is_in in
    (
      o,
      (is_in, (oldest-age now e (e ∷ t)).1),
      length-erase (e ∷ t) o.0 v found,
      λ k. find-erase (e ∷ t) o.0 k,
      λ k. find-erase-none (e ∷ t) o.0 k,
    )
