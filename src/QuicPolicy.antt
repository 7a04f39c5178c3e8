-- ===== src/QuicPolicy.antt =====
-- What the host knows of the browsers' QUIC switch: Observe, Lookup and Forget of
-- src/ProxyLaneHook/BrowserQuicPolicy.cpp. The map is a list in ascending order of keys (owner, PID,
-- birth); each operation holds the lock, and the ticks that it reads are arguments.
mod Entries
pub mod Browser
pub mod Reports
mod Tests
use proxy_lane.Common.{
  ℕ, Bool, true, false, not, ◌&&◌, ◌||◌, Option, none, some, List, [], ◌∷◌, ltb, leb, ◌==◌,
  if◌then◌else◌, length, sub32,
}

pub data Status : Type 0 where
  no_status pending ready unavailable : Status

abbrev pub is_pending : Status → Bool
is_pending pending = true
is_pending _ = false

abbrev pub is_none : Status → Bool
is_none no_status = true
is_none _ = false

-- A status outside of the enumeration is none here.
pub record Report : Type 0 where
  pub birth : ℕ
  pub status : Option Status

pub record Entry : Type 0 where
  pub status : Status
  pub updated : ℕ

pub record Key : Type 0 where
  pub owner : ℕ
  pub pid : ℕ
  pub birth : ℕ

abbrev pub Table : Type 0
Table = List (Key × Entry)

abbrev pub same_key : Key → Key → Bool
same_key a b = a.owner == b.owner && a.pid == b.pid && a.birth == b.birth

-- The order of tuples.
abbrev pub before : Key → Key → Bool
before a b =
    ltb a.owner b.owner
    || (a.owner == b.owner && (ltb a.pid b.pid || (a.pid == b.pid && ltb a.birth b.birth)))

abbrev pub max_reports : ℕ
max_reports = 4096

unfoldable pub find : Table → Key → Option Entry
find [] k = none
find (e ∷ es) k = if same_key e.0 k then some e.1 else find es k

unfoldable pub erase : Table → Key → Table
erase [] k = []
erase (e ∷ es) k = let rest = erase es k in if same_key e.0 k then es else e ∷ rest

-- `reports[key] = entry`, for a key that is there, and for one that is not.
unfoldable pub replace : Table → Key → Entry → Table
replace [] k v = []
replace (e ∷ es) k v = let rest = replace es k v in if same_key e.0 k then (k, v) ∷ es else e ∷ rest

unfoldable pub insert : Table → Key → Entry → Table
insert [] k v = (k, v) ∷ []
insert (e ∷ es) k v = let rest = insert es k v in if before k e.0 then (k, v) ∷ e ∷ es else e ∷ rest

-- The loop over the entries for the oldest one, from the first.
unfoldable pub oldest : ℕ → Key × Entry → Table → Key × Entry
oldest now o [] = o
oldest now o (e ∷ es) =
    oldest now (if ltb (sub32 now o.1.updated) (sub32 now e.1.updated) then e else o) es

unfoldable pub evict : ℕ → Table → Table
unfolding oldest erase
evict now [] = []
evict now (e ∷ es) = erase (e ∷ es) (oldest now e (e ∷ es)).0

unfoldable pub write : ℕ → ℕ → Table → Key → Status → Option Entry → Table
unfolding replace insert evict
write now updated t k s (some old) =
    if not (is_pending old.status) && is_pending s
    then t
    else replace t k (record { status = s; updated = updated })
write now updated t k s none =
    insert (if leb max_reports (length t) then evict now t else t) k
      (record { status = s; updated = updated })

unfoldable pub observe : ℕ → ℕ → Table → ℕ → ℕ → Report → Table
unfolding write find
observe now updated t owner pid r = elim r.status [
  | none ↦ t
  | some s ↦
      let k : Key = record { owner = owner; pid = pid; birth = r.birth } in
      if pid == 0 || r.birth == 0 || is_none s then t else write now updated t k s (find t k)
]

unfoldable pub lookup : Table → ℕ → ℕ → ℕ → Status → Status
unfolding find
lookup t owner pid birth fallback =
    elim (find t (record { owner = owner; pid = pid; birth = birth })) [
      | none ↦ fallback
      | some e ↦ e.status
    ]

unfoldable pub forget : Table → ℕ → Table
forget [] owner = []
forget (e ∷ es) owner = let rest = forget es owner in if e.0.owner == owner then rest else e ∷ rest
