-- ===== src/QuicPolicy/Reports.antt =====
-- The table of reports of src/ProxyLaneHook/BrowserQuicPolicy.cpp.
use proxy_lane.QuicPolicy.Entries.{
  length-replace, length-insert, find-replace, find-insert, find-forget, IsOldest, evict-IsOldest,
}
use proxy_lane.Common.{
  ◌≢◌, leb, true, ◌&&◌, not, Option, ◌∙◌, inr, Bool-cases, inl, ◌≤◌, ◌⊎◌, ℕ, ◌≡◌, refl, false, none,
  some, arith, ◌==◌, if◌then◌else◌, length,
}
use proxy_lane.QuicPolicy.{
  is_none, lookup, is_pending, write, Report, max_reports, Status, observe, evict, Entry, Key,
  Table, same_key, find, forget,
}

-- What a report leaves under its own key: a pending report changes no final status.
abbrev pub reported : Status → ℕ → Option Entry → Entry
reported s updated none = record { status = s; updated = updated }
reported s updated (some old) =
    if not (is_pending old.status) && is_pending s
    then old
    else record { status = s; updated = updated }

-- A key other than the report's own keeps its entry, unless the table was full and had none for the
-- report: then the key may be that of the oldest entry.
abbrev pub Kept : ℕ → Table → Table → Key → Key → Type 0
Kept now t after k k2 =
    (find after k2 ≡ find t k2)
    ⊎ ((find t k ≡ none)
        × (max_reports ≤ length t)
        × ((o : Key × Entry) × IsOldest now o t × (same_key o.0 k2 ≡ true)))

abbrev pub Wrote : ℕ → ℕ → Table → Key → Status → Table → Type 0
Wrote now updated t k s after =
    (length t ≤ max_reports → length after ≤ max_reports)
    × (find after k ≡ some (reported s updated (find t k)))
    × ((k2 : Key) → same_key k k2 ≡ false → Kept now t after k k2)

write-Wrote :
    (now updated : ℕ) (t : Table) (k : Key) (s : Status) (v : Option Entry)
    → find t k ≡ v
    → Wrote now updated t k s (write now updated t k s v)
unfolding write
write-Wrote now updated t k s (some old) h =
    let v : Entry = record { status = s; updated = updated } in
    (
      ground (arith, length-replace t k v),
      ground (arith, h, find-replace t k k v old),
      λ k2 n. inl (ground (arith, h, n, find-replace t k k2 v old)),
    )
write-Wrote now updated t k s none h = elim (Bool-cases (leb max_reports (length t))) [
  | inl b ↦
      let v : Entry = record { status = s; updated = updated } in
      let (o, is_oldest, size, others, absent) = evict-IsOldest now t (ground (arith, b)) in
      rw b (
        λ l. omega (arith, length-insert (evict now t) k v, size),
        ground (arith, h, absent k h, find-insert (evict now t) k k v),
        λ k2 n. elim (Bool-cases (same_key o.0 k2)) [
          | inl s2 ↦ inr (h, ground (arith, b), (o, is_oldest, s2))
          | inr s2 ↦ inl (find-insert (evict now t) k k2 v (absent k h) ∙ rw n (others k2 s2))
        ],
      )
  | inr b ↦
      let v : Entry = record { status = s; updated = updated } in
      rw b (
        λ l. ground (arith, b, length-insert t k v),
        ground (arith, h, find-insert t k k v),
        λ k2 n. inl (find-insert t k k2 v h ∙ rw n refl),
      )
]

-- A report of a process with a PID and a birth, whose status is not none, stands in the table
-- afterwards, but that a pending report changes no status that is final; the table stays within
-- 4096 entries; and any other key keeps its entry, unless the table was full and the report's key
-- new: then the entry that goes is one that none is older than.
pub observe_lem :
    (now updated : ℕ) (t : Table) (owner pid : ℕ) (r : Report) (s : Status)
    → pid ≢ 0
    → r.birth ≢ 0
    → r.status ≡ some s
    → is_none s ≡ false
    → let k : Key = record { owner = owner; pid = pid; birth = r.birth } in
      Wrote now updated t k s (observe now updated t owner pid r)
unfolding observe
observe_lem now updated t owner pid r s p b h n =
    let k : Key = record { owner = owner; pid = pid; birth = r.birth } in
    let runs : observe now updated t owner pid r ≡ write now updated t k s (find t k) =
      ground (arith, h, n) in
    rw runs (write-Wrote now updated t k s (find t k) refl)

-- The reports of an owner that is forgotten are gone, and those of every other owner are as before.
pub lookup-forget :
    (t : Table) (gone owner pid birth : ℕ) (fallback : Status)
    → lookup (forget t gone) owner pid birth fallback
      ≡ (if owner == gone then fallback else lookup t owner pid birth fallback)
unfolding lookup
lookup-forget t gone owner pid birth fallback =
    ground (arith, find-forget t gone (record { owner = owner; pid = pid; birth = birth }))
