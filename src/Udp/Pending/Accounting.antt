-- ===== src/Udp/Pending/Accounting.antt =====
-- The byte counts and the bounds of the queues in src/ProxyLaneHook/UdpProxyTask.cpp.
use proxy_lane.Common.{
  Bool, length-append, ℕ, ◌+◌, ◌^◌, ◌≤◌, ◌<◌, ◌≡◌, refl, ◌⊎◌, inr, List, [], ◌∷◌, ◌++◌, arith,
  length, sub32,
}
use proxy_lane.Udp.Pending.{
  enqueue, expire, expire_front, flush, flush_loop, Packet, Queue, max_packets, max_bytes, evict,
}

module _ {A : Type 0} where
  abbrev pub total : List (Packet A) → ℕ
  total [] = 0
  total (p ∷ ps) = length p.payload + total ps

  -- The count is the sum of the payloads, and both bounds hold.
  pub record IsValid (q : Queue A) : Type 0 where
    pub counted : q.pending_bytes ≡ total q.packets
    pub few : length q.packets ≤ max_packets
    pub small : q.pending_bytes ≤ max_bytes

  total-append : (ps rs : List (Packet A)) → total (ps ++ rs) ≡ total ps + total rs
  total-append [] rs = omega arith
  total-append (p ∷ ps) rs = omega (arith, total-append ps rs)

  record Evicted (ps : List (Packet A)) (q : Queue A) (size : ℕ) : Type 0 where
    counted : q.pending_bytes ≡ total q.packets
    few : length q.packets ≤ length ps
    room :
        (length q.packets < max_packets) × (q.pending_bytes + size ≤ max_bytes) ⊎ (q.packets ≡ [])

  evict-Evicted :
      (ps : List (Packet A)) (bytes size : ℕ)
      → bytes ≡ total ps
      → bytes ≤ max_bytes
      → size < 2 ^ 31
      → Evicted ps (evict ps bytes size) size
  unfolding evict
  evict-Evicted [] bytes size c b s = record { counted = c; few = omega arith; room = inr refl }
  evict-Evicted (p ∷ ps) bytes size c b s =
      ground (arith, evict-Evicted ps (sub32 bytes (length p.payload)) size)

  -- Adding a datagram of less than 2 GiB keeps the byte count exact and both bounds: 128 packets and
  -- 1 MiB.
  pub enqueue-IsValid :
      (q : Queue A) (p : Packet A) → length p.payload < 2 ^ 31 → IsValid q → IsValid (enqueue q p).0
  unfolding enqueue
  enqueue-IsValid q p s v = ground (
    arith,
    evict-Evicted q.packets q.pending_bytes (length p.payload),
    total-append (evict q.packets q.pending_bytes (length p.payload)).packets (p ∷ []),
    length-append (evict q.packets q.pending_bytes (length p.payload)).packets (p ∷ []),
  )

  expire_front-IsValid :
      (ps : List (Packet A)) (bytes now : ℕ)
      → bytes ≡ total ps
      → bytes ≤ max_bytes
      → length ps ≤ max_packets
      → IsValid (expire_front ps bytes now)
  unfolding expire_front
  expire_front-IsValid [] bytes now c b l = record { counted = c; few = l; small = b }
  expire_front-IsValid (p ∷ ps) bytes now c b l =
      ground (arith, expire_front-IsValid ps (sub32 bytes (length p.payload)) now)

  -- Dropping what has waited for more than five seconds keeps the byte count and the bounds.
  pub expire-IsValid : (q : Queue A) (now : ℕ) → IsValid q → IsValid (expire q now)
  unfolding expire
  expire-IsValid q now v =
      expire_front-IsValid q.packets q.pending_bytes now v.counted v.small v.few

  record Flushed (ps : List (Packet A)) (bytes : ℕ) (q : Queue A) : Type 0 where
    counted : q.pending_bytes + total ps ≡ total q.packets + bytes
    few : length q.packets ≤ length ps
    less : total q.packets ≤ total ps

  -- Here the count runs ahead of the packets that are left to visit: it covers those before them.
  flush_loop-Flushed :
      (open_route wanted sends : Packet A → Bool) (now : ℕ) (ps : List (Packet A)) (bytes : ℕ)
      → total ps ≤ bytes
      → bytes ≤ max_bytes
      → Flushed ps bytes (flush_loop open_route wanted sends now ps bytes).0
  unfolding flush_loop
  flush_loop-Flushed o w s now [] bytes t b = record {
    counted = omega arith;
    few = omega arith;
    less = omega arith;
  }
  flush_loop-Flushed o w s now (p ∷ ps) bytes t b = ground (
    arith,
    flush_loop-Flushed o w s now ps (sub32 bytes (length p.payload)),
    flush_loop-Flushed o w s now ps bytes,
  )

  -- A pass over the waiting replies, whatever the sockets answer, keeps the count and the bounds.
  pub flush-IsValid :
      (open_route wanted sends : Packet A → Bool) (now : ℕ) (q : Queue A)
      → IsValid q
      → IsValid (flush open_route wanted sends now q).0
  unfolding flush
  flush-IsValid o w s now q v =
      let f = flush_loop-Flushed o w s now q.packets q.pending_bytes (omega arith) v.small in
      record {
        counted = omega (arith, f.counted, v.counted);
        few = omega (arith, f.few, v.few);
        small = omega (arith, f.counted, f.less, v.counted, v.small);
      }
