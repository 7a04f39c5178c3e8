-- ===== src/Udp/Pending/Order.antt =====
-- Which packets the queues of src/ProxyLaneHook/UdpProxyTask.cpp keep, and in which order.
use proxy_lane.Common.{
  ℕ, ◌+◌, ◌≤◌, ◌<◌, ◌≡◌, refl, sym, Bool, true, false, ◌||◌, List, [], ◌∷◌, ◌++◌, arith, ltb, leb,
  if◌then◌else◌, length, sub32, add32,
}
use proxy_lane.Udp.Pending.{
  Packet, Queue, max_packets, max_bytes, evict, enqueue, expired, flush_loop, flush,
}

module _ {A : Type 0} where
  -- The packets that making room gives up.
  given_up : List (Packet A) → ℕ → ℕ → List (Packet A)
  given_up [] bytes size = []
  given_up (p ∷ ps) bytes size =
      let rest = given_up ps (sub32 bytes (length p.payload)) size in
      if leb max_packets (length (p ∷ ps)) || ltb max_bytes (add32 bytes size) then p ∷ rest else []

  given_up-evict :
      (ps : List (Packet A)) (bytes size : ℕ)
      → given_up ps bytes size ++ (evict ps bytes size).packets ≡ ps
  unfolding evict given_up
  given_up-evict [] bytes size = refl
  given_up-evict (p ∷ ps) bytes size =
      ground (arith, given_up-evict ps (sub32 bytes (length p.payload)) size)

  -- A datagram of at most 1 MiB is always accepted, as the last one, behind the newest of the
  -- packets that waited, in their order.
  enqueue_accepts :
      (q : Queue A) (p : Packet A)
      → length p.payload ≤ max_bytes
      → (front back : List (Packet A)) × ((enqueue q p).1 ≡ true)
        × (q.packets ≡ front ++ back)
        × ((enqueue q p).0.packets ≡ back ++ p ∷ [])
  unfolding enqueue
  enqueue_accepts q p h = (
    given_up q.packets q.pending_bytes (length p.payload),
    (evict q.packets q.pending_bytes (length p.payload)).packets,
    ground arith,
    sym (given_up-evict q.packets q.pending_bytes (length p.payload)),
    ground arith,
  )

  evict_room :
      (ps : List (Packet A)) (bytes size : ℕ)
      → length ps < max_packets
      → bytes + size ≤ max_bytes
      → evict ps bytes size ≡ record { packets = ps; pending_bytes = bytes }
  unfolding evict
  evict_room [] bytes size few room = refl
  evict_room (p ∷ ps) bytes size few room = ground arith

  -- Where there is room for it, no waiting packet is given up.
  pub enqueue_room :
      (q : Queue A) (p : Packet A)
      → length q.packets < max_packets
      → q.pending_bytes + length p.payload ≤ max_bytes
      → enqueue q p ≡ (
        record {
          packets = q.packets ++ p ∷ [];
          pending_bytes = q.pending_bytes + length p.payload;
        },
        true,
      )
  unfolding enqueue
  enqueue_room q p few room =
      rw (evict_room q.packets q.pending_bytes (length p.payload) few room) (ground arith)

  abbrev pub AllFresh : ℕ → (Packet A → Bool) → List (Packet A) → Type 0
  AllFresh now open_route [] = Unit {0}
  AllFresh now open_route (p ∷ ps) =
      (expired now p ≡ false) × (open_route p ≡ true) × AllFresh now open_route ps

  flush_loop-AllFresh :
      (open_route wanted sends : Packet A → Bool) (now : ℕ) (ps : List (Packet A)) (bytes : ℕ)
      → let r = flush_loop open_route wanted sends now ps bytes in
        AllFresh now open_route r.0.packets × AllFresh now open_route r.1
  unfolding flush_loop
  flush_loop-AllFresh o w s now [] bytes = (tt, tt)
  flush_loop-AllFresh o w s now (p ∷ ps) bytes = ground (
    arith,
    flush_loop-AllFresh o w s now ps (sub32 bytes (length p.payload)),
    flush_loop-AllFresh o w s now ps bytes,
  )

  -- Neither a reply that waited for more than five seconds nor one whose route has lost its socket
  -- is delivered or kept by a pass over the waiting replies.
  flush-AllFresh :
      (open_route wanted sends : Packet A → Bool) (now : ℕ) (q : Queue A)
      → let r = flush open_route wanted sends now q in
        AllFresh now open_route r.0.packets × AllFresh now open_route r.1
  unfolding flush
  flush-AllFresh o w s now q = flush_loop-AllFresh o w s now q.packets q.pending_bytes
