-- ===== src/Udp/Pending.antt =====
-- The two bounded queues of src/ProxyLaneHook/UdpProxyTask.cpp: datagrams that wait for the upstream
-- (m_pending) and replies that wait for a local route (m_pendingReplies), each with its byte count.
-- A payload is the list of its bytes; `A` is what the packet carries besides (target or route).
pub mod Accounting
pub mod Order
mod Tests
use proxy_lane.Common.{
  ℕ, ◌*◌, Bool, true, false, not, ◌&&◌, ◌||◌, List, [], ◌∷◌, ◌++◌, ltb, leb, if◌then◌else◌, length,
  sub32, add32,
}

pub record Packet (A : Type 0) : Type 0 where
  pub target : A
  pub payload : List ℕ
  pub queued_at : ℕ

pub record Queue (A : Type 0) : Type 0 where
  pub packets : List (Packet A)
  pub pending_bytes : ℕ

abbrev pub max_packets : ℕ
max_packets = 128

abbrev pub max_bytes : ℕ
max_bytes = 1024 * 1024

abbrev pub expiry : ℕ
expiry = 5000

module _ {A : Type 0} where
  unfoldable pub empty : Queue A
  empty = record { packets = []; pending_bytes = 0 }

  -- `m_pendingBytes -= size; pop_front()`.
  abbrev pub pop_front : Packet A → List (Packet A) → ℕ → Queue A
  pop_front p ps bytes = record { packets = ps; pending_bytes = sub32 bytes (length p.payload) }

  -- The loop that makes room for `size` bytes.
  unfoldable pub evict : List (Packet A) → ℕ → ℕ → Queue A
  evict [] bytes size = record { packets = []; pending_bytes = bytes }
  evict (p ∷ ps) bytes size =
      let rest = evict ps (sub32 bytes (length p.payload)) size in
      if leb max_packets (length (p ∷ ps)) || ltb max_bytes (add32 bytes size)
      then rest
      else record { packets = p ∷ ps; pending_bytes = bytes }

  abbrev pub push_back : Queue A → Packet A → Queue A
  push_back q p = record {
    packets = q.packets ++ p ∷ [];
    pending_bytes = add32 q.pending_bytes (length p.payload);
  }

  -- QueueDatagram, and QueueReply behind its tests for null pointers and a negative length.
  unfoldable pub enqueue : Queue A → Packet A → Queue A × Bool
  enqueue q p =
      let q' = evict q.packets q.pending_bytes (length p.payload) in
      if ltb max_bytes (length p.payload) then (q', false) else (push_back q' p, true)

  abbrev pub expired : ℕ → Packet A → Bool
  expired now p = ltb expiry (sub32 now p.queued_at)

  -- ExpirePendingDatagrams: from the front, up to the first packet that is fresh.
  unfoldable pub expire_front : List (Packet A) → ℕ → ℕ → Queue A
  expire_front [] bytes now = record { packets = []; pending_bytes = bytes }
  expire_front (p ∷ ps) bytes now =
      let rest = expire_front ps (sub32 bytes (length p.payload)) now in
      if expired now p then rest else record { packets = p ∷ ps; pending_bytes = bytes }

  unfoldable pub expire : Queue A → ℕ → Queue A
  unfolding expire_front
  expire q now = expire_front q.packets q.pending_bytes now

  -- FlushPendingReplies: `open` says whether the packet's route has a socket, `wanted` whether it
  -- is the route to flush, `sends` whether SendTo takes the whole packet. Returned are the queue and
  -- the replies that went out, in order.
  unfoldable pub flush_loop :
      (Packet A → Bool)
      → (Packet A → Bool)
      → (Packet A → Bool)
      → ℕ
      → List (Packet A)
      → ℕ
      → Queue A × List (Packet A)
  flush_loop open_route wanted sends now [] bytes =
      (record { packets = []; pending_bytes = bytes }, [])
  flush_loop open_route wanted sends now (p ∷ ps) bytes =
      let gone = expired now p || not (open_route p) in
      let out = wanted p && sends p in
      let rest =
        flush_loop open_route wanted sends now ps
          (if gone || out then sub32 bytes (length p.payload) else bytes) in
      if gone
      then rest
      else if out
      then (rest.0, p ∷ rest.1)
      else (record (rest.0) { packets = p ∷ rest.0.packets }, rest.1)

  unfoldable pub flush :
      (Packet A → Bool)
      → (Packet A → Bool)
      → (Packet A → Bool)
      → ℕ
      → Queue A
      → Queue A × List (Packet A)
  unfolding flush_loop
  flush open_route wanted sends now q =
      flush_loop open_route wanted sends now q.packets q.pending_bytes
