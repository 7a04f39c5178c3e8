-- ===== src/Udp/Pending/Tests.antt =====
-- A queue of two packets.
use proxy_lane.Common.{ℕ, ◌≡◌, refl, [], ◌∷◌}
use proxy_lane.Udp.Pending.{Packet, Queue, expire, expire_front}

abbrev first : Packet ℕ
first = record { target = 1; payload = 10 ∷ 11 ∷ []; queued_at = 1000 }

abbrev second : Packet ℕ
second = record { target = 2; payload = 20 ∷ []; queued_at = 6500 }

abbrev two : Queue ℕ
two = record { packets = first ∷ second ∷ []; pending_bytes = 3 }

expire-two : expire two 7000 ≡ record { packets = second ∷ []; pending_bytes = 1 }
unfolding expire expire_front
expire-two = refl
