-- ===== src/Rmt/Port/Blocking.antt =====
-- A port whose input is blocked.
use rinasim.Base.{◌≡◌, true, ok, inl, inr, arith, ◌<◌, u64_mod}
use rinasim.Rmt.Port.{input, RmtPort, process_queues, block_input}
use rinasim.Rmt.Port.Counts.{total, IsCounted, Releases, process_queues-Serves, Serves, can_serve}

served_anyway :
    (p : RmtPort)
    → Serves input p
    → can_serve input p ≡ true
    → (a : RmtPort) × (process_queues input p ≡ ok a) × Releases input p a
served_anyway p (inl (w, e)) c = absurd (ground arith)
served_anyway p (inr (s, (a, e, r, k))) c = (a, e, r)

-- Blocking the input of a port that is ready does not hold back the next read: if a PDU is queued and
-- the counter is right, a scheduler run after the block still takes a PDU out.
pub blocked_input_serves :
    (p : RmtPort)
    → IsCounted input p
    → total p.input_queues < u64_mod
    → p.input_ready ≡ true
    → 0 < total p.input_queues
    → (a : RmtPort) × (process_queues input (block_input p) ≡ ok a)
      × Releases input (block_input p) a
unfolding block_input
blocked_input_serves p c b r q =
    served_anyway (block_input p) (process_queues-Serves input (block_input p) c b)
      (ground (arith, r))
