-- ===== src/Rmt/Queue.antt =====
-- src/DIF/RMT/RMTQueue.cc and the policies of policies/DIF/RMT/MaxQueue that decide on a full queue.
use Prim.Native.Nat.{bit_or}
use rinasim.Base.{ℕ, List, [], ◌∷◌, ◌++◌, Bool, true, false, leb, if◌then◌else◌, length}

-- A packet with the fields that the queues read.
pub record RmtPdu : Type 0 where
  pub pdu_id : ℕ
  pub pdu_flags : ℕ
  pub has_bit_error : Bool

pub record RmtQueue : Type 0 where
  pub queue : List RmtPdu
  pub max_q_length : ℕ
  pub threshold_q_length : ℕ

unfoldable pub enqueue_pdu : RmtQueue → RmtPdu → RmtQueue
enqueue_pdu q x = record q { queue = q.queue ++ x ∷ [] }

-- All but the last, and the last marked.
unfoldable pub without_last : List RmtPdu → List RmtPdu
without_last [] = []
without_last (x ∷ []) = []
without_last (x ∷ y ∷ rest) = x ∷ without_last (y ∷ rest)

unfoldable pub mark_last : List RmtPdu → List RmtPdu
mark_last [] = []
mark_last (x ∷ []) = record x { pdu_flags = bit_or x.pdu_flags 0x01 } ∷ []
mark_last (x ∷ y ∷ rest) = x ∷ mark_last (y ∷ rest)

-- `dropLast`, `markCongestionOnLast`.
unfoldable pub drop_last : RmtQueue → RmtQueue
unfolding without_last
drop_last q = record q { queue = without_last q.queue }

unfoldable pub mark_congestion_on_last : RmtQueue → RmtQueue
unfolding mark_last
mark_congestion_on_last q = record q { queue = mark_last q.queue }

-- The base class and two of the classes derived from it.
pub data MaxQPolicy : Type 0 where
  max_q_base tail_drop ecn_marker : MaxQPolicy

-- `run`: the queue afterwards, and whether its last PDU is to be dropped.
unfoldable pub run_max_q : MaxQPolicy → RmtQueue → RmtQueue × Bool
unfolding mark_congestion_on_last
run_max_q max_q_base q = (q, false)
run_max_q tail_drop q = (q, leb q.max_q_length (length q.queue))
run_max_q ecn_marker q =
    if leb q.max_q_length (length q.queue) then (q, true) else (mark_congestion_on_last q, false)
