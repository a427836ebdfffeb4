-- ===== src/Rmt/Examples.antt =====
-- The theorems on the ports of the RMT at a concrete port.
use rinasim.Base.{ℕ, ◌≡◌, refl, [], ◌∷◌, true, false, ok, All, arith}
use rinasim.Rmt.Queue.{RmtPdu, RmtQueue, tail_drop, ecn_marker}
use rinasim.Rmt.Port.{output, RmtPort, arrive}
use rinasim.Rmt.Port.Counts.{Serves, process_queues-Serves}
use rinasim.Rmt.Port.Bounds.{Arrives, arrive-Arrives}
use rinasim.Rmt.Port.Drops.{HasRoom, arrive-HasRoom}

abbrev pdu : ℕ → RmtPdu
pdu n = record { pdu_id = n; pdu_flags = 0; has_bit_error = false }

abbrev short_queue : RmtQueue
short_queue = record { queue = pdu 1 ∷ []; max_q_length = 4; threshold_q_length = 3 }

abbrev long_queue : RmtQueue
long_queue = record { queue = pdu 2 ∷ pdu 3 ∷ []; max_q_length = 3; threshold_q_length = 3 }

abbrev port : RmtPort
port = record {
  output_ready = true;
  input_ready = true;
  blocked_output = false;
  blocked_input = false;
  waiting_on_input = 1;
  waiting_on_output = 3;
  input_queues = short_queue ∷ [];
  output_queues = short_queue ∷ long_queue ∷ [];
  released = [];
  reads_scheduled = 0;
}

process_queues-Serves_example : Serves output port
process_queues-Serves_example = process_queues-Serves output port refl (omega arith)

arrive-Arrives_example : Arrives (arrive ecn_marker output 1 (pdu 4) port) output
arrive-Arrives_example =
    arrive-Arrives ecn_marker output 1 (pdu 4) port long_queue refl refl (omega arith)

arrive-HasRoom_example :
    (a : RmtPort) × (arrive tail_drop output 1 (pdu 4) port ≡ ok a) × All HasRoom a.output_queues
arrive-HasRoom_example =
    arrive-HasRoom tail_drop output 1 (pdu 4) port long_queue refl refl (omega arith) refl
      (omega arith) (omega arith, (omega arith, tt))
