-- ===== src/Efcp/Examples/Receiver.antt =====
-- The theorems on the receiver and the control PDUs at concrete connections.
use rinasim.Base.{
  ◌+◌, ◌≡◌, ◌⊎◌, refl, List, [], ◌∷◌, true, false, ok, err, arith, u32, ltb, if◌then◌else◌, ◌&&◌,
  same_seq_num, length,
}
use rinasim.Efcp.Pdu.{DataPdu, ControlPdu, ack_only, has_flag}
use rinasim.Efcp.State.{init_dtp_state, Efcp, stop_sending}
use rinasim.Efcp.Reassembly.{add_to_queue, is_duplicate, update_rcv_lwe, delimit_from_rmt}
use rinasim.Efcp.Reassembly.Order.{IsAscendingFrom, add_to_queue_sound}
use rinasim.Efcp.Reassembly.Edge.{update_rcv_lwe-first_missing, first_missing, is_inside_gap}
use rinasim.Efcp.Reassembly.Delivery.{Delimited, delimit_from_rmt-Delimited}
use rinasim.Efcp.Receive.{ecn_policy, handle_data_transfer_pdu, receive_data}
use rinasim.Efcp.Receive.Invariant.{IsOrderly, Settles}
use rinasim.Efcp.Receive.Branches.{IsSound}
use rinasim.Efcp.Receive.Gaps.{missing_pdu_dropped}
use rinasim.Efcp.Receive.Calls.{receive_data-Settles}
use rinasim.Efcp.Receive.Runs.{Event, comes_in, a_timer_expires, handle_all, handle_all-Settles}
use rinasim.Efcp.Control.{common_rcv_control}
use rinasim.Efcp.Control.Sequence.{common_rcv_control_lem}
use mathlib.Core.List.{Perm}
use rinasim.Efcp.Examples.{cube, header, pdu, receiver_state, receiver, queue}

receiver-IsOrderly : IsOrderly receiver
unfolding has_flag
receiver-IsOrderly = record {
  ascending = (omega arith, (omega arith, tt));
  below = (omega arith, (omega arith, tt));
  lengths = (refl, (refl, tt));
  bounded = omega arith;
}

pdu_4-IsSound : IsSound (pdu 4)
unfolding has_flag
pdu_4-IsSound = record { flagged = refl; in_range = omega arith }

receive_data-Settles_example : Settles (receive_data receiver (pdu 4))
receive_data-Settles_example =
    receive_data-Settles receiver (pdu 4) receiver-IsOrderly pdu_4-IsSound

add_to_queue_sound_example :
    (is_duplicate queue 4 ≡ true) × (add_to_queue queue (pdu 4) ≡ err same_seq_num)
    ⊎ ((q : List DataPdu) × (add_to_queue queue (pdu 4) ≡ ok q)
        × IsAscendingFrom 1 q
        × Perm (pdu 4 ∷ queue) q
        × (is_duplicate queue 4 ≡ false))
add_to_queue_sound_example =
    add_to_queue_sound 1 queue (pdu 4) (omega arith, (omega arith, tt)) (omega arith)

delimit_from_rmt-Delimited_example : Delimited receiver queue (delimit_from_rmt receiver)
delimit_from_rmt-Delimited_example = delimit_from_rmt-Delimited receiver receiver-IsOrderly.lengths

update_rcv_lwe-first_missing_example : (update_rcv_lwe receiver_state 5).rcv_left_win_edge ≡ (
    if is_inside_gap
      (u32 (receiver_state.last_sdu_delivered + receiver_state.qos_cube.max_allow_gap))
      (pdu 3)
      3
    then 3
    else first_missing 2 queue 3)
update_rcv_lwe-first_missing_example =
    update_rcv_lwe-first_missing receiver_state 5 1 (pdu 3) (pdu 5 ∷ []) refl refl
      (omega arith, (omega arith, tt)) (omega arith, (omega arith, tt))

missing_pdu_dropped_example :
    handle_data_transfer_pdu receiver (pdu 3) ≡ ok (ecn_policy receiver (pdu 3))
unfolding has_flag
missing_pdu_dropped_example =
    missing_pdu_dropped receiver (pdu 3) refl refl (omega arith) (omega arith)

abbrev stopped_port : Efcp
stopped_port = record receiver {
  dtp = record receiver_state { blocking_port = true };
  signals = stop_sending ∷ [];
}

abbrev control_pdu : ControlPdu
control_pdu = record { ctrl_header = header; ctrl_seq_num = 6; body = ack_only 2 }

common_rcv_control_lem_example :
    ((common_rcv_control receiver control_pdu).1 ≡ ltb 4 6)
    × ((common_rcv_control receiver control_pdu).0.dtcp.last_control_seq_num_rcv
        ≡ (if (common_rcv_control receiver control_pdu).1 then 6 else 4))
    × (length (common_rcv_control receiver control_pdu).0.south
        ≡ 0 + (if (common_rcv_control receiver control_pdu).1 && ltb (u32 (4 + 1)) 6 then 2 else 0))
common_rcv_control_lem_example = common_rcv_control_lem receiver control_pdu

abbrev fresh : Efcp
fresh = record receiver { dtp = record receiver_state { rcv_left_win_edge = 0 } }

abbrev starting : Efcp
starting = record receiver { dtp = init_dtp_state cube 1400 }

abbrev events : List Event
events = comes_in (pdu 4) ∷ a_timer_expires 2 ∷ comes_in (pdu 4) ∷ []

handle_all-Settles_example : Settles (handle_all events starting)
handle_all-Settles_example =
    handle_all-Settles starting cube 1400 events refl (pdu_4-IsSound, (tt, (pdu_4-IsSound, tt)))
