-- ===== src/Efcp/Output.antt =====
-- What DTP sends: the PDUs that it builds and hands to the RMT, and the signals that stop and start
-- the user (src/DIF/EFCP/DTP/DTP.cc).
pub mod Signals
use Prim.Native.Nat.{bit_or}
use rinasim.Base.{
  ℕ, ◌+◌, List, [], ◌∷◌, ◌++◌, Bool, true, false, ◌&&◌, ◌||◌, if◌then◌else◌, u32, sub32,
}
use rinasim.Efcp.Sdu.{new_field}
use rinasim.Efcp.Pdu.{
  Pdu, DataPdu, ControlPdu, ControlBody, data_transfer, control, other_pdu, set_pdu_header,
  FlowControl, flow_only, ack_only, ack_flow, control_ack, drf_flag,
}
use rinasim.Efcp.State.{
  Efcp, DtcpState, RxTimer, set_dtp, set_dtcp, is_fc_present, Signal, start_sending, stop_sending,
}

-- `sendToRMT` notes the number of a data transfer PDU.
note_seq_num : Pdu → Efcp → Efcp
note_seq_num (data_transfer p) e = set_dtp e (record e.dtp { last_seq_num_sent = p.seq_num })
note_seq_num (control p) e = e
note_seq_num other_pdu e = e

unfoldable pub send_to_rmt : Efcp → Pdu → Efcp
unfolding note_seq_num
send_to_rmt e p = let n = note_seq_num p e in record n { south = n.south ++ p ∷ [] }

-- `notifyStartSending`, `notifyStopSending`.
unfoldable pub notify_start_sending : Efcp → Efcp
notify_start_sending e =
    if e.dtp.blocking_port
    then record (set_dtp e (record e.dtp { blocking_port = false })) {
      signals = e.signals ++ start_sending ∷ [];
    }
    else e

unfoldable pub notify_stop_sending : Efcp → Efcp
notify_stop_sending e =
    if e.dtp.blocking_port then e else record (set_dtp e (record e.dtp { blocking_port = true })) {
      signals = e.signals ++ stop_sending ∷ [];
    }

-- `DTCP::pushBackToRxQ`: the copy's timer is scheduled at once.
unfoldable pub push_back_to_rxq : Efcp → DataPdu → Efcp
push_back_to_rxq e p = set_dtcp e (record e.dtcp {
  rxq = e.dtcp.rxq ++ record { timer_pdu = p; expiry_count = 0; is_scheduled = true } ∷ [];
})

-- A control PDU under the next control sequence number.
send_control : Efcp → ControlBody → Efcp
unfolding send_to_rmt
send_control e b =
    let n = e.dtcp.next_sender_control_seq_num in
    send_to_rmt (set_dtcp e (record e.dtcp { next_sender_control_seq_num = u32 (n + 1) }))
      (control (record { ctrl_header = set_pdu_header e.flow; ctrl_seq_num = n; body = b }))

-- The fields that `fillFlowControlPDU` sets.
flow_control_fields : Efcp → FlowControl
flow_control_fields e = record {
  new_right_win_edge = e.dtcp.rcv_rt_win_edge;
  new_rate = e.dtcp.rcvr_rate;
  time_unit = e.dtcp.sending_time_unit;
  my_left_win_edge = e.dtp.rcv_left_win_edge;
  my_right_win_edge = e.dtcp.snd_rt_win_edge;
  my_rcv_rate = e.dtcp.sending_rate;
}

-- `fillFlowControlPDU` also notes the right window edge that goes out.
note_edge_sent : Efcp → Efcp
note_edge_sent e = set_dtcp e (record e.dtcp { rcv_rt_win_edge_sent = e.dtcp.rcv_rt_win_edge })

unfoldable pub send_fc_only_pdu : Efcp → Efcp
unfolding send_control flow_control_fields note_edge_sent
send_fc_only_pdu e = send_control (note_edge_sent e) (flow_only (flow_control_fields e))

unfoldable pub send_ack_only_pdu : Efcp → ℕ → Efcp
unfolding send_control
send_ack_only_pdu e n = send_control e (ack_only n)

-- The number that `sendAckFlowPDU` acknowledges: the caller's if it is valid.
unfoldable pub ack_number : Efcp → ℕ → Bool → ℕ
ack_number e n valid = if valid then n else sub32 e.dtp.rcv_left_win_edge 1

unfoldable pub send_ack_flow_pdu : Efcp → ℕ → Bool → Efcp
unfolding send_control flow_control_fields note_edge_sent ack_number send_fc_only_pdu
    send_ack_only_pdu
send_ack_flow_pdu e n valid =
    let acked = ack_number e n valid in
    if is_fc_present e.dtp && e.dtp.rx_present
    then send_control (note_edge_sent e) (ack_flow acked (flow_control_fields e))
    else if is_fc_present e.dtp
    then send_fc_only_pdu e
    else if e.dtp.rx_present
    then send_ack_only_pdu e acked
    else e

unfoldable pub send_control_ack_pdu : Efcp → Efcp
unfolding send_control
send_control_ack_pdu e = send_control e (
    control_ack (record {
      last_ctrl_seq_num_rcv = e.dtcp.last_control_seq_num_rcv;
      snd_lt_win_edge = e.dtcp.sender_left_win_edge;
      snd_rt_win_edge = e.dtcp.snd_rt_win_edge;
      my_lt_win_edge = e.dtp.rcv_left_win_edge;
      my_rt_win_edge = e.dtcp.rcv_rt_win_edge;
      ca_my_rcv_rate = e.dtcp.rcvr_rate;
    }))

-- The next data transfer PDU with no data: its number is taken, and the DRF flag if it is due.
unfoldable pub next_data_pdu : Efcp → DataPdu
next_data_pdu e = record {
  header = set_pdu_header e.flow;
  seq_num = e.dtp.next_seq_num_to_send;
  flags = if e.dtp.set_drf_flag then bit_or 0 drf_flag else 0;
  user_data_field = new_field;
}

unfoldable pub take_seq_num : Efcp → Efcp
take_seq_num e = set_dtp e (record e.dtp {
  next_seq_num_to_send = u32 (e.dtp.next_seq_num_to_send + 1);
  set_drf_flag = false;
})

-- `sendEmptyDTPDU`.
unfoldable pub send_empty_dt_pdu : Efcp → Efcp
unfolding send_to_rmt push_back_to_rxq next_data_pdu take_seq_num
send_empty_dt_pdu e =
    let p = next_data_pdu e in
    let t = take_seq_num e in
    send_to_rmt (if e.dtp.rx_present then push_back_to_rxq t p else t) (data_transfer p)
