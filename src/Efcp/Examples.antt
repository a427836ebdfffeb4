-- ===== src/Efcp/Examples.antt =====
-- Concrete connections for the theorems on EFCP.
mod Receiver
mod Sender
use rinasim.Base.{
  ℕ, ◌+◌, ◌<◌, ◌≤◌, ◌≡◌, ◌≢◌, ◌⊎◌, refl, List, [], ◌∷◌, ◌++◌, Option, none, some, Bool, true, false,
  ok, err, arith, All, u32, u32_mod, out_of_fuel, same_seq_num, length, keep,
}
use rinasim.Efcp.Sdu.{
  Packet, Sdu, sdu_complete_type, get_size, UserDataField, new_field, get_data, Delimiting,
  sdu_frag_last, sdu_no_length,
}
use rinasim.Efcp.Sdu.Flags.{add_all, total_size}
use rinasim.Efcp.Sdu.Fields.{get_data-add_all, process_all}
use rinasim.Efcp.Sdu.Fragments.{fragment_run}
use rinasim.Efcp.Pdu.{Flow, PduHeader, DataPdu, ControlPdu, ack_only, has_flag}
use rinasim.Efcp.State.{
  QosCube, DtpState, DtcpState, RxTimer, Efcp, set_dtp, set_dtcp, stop_sending,
}
use rinasim.Efcp.Reassembly.{
  add_to_queue, is_duplicate, update_rcv_lwe, delimit_loop, delimit_from_rmt,
}
use rinasim.Efcp.Reassembly.Order.{IsAscendingFrom, add_to_queue_sound}
use rinasim.Efcp.Reassembly.Edge.{update_rcv_lwe-first_missing, first_missing}
use rinasim.Efcp.Reassembly.Delivery.{Delimited, delimit_from_rmt-Delimited}
use rinasim.Efcp.Output.{notify_start_sending, notify_stop_sending, ack_number}
use rinasim.Efcp.Output.Signals.{InTurns}
use rinasim.Efcp.Retransmit.{ack_pdu, sender_ack, acks}
use rinasim.Efcp.Retransmit.Acks.{ack_pdu_lem, sender_ack_lem, after_ack}
use rinasim.Efcp.Retransmit.Expiry.{handle_rx_expiry_lem, GivesUp, SendsAgain}
use rinasim.Efcp.Send.{delimit, generate_pdus, generate_loop, send_loop, generated}
use rinasim.Efcp.Send.Delimit.{delimit_lem}
use rinasim.Efcp.Send.Generate.{Generates, generate_pdus-Generates}
use rinasim.Efcp.Transmit.{try_send_gen_pdus}
use rinasim.Efcp.Transmit.Window.{Transmits, try_send_gen_pdus-Transmits}
use rinasim.Efcp.Receive.{ecn_policy, handle_data_transfer_pdu, handle_a_timer, receive_data}
use rinasim.Efcp.Receive.Invariant.{IsOrderly, Settles}
use rinasim.Efcp.Receive.Branches.{IsSound}
use rinasim.Efcp.Receive.Gaps.{missing_pdu_dropped}
use rinasim.Efcp.Receive.Calls.{receive_data-Settles}
use rinasim.Efcp.Control.{common_rcv_control}
use rinasim.Efcp.Control.Sequence.{common_rcv_control_lem}

abbrev pub flow : Flow
flow = record {
  conn_id = record { qos_id = "1"; src_cep_id = 10; dst_cep_id = 20 };
  src_addr = record { ipc_address = "1"; dif_name = "Layer01" };
  dst_addr = record { ipc_address = "2"; dif_name = "Layer01" };
  src_apn = "ping";
  dst_apn = "pong";
}

abbrev pub header : PduHeader
header = record {
  conn_id = flow.conn_id;
  src_addr = flow.src_addr;
  dst_addr = flow.dst_addr;
  src_apn = "pong";
  dst_apn = "ping";
}

abbrev pub sdu : ℕ → ℕ → Sdu
sdu n size = record {
  data_type = sdu_complete_type;
  size = size;
  f_size = 0;
  f_offset = 0;
  seq_num = n;
  f_seq_num = 0;
  frag_type = 0;
  user_data = record { packet_id = n; byte_length = size } ∷ [];
}

abbrev pub pdu : ℕ → DataPdu
pdu n = record {
  header = header;
  seq_num = n;
  flags = 0;
  user_data_field = record {
    pdu_data = sdu n 100 ∷ [];
    field_size = 100;
    sdu_delimit_flags = 8;
    sdu_seq_num = n;
  };
}

abbrev pub timer : ℕ → RxTimer
timer n = record { timer_pdu = pdu n; expiry_count = 0; is_scheduled = true }

abbrev pub cube : QosCube
cube = record {
  rx_on = true;
  window_fc_on = true;
  rate_fc_on = false;
  max_allow_gap = 0;
  force_order = true;
}

-- PDUs 3 and 5 are in, 4 is missing.
abbrev pub receiver_state : DtpState
receiver_state = record {
  current_pdu = none;
  max_flow_pdu_size = 1400;
  dtcp_present = true;
  win_based = true;
  rate_based = false;
  rx_present = true;
  reassembly_pduq = pdu 3 ∷ pdu 5 ∷ [];
  generated_pdus = [];
  postable_pdus = [];
  qos_cube = cube;
  rcv_left_win_edge = 3;
  max_seq_num_rcvd = 5;
  next_seq_num_to_send = 1;
  last_sdu_delivered = 2;
  drop_dup = 0;
  last_seq_num_sent = 0;
  set_drf_flag = false;
  ecn_set = false;
  blocking_port = false;
}

abbrev pub dtcp_state : DtcpState
dtcp_state = record {
  rcv_credit = 10;
  snd_credit = 10;
  rcv_rt_win_edge = 10;
  rcv_rt_win_edge_sent = 10;
  sender_left_win_edge = 1;
  snd_rt_win_edge = 2;
  immediate = true;
  next_sender_control_seq_num = 1;
  last_control_seq_num_rcv = 4;
  data_rexmit_max = 3;
  rx_sent = 0;
  rxq = timer 1 ∷ timer 2 ∷ timer 3 ∷ [];
  closed_window_q = [];
  max_closed_win_que_len = 4;
  closed_window = false;
  dup_acks = 0;
  dup_fc = 0;
  sending_time_unit = 1000;
  sending_rate = 0;
  rcvr_rate = 0;
  config_rcvr_rate = 10;
  sending_rate_fullfilled = false;
  pdus_sent_in_time_unit = 0;
  rcv_buffers_percent_free = 50;
  rcv_buffer_percent_threshold = 25;
}

abbrev pub receiver : Efcp
receiver = record {
  flow = flow;
  dtp = receiver_state;
  dtcp = dtcp_state;
  data_q = [];
  north = [];
  south = [];
  timers = [];
  signals = [];
}

abbrev pub queue : List DataPdu
queue = pdu 3 ∷ pdu 5 ∷ []

abbrev pub without_length : DataPdu
without_length = record (pdu 2) {
  user_data_field = record (pdu 2).user_data_field { sdu_delimit_flags = sdu_no_length };
}
