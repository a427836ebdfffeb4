-- ===== src/Efcp/State.antt =====
-- src/DIF/EFCP/DTP/DTPState.* and src/DIF/EFCP/DTCP/DTCPState.*: the two state vectors of a
-- connection, and the record of an EFCP instance with what it hands to its neighbours.
use rinasim.Base.{
  ℕ, ◌+◌, List, [], ◌∷◌, ◌++◌, Option, none, Bool, true, false, ltb, leb, if◌then◌else◌, ◌||◌, u32,
  length,
}
use rinasim.Efcp.Sdu.{Sdu}
use rinasim.Efcp.Pdu.{Flow, Pdu, DataPdu}

-- The fields of a QoS cube that the protocol reads.
pub record QosCube : Type 0 where
  pub rx_on : Bool
  pub window_fc_on : Bool
  pub rate_fc_on : Bool
  pub max_allow_gap : ℕ
  pub force_order : Bool

pub record DtpState : Type 0 where
  pub current_pdu : Option Pdu
  pub max_flow_pdu_size : ℕ
  pub dtcp_present : Bool
  pub win_based : Bool
  pub rate_based : Bool
  pub rx_present : Bool
  pub reassembly_pduq : List DataPdu
  pub generated_pdus : List DataPdu
  pub postable_pdus : List DataPdu
  pub qos_cube : QosCube
  pub rcv_left_win_edge : ℕ
  pub max_seq_num_rcvd : ℕ
  pub next_seq_num_to_send : ℕ
  pub last_sdu_delivered : ℕ
  pub drop_dup : ℕ
  pub last_seq_num_sent : ℕ
  pub set_drf_flag : Bool
  pub ecn_set : Bool
  pub blocking_port : Bool

-- `initDefaults` and `initialize`, for a QoS cube and the module's parameter `maxPDUSize`.
unfoldable pub init_dtp_state : QosCube → ℕ → DtpState
init_dtp_state q max_pdu = record {
  current_pdu = none;
  max_flow_pdu_size = max_pdu;
  dtcp_present = q.rx_on || (q.window_fc_on || q.rate_fc_on);
  win_based = q.window_fc_on;
  rate_based = q.rate_fc_on;
  rx_present = q.rx_on;
  reassembly_pduq = [];
  generated_pdus = [];
  postable_pdus = [];
  qos_cube = q;
  rcv_left_win_edge = 0;
  max_seq_num_rcvd = 0;
  next_seq_num_to_send = 1;
  last_sdu_delivered = 0;
  drop_dup = 0;
  last_seq_num_sent = 0;
  set_drf_flag = true;
  ecn_set = false;
  blocking_port = false;
}

abbrev pub is_fc_present : DtpState → Bool
is_fc_present s = s.win_based || s.rate_based

-- `setMaxSeqNumRcvd` never lowers the number.
unfoldable pub set_max_seq_num_rcvd : DtpState → ℕ → DtpState
set_max_seq_num_rcvd s n = record s {
  max_seq_num_rcvd = if ltb n s.max_seq_num_rcvd then s.max_seq_num_rcvd else n;
}

-- A retransmission timer with its PDU; `is_scheduled` is OMNeT++'s flag of the self-message.
pub record RxTimer : Type 0 where
  pub timer_pdu : DataPdu
  pub expiry_count : ℕ
  pub is_scheduled : Bool

pub record DtcpState : Type 0 where
  pub rcv_credit : ℕ
  pub snd_credit : ℕ
  pub rcv_rt_win_edge : ℕ
  pub rcv_rt_win_edge_sent : ℕ
  pub sender_left_win_edge : ℕ
  pub snd_rt_win_edge : ℕ
  pub immediate : Bool
  pub next_sender_control_seq_num : ℕ
  pub last_control_seq_num_rcv : ℕ
  pub data_rexmit_max : ℕ
  pub rx_sent : ℕ
  pub rxq : List RxTimer
  pub closed_window_q : List DataPdu
  pub max_closed_win_que_len : ℕ
  pub closed_window : Bool
  pub dup_acks : ℕ
  pub dup_fc : ℕ
  pub sending_time_unit : ℕ
  pub sending_rate : ℕ
  pub rcvr_rate : ℕ
  pub config_rcvr_rate : ℕ
  pub sending_rate_fullfilled : Bool
  pub pdus_sent_in_time_unit : ℕ
  pub rcv_buffers_percent_free : ℕ
  pub rcv_buffer_percent_threshold : ℕ

unfoldable pub is_closed_win_q_closed : DtcpState → Bool
is_closed_win_q_closed c = leb c.max_closed_win_que_len (length c.closed_window_q)

unfoldable pub update_rcv_rt_win_edge : DtcpState → ℕ → DtcpState
update_rcv_rt_win_edge c lwe = record c { rcv_rt_win_edge = u32 (lwe + c.rcv_credit) }

abbrev pub first_or : List RxTimer → ℕ → ℕ
first_or [] n = n
first_or (t ∷ ts) n = t.timer_pdu.seq_num

-- `updateSndLWE`: the oldest unacknowledged PDU, or the given number.
unfoldable pub update_snd_lwe : DtcpState → ℕ → DtcpState
update_snd_lwe c n = record c { sender_left_win_edge = first_or c.rxq n }

pub data Timer : Type 0 where
  sender_inactivity rcvr_inactivity : Timer
  a_timer : ℕ → Timer

pub data TimerOp : Type 0 where
  schedule cancel : Timer → TimerOp

pub data Signal : Type 0 where
  start_sending stop_sending : Signal

-- One instance: DTP with its state vectors, and what it has sent so far, oldest first.
pub record Efcp : Type 0 where
  pub flow : Flow
  pub dtp : DtpState
  pub dtcp : DtcpState
  pub data_q : List Sdu
  pub north : List Sdu
  pub south : List Pdu
  pub timers : List TimerOp
  pub signals : List Signal

abbrev pub set_dtp : Efcp → DtpState → Efcp
set_dtp e s = record e { dtp = s }

abbrev pub set_dtcp : Efcp → DtcpState → Efcp
set_dtcp e c = record e { dtcp = c }

abbrev pub add_timer_op : Efcp → TimerOp → Efcp
add_timer_op e op = record e { timers = e.timers ++ op ∷ [] }
