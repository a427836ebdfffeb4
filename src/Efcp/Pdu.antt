-- ===== src/Efcp/Pdu.antt =====
-- src/Common/PDU.msg, src/DIF/EFCP/DTCP/ControlPDU.msg and src/DIF/EFCP/DTP/DataTransferPDU.cc: the
-- PDUs of a flow.
use Prim.Native.Nat.{bit_and}
use Prim.Native.String.{String}
use rinasim.Base.{ℕ, List, Bool, not, ◌==◌}
use rinasim.Efcp.Sdu.{UserDataField}

pub record ConnectionId : Type 0 where
  pub qos_id : String
  pub src_cep_id : ℕ
  pub dst_cep_id : ℕ

pub record Address : Type 0 where
  pub ipc_address : String
  pub dif_name : String

-- What `setPDUHeader` reads of the flow.
pub record Flow : Type 0 where
  pub conn_id : ConnectionId
  pub src_addr : Address
  pub dst_addr : Address
  pub src_apn : String
  pub dst_apn : String

pub record PduHeader : Type 0 where
  pub conn_id : ConnectionId
  pub src_addr : Address
  pub dst_addr : Address
  pub src_apn : String
  pub dst_apn : String

-- `DTP::setPDUHeader`. The naming infos are taken crosswise, as the code takes them.
unfoldable pub set_pdu_header : Flow → PduHeader
set_pdu_header f = record {
  conn_id = f.conn_id;
  src_addr = f.src_addr;
  dst_addr = f.dst_addr;
  src_apn = f.dst_apn;
  dst_apn = f.src_apn;
}

pub record DataPdu : Type 0 where
  pub header : PduHeader
  pub seq_num : ℕ
  pub flags : ℕ
  pub user_data_field : UserDataField

pub record FlowControl : Type 0 where
  pub new_right_win_edge : ℕ
  pub new_rate : ℕ
  pub time_unit : ℕ
  pub my_left_win_edge : ℕ
  pub my_right_win_edge : ℕ
  pub my_rcv_rate : ℕ

-- The list of a selective PDU: `len` pairs of a first and a last sequence number.
pub record NackList : Type 0 where
  pub nack_list_len : ℕ
  pub nack_list : List ℕ

pub record ControlAck : Type 0 where
  pub last_ctrl_seq_num_rcv : ℕ
  pub snd_lt_win_edge : ℕ
  pub snd_rt_win_edge : ℕ
  pub my_lt_win_edge : ℕ
  pub my_rt_win_edge : ℕ
  pub ca_my_rcv_rate : ℕ

-- One constructor for each class of control PDU.
pub data ControlBody : Type 0 where
  control_ack : ControlAck → ControlBody
  ack_only nack_only : ℕ → ControlBody
  flow_only : FlowControl → ControlBody
  ack_flow nack_flow : ℕ → FlowControl → ControlBody
  select_ack select_nack select_ack_flow select_nack_flow : NackList → FlowControl → ControlBody

pub record ControlPdu : Type 0 where
  pub ctrl_header : PduHeader
  pub ctrl_seq_num : ℕ
  pub body : ControlBody

-- `other_pdu` is a PDU of neither class.
pub data Pdu : Type 0 where
  data_transfer : DataPdu → Pdu
  control : ControlPdu → Pdu
  other_pdu : Pdu

-- The enum `PDUType`.
unfoldable pub pdu_type : ControlBody → ℕ
pdu_type (control_ack c) = 0x8003
pdu_type (ack_only n) = 0x8804
pdu_type (nack_only n) = 0x8805
pdu_type (select_ack l f) = 0x8806
pdu_type (select_nack l f) = 0x8807
pdu_type (flow_only f) = 0x8808
pdu_type (ack_flow n f) = 0x880C
pdu_type (nack_flow n f) = 0x880D
pdu_type (select_ack_flow l f) = 0x880E
pdu_type (select_nack_flow l f) = 0x880F

abbrev pub pdu_nack_bit : ℕ
pdu_nack_bit = 0x01

abbrev pub pdu_sel_bit : ℕ
pdu_sel_bit = 0x02

abbrev pub pdu_ack_bit : ℕ
pdu_ack_bit = 0x04

abbrev pub pdu_fc_bit : ℕ
pdu_fc_bit = 0x08

abbrev pub drf_flag : ℕ
drf_flag = 0x80

abbrev pub ecn_flag : ℕ
ecn_flag = 0x01

-- `pdu->getFlags() & bit`, `pdu->getType() & bit` as tests.
unfoldable pub has_flag : ℕ → ℕ → Bool
has_flag flags bit = not (bit_and flags bit == 0)

unfoldable pub has_type_bit : ControlBody → ℕ → Bool
unfolding pdu_type has_flag
has_type_bit b bit = has_flag (pdu_type b) bit
