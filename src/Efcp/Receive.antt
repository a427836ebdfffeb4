-- ===== src/Efcp/Receive.antt =====
-- The receiving side of src/DIF/EFCP/DTP/DTP.cc: `handleDataTransferPDUFromRMT`, `svUpdate` and
-- `handleDTPATimer`, with the default policies ECN, RcvrFC, RcvrAck, ReceivingFC and SendingAck of
-- policies/DIF/EFCP/DTCP and `runECNPolicy` of src/DIF/EFCP/DTCP/DTCP.cc.
pub mod Frame
pub mod Invariant
pub mod Branches
pub mod Gaps
pub mod Calls
pub mod Runs
use rinasim.Base.{
  ℕ, ◌+◌, ◌==◌, List, [], ◌∷◌, Bool, true, false, not, ◌&&◌, ltb, leb, if◌then◌else◌, u32, sub32,
  Result, ok, ◌>>=◌, none, some,
}
use rinasim.Efcp.Pdu.{DataPdu, data_transfer, has_flag, drf_flag, ecn_flag}
use rinasim.Efcp.State.{
  DtpState, Efcp, set_dtp, set_dtcp, add_timer_op, set_max_seq_num_rcvd, is_fc_present, schedule,
  cancel, a_timer, sender_inactivity, rcvr_inactivity,
}
use rinasim.Efcp.Output.{send_ack_flow_pdu, send_fc_only_pdu}
use rinasim.Efcp.Reassembly.{
  add_pdu_to_reassembly_q, is_duplicate, update_rcv_lwe, delimit_from_rmt,
}

abbrev pub set_edge : Efcp → ℕ → Efcp
set_edge e n = set_dtp e (record e.dtp { rcv_left_win_edge = n })

-- The ECN policy runs on the current PDU when flow control is on.
unfoldable pub ecn_policy : Efcp → DataPdu → Efcp
ecn_policy e p =
    if is_fc_present e.dtp
    then set_dtp e (record e.dtp { ecn_set = has_flag p.flags ecn_flag })
    else e

-- `RcvrFCPolicyBase::defaultAction`: more credit while the buffers have room.
unfoldable pub rcvr_fc : Efcp → Efcp
rcvr_fc e =
    if ltb e.dtcp.rcv_buffer_percent_threshold e.dtcp.rcv_buffers_percent_free
    then set_dtcp e (record e.dtcp { rcv_rt_win_edge = u32 (e.dtcp.rcv_rt_win_edge + 1) })
    else e

-- `RcvrAckPolicyBase::defaultAction`: the number is taken before the edge moves.
unfoldable pub rcvr_ack : Efcp → Efcp
rcvr_ack e =
    let lwe = e.dtp.rcv_left_win_edge in
    let n = if lwe == 0 then 0 else sub32 lwe 1 in
    if e.dtcp.immediate
    then send_ack_flow_pdu (set_dtp e (update_rcv_lwe e.dtp n)) n true
    else add_timer_op e (schedule (a_timer n))

unfoldable pub receiving_fc : Efcp → Efcp
receiving_fc e = if e.dtp.win_based then send_fc_only_pdu e else e

-- `svUpdate`.
unfoldable pub sv_update : Efcp → ℕ → Efcp
sv_update e n =
    let moved = set_dtp e (update_rcv_lwe e.dtp n) in
    let credited =
      if is_fc_present moved.dtp && moved.dtp.win_based then rcvr_fc moved else moved in
    let acked = if credited.dtp.rx_present then rcvr_ack credited else credited in
    if is_fc_present acked.dtp && not acked.dtp.rx_present then receiving_fc acked else acked

abbrev pub queue_pdu : Efcp → DataPdu → Result Efcp
queue_pdu e p = add_pdu_to_reassembly_q e.dtp p >>= λ s. ok (set_dtp e s)

-- A PDU with the DRF flag starts a new run.
unfoldable pub new_run : Efcp → DataPdu → Result Efcp
new_run e p = do
  d ← delimit_from_rmt e
  let flushed = set_dtp d (record d.dtp { reassembly_pduq = [] })
  q ← queue_pdu (set_dtp flushed (set_max_seq_num_rcvd flushed.dtp p.seq_num)) p
  let edged = set_edge q (u32 (p.seq_num + 1))
  delimit_from_rmt (if edged.dtp.dtcp_present then sv_update edged p.seq_num else edged)

-- Cases 2 and 3: a PDU that is there already.
unfoldable pub drop_duplicate : Efcp → Efcp
drop_duplicate e =
    send_ack_flow_pdu (set_dtp e (record e.dtp { drop_dup = u32 (e.dtp.drop_dup + 1) })) 0 false

-- Case 3: into a gap.
unfoldable pub into_gap : Efcp → DataPdu → Result Efcp
into_gap e p = do
  q ← queue_pdu e p
  let n = q.dtp.max_seq_num_rcvd
  delimit_from_rmt (if q.dtp.dtcp_present then sv_update q n else set_edge q n)

-- Case 4: the next PDU.
unfoldable pub in_order : Efcp → DataPdu → Result Efcp
in_order e p = do
  let counted = set_dtp e (record e.dtp { max_seq_num_rcvd = u32 (e.dtp.max_seq_num_rcvd + 1) })
  q ← queue_pdu counted p
  let n = q.dtp.max_seq_num_rcvd
  delimit_from_rmt (
      if q.dtp.dtcp_present
      then sv_update q n
      else add_timer_op (set_edge q (u32 (n + 1))) (schedule (a_timer p.seq_num)))

-- Case 5: past the next one.
unfoldable pub out_of_order : Efcp → DataPdu → Result Efcp
out_of_order e p = do
  q ← queue_pdu e p
  let m = set_dtp q (set_max_seq_num_rcvd q.dtp p.seq_num)
  let n = m.dtp.max_seq_num_rcvd
  delimit_from_rmt
      (if m.dtp.dtcp_present then sv_update m n else add_timer_op m (schedule (a_timer n)))

-- The cases of a PDU that does not start a run. What none of them takes is deleted.
unfoldable pub continue_run : Efcp → DataPdu → Result Efcp
unfolding into_gap in_order out_of_order
continue_run e p =
    let n = p.seq_num in
    let lwe = e.dtp.rcv_left_win_edge in
    let m = e.dtp.max_seq_num_rcvd in
    if ltb n lwe
    then ok (drop_duplicate e)
    else if ltb lwe n && leb n m
    then (if is_duplicate e.dtp.reassembly_pduq n then ok (drop_duplicate e) else into_gap e p)
    else if n == u32 (m + 1)
    then in_order e p
    else if ltb (u32 (m + 1)) n
    then out_of_order e p
    else ok e

-- `handleDataTransferPDUFromRMT`.
unfoldable pub handle_data_transfer_pdu : Efcp → DataPdu → Result Efcp
unfolding ecn_policy new_run continue_run
handle_data_transfer_pdu e p =
    let marked = ecn_policy e p in
    if has_flag p.flags drf_flag then new_run marked p else continue_run marked p

-- `resetSenderInactivTimer`.
abbrev reset_sender_inactivity : Efcp → Efcp
reset_sender_inactivity e =
    add_timer_op (add_timer_op e (cancel sender_inactivity)) (schedule sender_inactivity)

-- `handleDTPATimer`, and `SendingAckPolicyBase::defaultAction` with DTCP.
unfoldable pub handle_a_timer : Efcp → ℕ → Result Efcp
handle_a_timer e n =
    let edge = if ltb n e.dtp.rcv_left_win_edge then e.dtp.rcv_left_win_edge else n in
    delimit_from_rmt
      (if e.dtp.dtcp_present then set_dtp e (update_rcv_lwe e.dtp n) else set_edge e edge)
    >>= λ a. ok (reset_sender_inactivity a)

-- `handleMsgFromRMT` on a data transfer PDU.
unfoldable pub receive_data : Efcp → DataPdu → Result Efcp
unfolding handle_data_transfer_pdu
receive_data e p = do
  let current = set_dtp e (record e.dtp { current_pdu = some (data_transfer p) })
  a ← handle_data_transfer_pdu (add_timer_op current (cancel rcvr_inactivity)) p
  let b = add_timer_op a (schedule rcvr_inactivity)
  ok (set_dtp b (record b.dtp { current_pdu = none }))
