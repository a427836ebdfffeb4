-- ===== src/Efcp/Control.antt =====
-- Control PDUs: `commonRcvControl` and the control half of `handleMsgFromRMT` of
-- src/DIF/EFCP/DTP/DTP.cc, with the default policies LostControlPDU and RcvrControlAck of
-- policies/DIF/EFCP/DTCP, and the timers of src/DIF/EFCP/DTCP/DTCP.cc.
pub mod Sequence
pub mod Wrap
use rinasim.Base.{
  ℕ, zero, suc, ◌+◌, ◌*◌, ◌==◌, List, [], ◌∷◌, Bool, true, false, not, ◌&&◌, ◌||◌, ltb, leb,
  if◌then◌else◌, u32, sub32, Option, none, some, Result, ok, err, bad_index, ◌>>=◌, get_elem?,
  length, unexpected_pdu_type,
}
use rinasim.Efcp.Sdu.{new_field}
use rinasim.Efcp.Pdu.{
  Pdu, data_transfer, control, other_pdu, ControlPdu, ControlBody, ControlAck, FlowControl,
  NackList, control_ack, ack_only, nack_only, flow_only, ack_flow, nack_flow, select_ack,
  select_nack, select_ack_flow, select_nack_flow, has_type_bit, pdu_ack_bit, pdu_fc_bit,
  set_pdu_header,
}
use rinasim.Efcp.State.{DtcpState, Efcp, set_dtp, set_dtcp, update_snd_lwe, is_closed_win_q_closed}
use rinasim.Efcp.Output.{
  send_to_rmt, send_ack_flow_pdu, send_control_ack_pdu, send_empty_dt_pdu, notify_start_sending,
}
use rinasim.Efcp.Retransmit.{ack_pdu, nack_pdu, sender_ack}
use rinasim.Efcp.Send.{closed_window_queue, closed_len}
use rinasim.Efcp.Transmit.{try_send_gen_pdus}
use rinasim.Efcp.Receive.{receive_data}

abbrev set_last_ctrl : Efcp → ℕ → Efcp
set_last_ctrl e n = set_dtcp e (record e.dtcp { last_control_seq_num_rcv = n })

-- `LostControlPDUPolicyBase::defaultAction`.
unfoldable pub lost_control_pdu : Efcp → ℕ → Efcp
lost_control_pdu e n = set_last_ctrl (send_empty_dt_pdu (send_control_ack_pdu e)) n

-- A duplicate counts as an acknowledgement, as flow control, or as both.
unfoldable pub count_duplicate : Efcp → ControlBody → Efcp
count_duplicate e b = set_dtcp e (record e.dtcp {
  dup_acks = if has_type_bit b pdu_ack_bit then u32 (e.dtcp.dup_acks + 1) else e.dtcp.dup_acks;
  dup_fc = if has_type_bit b pdu_fc_bit then u32 (e.dtcp.dup_fc + 1) else e.dtcp.dup_fc;
})

-- `commonRcvControl`, with whether the PDU is still there.
unfoldable pub common_rcv_control : Efcp → ControlPdu → Efcp × Bool
common_rcv_control e p =
    let last = e.dtcp.last_control_seq_num_rcv in
    if leb p.ctrl_seq_num last
    then (count_duplicate e p.body, false)
    else if ltb (u32 (last + 1)) p.ctrl_seq_num
    then (lost_control_pdu e p.ctrl_seq_num, true)
    else (set_last_ctrl e p.ctrl_seq_num, true)

-- `RcvrControlAckPolicyBase::defaultAction`: the fields bring the sender's window up to date.
unfoldable pub adjust_edges : Efcp → ControlAck → Result Efcp
adjust_edges e c =
    if ltb e.dtcp.sender_left_win_edge c.my_lt_win_edge
    then (ack_pdu e (sub32 c.my_lt_win_edge 1) 0 >>= λ a.
        ok (set_dtcp a (update_snd_lwe a.dtcp c.my_lt_win_edge)))
    else ok e

unfoldable pub rcvr_control_ack : Efcp → ControlAck → Result Efcp
unfolding adjust_edges
rcvr_control_ack e c = do
  a ← adjust_edges e c
  let set =
      set_dtcp a
        (record a.dtcp { snd_rt_win_edge = c.my_rt_win_edge; sending_rate = c.ca_my_rcv_rate })
  let replied = send_ack_flow_pdu set 0 false
  ok (
      send_to_rmt replied (
        data_transfer (record {
          header = set_pdu_header replied.flow;
          seq_num = sub32 replied.dtp.next_seq_num_to_send 1;
          flags = 0;
          user_data_field = new_field;
        })))

-- Rounds enough for every queued timer to expire for good.
abbrev nack_fuel : Efcp → ℕ
nack_fuel e = suc (length e.dtcp.rxq * (e.dtcp.data_rexmit_max + 3))

abbrev nack : Efcp → ℕ → ℕ → Result Efcp
nack e start end = nack_pdu (nack_fuel e) e start end

-- The pair of a selective list at an index.
with_pair : List ℕ → ℕ → (ℕ → ℕ → Result Efcp) → Result Efcp
with_pair l i f = elim (get_elem? l (i * 2)) [
  | none ↦ err bad_index
  | some start ↦ elim (get_elem? l (i * 2 + 1)) [ none ↦ err bad_index | some end ↦ f start end ]
]

-- The loop over the pairs of a SelectiveNack: `n` pairs from the `i`-th on.
nack_pairs : ℕ → ℕ → List ℕ → Efcp → Result Efcp
nack_pairs zero i l e = ok e
nack_pairs (suc n) i l e =
    with_pair l i (λ start end. nack e start end) >>= λ a. nack_pairs n (i + 1) l a

-- The loop over the pairs of a SelectiveAck, with the largest end so far.
ack_pairs : ℕ → ℕ → ℕ → List ℕ → Efcp → Result Efcp
ack_pairs zero i largest l e = ok e
ack_pairs (suc n) i largest l e =
    let up = λ (end : ℕ). if ltb largest end then end else largest in
    let largest' : ℕ = elim (get_elem? l (i * 2 + 1)) [ none ↦ largest | some end ↦ up end ] in
    with_pair l i (λ start end.
      ack_pdu e start end >>= λ a. ok (set_dtcp a (update_snd_lwe a.dtcp (u32 (up end + 1)))))
    >>= λ a. ack_pairs n (i + 1) largest' l a

-- Acknowledgements, plain and selective, by the bits of the type.
acknowledge : ControlBody → Efcp → Result Efcp
unfolding with_pair nack_pairs ack_pairs
acknowledge (control_ack c) e = ok e
acknowledge (ack_only n) e = sender_ack e n
acknowledge (nack_only n) e = nack e n 0
acknowledge (flow_only f) e = ok e
acknowledge (ack_flow n f) e = sender_ack e n
acknowledge (nack_flow n f) e = nack e n 0
acknowledge (select_ack l f) e = ack_pairs l.nack_list_len 0 0 l.nack_list e
acknowledge (select_nack l f) e = nack_pairs l.nack_list_len 0 l.nack_list e
acknowledge (select_ack_flow l f) e = ack_pairs l.nack_list_len 0 0 l.nack_list e
acknowledge (select_nack_flow l f) e = nack_pairs l.nack_list_len 0 l.nack_list e

-- A new right window edge and rate; what was held back is tried again.
apply_flow_control : FlowControl → Efcp → Result Efcp
apply_flow_control f e =
    let set =
      set_dtcp e
        (record e.dtcp { snd_rt_win_edge = f.new_right_win_edge; sending_rate = f.new_rate }) in
    let reopened = set_dtcp set (record set.dtcp { closed_window = false }) in
    if ltb 0 (closed_len set)
    then (try_send_gen_pdus reopened closed_window_queue >>= λ a. ok (
        if a.dtp.win_based && not (is_closed_win_q_closed a.dtcp)
        then notify_start_sending a
        else a))
    else ok set

flow_fields : ControlBody → Option FlowControl
flow_fields (control_ack c) = none
flow_fields (ack_only n) = none
flow_fields (nack_only n) = none
flow_fields (flow_only f) = some f
flow_fields (ack_flow n f) = some f
flow_fields (nack_flow n f) = some f
flow_fields (select_ack l f) = none
flow_fields (select_nack l f) = none
flow_fields (select_ack_flow l f) = some f
flow_fields (select_nack_flow l f) = some f

update_flow : Option FlowControl → Efcp → Result Efcp
unfolding apply_flow_control
update_flow none e = ok e
update_flow (some f) e = apply_flow_control f e

-- What a control PDU that is no duplicate does.
unfoldable pub apply_control : ControlBody → Efcp → Result Efcp
unfolding acknowledge flow_fields update_flow
apply_control (control_ack c) e = rcvr_control_ack e c
apply_control b e = acknowledge b e >>= λ a. update_flow (flow_fields b) a

abbrev clear_current : Efcp → Efcp
clear_current e = set_dtp e (record e.dtp { current_pdu = none })

-- `handleMsgFromRMT`. On a duplicate control PDU it returns with the current PDU still set.
unfoldable pub handle_msg_from_rmt : Efcp → Pdu → Result Efcp
unfolding common_rcv_control
handle_msg_from_rmt e (data_transfer p) = receive_data e p
handle_msg_from_rmt e (control p) =
    let current = set_dtp e (record e.dtp { current_pdu = some (control p) }) in
    let common = common_rcv_control current p in
    if common.1 then (apply_control p.body common.0 >>= λ a. ok (clear_current a)) else ok common.0
handle_msg_from_rmt e other_pdu = err unexpected_pdu_type

-- `handleSendingRateTimer`: a new time unit begins.
unfoldable pub handle_sending_rate_timer : Efcp → Efcp
handle_sending_rate_timer e =
    set_dtcp e (record e.dtcp { pdus_sent_in_time_unit = 0; sending_rate_fullfilled = false })
