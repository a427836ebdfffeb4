-- ===== src/Efcp/Control/Sequence.antt =====
-- `commonRcvControl` of src/DIF/EFCP/DTP/DTP.cc: the sequence numbers of control PDUs.
use rinasim.Base.{◌+◌, ◌≡◌, if◌then◌else◌, ltb, ◌&&◌, arith, length, length-append, u32}
use rinasim.Efcp.Pdu.{ControlPdu}
use rinasim.Efcp.State.{Efcp}
use rinasim.Efcp.Output.{
  send_empty_dt_pdu, send_control_ack_pdu, push_back_to_rxq, take_seq_num, next_data_pdu,
}
use rinasim.Efcp.Control.{lost_control_pdu, count_duplicate, common_rcv_control}

module _ (e : Efcp) (p : ControlPdu) where
  passes : (common_rcv_control e p).1 ≡ ltb e.dtcp.last_control_seq_num_rcv p.ctrl_seq_num
  unfolding common_rcv_control lost_control_pdu count_duplicate
  passes = ground arith

  last_number : (common_rcv_control e p).0.dtcp.last_control_seq_num_rcv ≡ (
      if ltb e.dtcp.last_control_seq_num_rcv p.ctrl_seq_num
      then p.ctrl_seq_num
      else e.dtcp.last_control_seq_num_rcv)
  unfolding common_rcv_control lost_control_pdu count_duplicate
  last_number = ground arith

  lost_sends : length (lost_control_pdu e p.ctrl_seq_num).south ≡ length e.south + 2
  unfolding lost_control_pdu send_control_ack_pdu send_empty_dt_pdu push_back_to_rxq take_seq_num
      next_data_pdu
  lost_sends = grind (arith, length-append)

  sends :
      length (common_rcv_control e p).0.south
      ≡ length e.south
        + (if ltb e.dtcp.last_control_seq_num_rcv p.ctrl_seq_num
              && ltb (u32 (e.dtcp.last_control_seq_num_rcv + 1)) p.ctrl_seq_num
            then 2
            else 0)
  unfolding common_rcv_control count_duplicate
  sends = ground (arith, lost_sends)

-- A control PDU is passed on exactly when its number is above the last one received, and that number
-- then becomes the last, in order or not; a duplicate leaves the last number. Exactly when the number
-- skips one, two PDUs are sent.
pub common_rcv_control_lem :
    (e : Efcp) (p : ControlPdu)
    → let last = e.dtcp.last_control_seq_num_rcv in
      let next = common_rcv_control e p in
      (next.1 ≡ ltb last p.ctrl_seq_num)
      × (next.0.dtcp.last_control_seq_num_rcv ≡ (if next.1 then p.ctrl_seq_num else last))
      × (length next.0.south
          ≡ length e.south + (if next.1 && ltb (u32 (last + 1)) p.ctrl_seq_num then 2 else 0))
common_rcv_control_lem e p =
    (passes e p, rw (passes e p) (last_number e p), rw (passes e p) (sends e p))
