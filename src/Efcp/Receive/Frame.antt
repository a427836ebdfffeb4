-- ===== src/Efcp/Receive/Frame.antt =====
-- What the updates of the receiver leave alone.
use rinasim.Base.{
  ℕ, ◌≡◌, refl, Bool, true, false, not, arith, ◌∙◌, ◌==◌, if◌then◌else◌, ◌&&◌, sub32,
}
use rinasim.Efcp.State.{Efcp, set_dtp, is_fc_present}
use rinasim.Efcp.Output.{send_ack_flow_pdu, send_fc_only_pdu}
use rinasim.Efcp.Reassembly.{update_rcv_lwe}
use rinasim.Efcp.Receive.{rcvr_fc, rcvr_ack, receiving_fc, sv_update}

-- What the updates between two insertions leave alone.
pub record Same (e a : Efcp) : Type 0 where
  pub queue : a.dtp.reassembly_pduq ≡ e.dtp.reassembly_pduq
  pub largest : a.dtp.max_seq_num_rcvd ≡ e.dtp.max_seq_num_rcvd
  pub cube : a.dtp.qos_cube ≡ e.dtp.qos_cube
  pub north : a.north ≡ e.north

pub Same-trans : (e a b : Efcp) → Same e a → Same a b → Same e b
Same-trans e a b h k = record {
  queue = k.queue ∙ h.queue;
  largest = k.largest ∙ h.largest;
  cube = k.cube ∙ h.cube;
  north = k.north ∙ h.north;
}

pub send_ack_flow-Same : (e : Efcp) (n : ℕ) (v : Bool) → Same e (send_ack_flow_pdu e n v)
unfolding send_ack_flow_pdu
send_ack_flow-Same e n v = ground arith

send_fc_only-Same : (e : Efcp) → Same e (send_fc_only_pdu e)
unfolding send_fc_only_pdu
send_fc_only-Same e = ground arith

update_edge-Same : (e : Efcp) (n : ℕ) → Same e (set_dtp e (update_rcv_lwe e.dtp n))
unfolding update_rcv_lwe
update_edge-Same e n = ground arith

rcvr_fc-Same : (e : Efcp) → Same e (rcvr_fc e)
unfolding rcvr_fc
rcvr_fc-Same e = ground arith

pub either-Same : (b : Bool) (e x y : Efcp) → Same e x → Same e y → Same e (if b then x else y)
either-Same true e x y h k = h
either-Same false e x y h k = k

pub Same-refl : (e : Efcp) → Same e e
Same-refl e = record { queue = refl; largest = refl; cube = refl; north = refl }

pub if-Same : (b : Bool) (e a : Efcp) → Same e a → Same e (if b then a else e)
if-Same b e a h = either-Same b e a e h (Same-refl e)

rcvr_ack-Same : (e : Efcp) → Same e (rcvr_ack e)
unfolding rcvr_ack
rcvr_ack-Same e =
    let n = if e.dtp.rcv_left_win_edge == 0 then 0 else sub32 e.dtp.rcv_left_win_edge 1 in
    let moved = set_dtp e (update_rcv_lwe e.dtp n) in
    either-Same e.dtcp.immediate e _ _
      (Same-trans e moved _ (update_edge-Same e n) (send_ack_flow-Same moved n true))
      (record { queue = refl; largest = refl; cube = refl; north = refl })

receiving_fc-Same : (e : Efcp) → Same e (receiving_fc e)
unfolding receiving_fc
receiving_fc-Same e = ground (arith, send_fc_only-Same e)

pub sv_update-Same : (e : Efcp) (n : ℕ) → Same e (sv_update e n)
unfolding sv_update
sv_update-Same e n =
    let moved = set_dtp e (update_rcv_lwe e.dtp n) in
    let fc = is_fc_present moved.dtp && moved.dtp.win_based in
    let credited = if fc then rcvr_fc moved else moved in
    let acked = if credited.dtp.rx_present then rcvr_ack credited else credited in
    let plain = is_fc_present acked.dtp && not acked.dtp.rx_present in
    Same-trans e moved _ (update_edge-Same e n) (
      Same-trans moved credited _ (if-Same fc moved (rcvr_fc moved) (rcvr_fc-Same moved)) (
        Same-trans credited acked _
          (if-Same credited.dtp.rx_present credited (rcvr_ack credited) (rcvr_ack-Same credited))
          (if-Same plain acked (receiving_fc acked) (receiving_fc-Same acked))))
