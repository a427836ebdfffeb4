-- ===== src/Efcp/Control/Wrap.antt =====
-- The acknowledgement of a receiver whose left window edge is still 0.
use rinasim.Base.{
  ℕ, ◌<◌, ◌≡◌, refl, List, [], ◌∷◌, false, ok, All, arith, u32, u32_mod, sub32, keep, not,
}
use rinasim.Efcp.State.{Efcp, RxTimer}
use rinasim.Efcp.Output.{ack_number}
use rinasim.Efcp.Retransmit.{acks, ack_pdu}
use rinasim.Efcp.Retransmit.Acks.{ack_pdu_lem}

nothing_left :
    (ts : List RxTimer)
    → All (λ t. t.timer_pdu.seq_num < u32_mod) ts
    → keep (λ t. not (acks 0 4294967295 0 t)) ts ≡ []
unfolding acks u32
nothing_left [] h = refl
nothing_left (t ∷ ts) h = ground (arith, nothing_left ts h.1)

-- A receiver at left window edge 0 acknowledges the largest number of all when its caller names none,
-- and that acknowledgement empties the retransmission queue of a sender with no allowed gap, whatever
-- the receiver has.
ack_number_wraps :
    (receiver sender : Efcp)
    → receiver.dtp.rcv_left_win_edge ≡ 0
    → sender.dtp.qos_cube.max_allow_gap ≡ 0
    → All (λ t. t.timer_pdu.seq_num < u32_mod) sender.dtcp.rxq
    → (a : Efcp) × (ack_pdu sender (ack_number receiver 0 false) 0 ≡ ok a) × (a.dtcp.rxq ≡ [])
unfolding ack_number sub32
ack_number_wraps receiver sender z g s =
    let n : ack_number receiver 0 false ≡ 4294967295 = ground (arith, z) in
    let f = λ (n gap : ℕ). keep (λ t. not (acks gap n 0 t)) sender.dtcp.rxq in
    (
      record sender {
        dtcp = record sender.dtcp { rxq = f 4294967295 sender.dtp.qos_cube.max_allow_gap };
      },
      rw n (ack_pdu_lem sender 4294967295 0),
      rw g (nothing_left sender.dtcp.rxq s),
    )
