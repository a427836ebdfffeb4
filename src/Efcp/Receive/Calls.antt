-- ===== src/Efcp/Receive/Calls.antt =====
-- The entry points of the receiver: `handleMsgFromRMT` on data transfer PDUs and `handleDTPATimer` of
-- src/DIF/EFCP/DTP/DTP.cc.
use rinasim.Base.{ℕ, refl, Result, ok, ◌>>=◌, if◌then◌else◌, some, ltb}
use rinasim.Efcp.Pdu.{DataPdu, data_transfer}
use rinasim.Efcp.State.{Efcp, set_dtp, add_timer_op, cancel, rcvr_inactivity}
use rinasim.Efcp.Reassembly.{update_rcv_lwe, delimit_from_rmt}
use rinasim.Efcp.Receive.{handle_data_transfer_pdu, handle_a_timer, receive_data, set_edge}
use rinasim.Efcp.Receive.Frame.{Same, either-Same}
use rinasim.Efcp.Receive.Invariant.{IsOrderly, Settles, delimit-Settles, Same-IsOrderly}
use rinasim.Efcp.Receive.Branches.{IsSound, handle_data_transfer_pdu-Settles}

then-Settles :
    (r : Result Efcp) (f : Efcp → Efcp)
    → Settles r
    → ((a : Efcp) → Same a (f a))
    → Settles (r >>= λ a. ok (f a))
then-Settles r f s h = record {
  after = f s.after;
  returned = rw s.returned refl;
  orderly = Same-IsOrderly s.after (f s.after) (h s.after) s.orderly;
}

-- From a state whose reassembly queue is in order, a whole call on a data transfer PDU returns with the
-- queue in order again, if the number is not the last of its type and the field has lengths.
pub receive_data-Settles :
    (e : Efcp) (p : DataPdu) → IsOrderly e → IsSound p → Settles (receive_data e p)
unfolding receive_data
receive_data-Settles e p o s =
    let current =
      add_timer_op (set_dtp e (record e.dtp { current_pdu = some (data_transfer p) }))
        (cancel rcvr_inactivity) in
    let o' =
      Same-IsOrderly e current (record { queue = refl; largest = refl; cube = refl; north = refl })
        o in
    then-Settles (handle_data_transfer_pdu current p) _
      (handle_data_transfer_pdu-Settles current p o' s)
      (λ a. record { queue = refl; largest = refl; cube = refl; north = refl })

-- From a state whose reassembly queue is in order, the handler of the A timer returns with the queue in
-- order again, whatever number the timer stands for.
pub handle_a_timer-Settles : (e : Efcp) (n : ℕ) → IsOrderly e → Settles (handle_a_timer e n)
unfolding handle_a_timer update_rcv_lwe
handle_a_timer-Settles e n o =
    let edge = if ltb n e.dtp.rcv_left_win_edge then e.dtp.rcv_left_win_edge else n in
    let moved =
      if e.dtp.dtcp_present then set_dtp e (update_rcv_lwe e.dtp n) else set_edge e edge in
    let o' =
      Same-IsOrderly e moved
        (either-Same e.dtp.dtcp_present e _ _
          (record { queue = refl; largest = refl; cube = refl; north = refl })
          (record { queue = refl; largest = refl; cube = refl; north = refl }))
        o in
    then-Settles (delimit_from_rmt moved) _ (delimit-Settles moved o')
      (λ a. record { queue = refl; largest = refl; cube = refl; north = refl })
