-- ===== src/Efcp/Send/Rate.antt =====
-- The loop of `trySendGenPDUs` under rate-based flow control.
use rinasim.Base.{
  ℕ, zero, suc, ◌≤◌, ◌≡◌, refl, List, ◌∷◌, true, false, err, out_of_fuel, arith, sub32,
}
use rinasim.Efcp.Pdu.{DataPdu}
use rinasim.Efcp.State.{Efcp, set_dtcp}
use rinasim.Efcp.Send.{generated, closed_len, rate_round, send_round, paced, send_loop}

-- With rate-based flow control alone, a rate that is used up and a closed window queue with no room,
-- a queued PDU keeps the loop of `trySendGenPDUs` from ending: no round takes it off the queue.
send_loop_hangs :
    (fuel : ℕ) (e : Efcp) (p : DataPdu) (ps : List DataPdu)
    → e.dtp.generated_pdus ≡ p ∷ ps
    → e.dtp.win_based ≡ false
    → e.dtp.rate_based ≡ true
    → e.dtcp.sending_rate ≤ e.dtcp.pdus_sent_in_time_unit
    → sub32 e.dtcp.max_closed_win_que_len 1 ≤ closed_len e
    → send_loop fuel generated e ≡ err out_of_fuel
unfolding send_loop send_round paced rate_round
send_loop_hangs zero e p ps q w r s c = refl
send_loop_hangs (suc fuel) e p ps q w r s c = ground (
  arith,
  send_loop_hangs fuel (set_dtcp e (record e.dtcp { sending_rate_fullfilled = true })) p ps q w r s
      c,
)
