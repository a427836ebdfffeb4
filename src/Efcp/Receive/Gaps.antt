-- ===== src/Efcp/Receive/Gaps.antt =====
-- What becomes of a PDU that is missing.
use rinasim.Base.{◌+◌, ◌<◌, ◌≤◌, ◌≡◌, false, ok, arith, u32_mod, u32_small}
use rinasim.Efcp.Pdu.{DataPdu, has_flag, drf_flag}
use rinasim.Efcp.State.{Efcp}
use rinasim.Efcp.Receive.{ecn_policy, handle_data_transfer_pdu}

-- A PDU without the DRF flag whose number is the left window edge, while the largest number received is
-- not below the edge nor the last of its type: it is deleted, and but for the ECN flag the state stays,
-- so the edge does not move and no acknowledgement goes out.
pub missing_pdu_dropped :
    (e : Efcp) (p : DataPdu)
    → has_flag p.flags drf_flag ≡ false
    → p.seq_num ≡ e.dtp.rcv_left_win_edge
    → e.dtp.rcv_left_win_edge ≤ e.dtp.max_seq_num_rcvd
    → e.dtp.max_seq_num_rcvd + 1 < u32_mod
    → handle_data_transfer_pdu e p ≡ ok (ecn_policy e p)
unfolding handle_data_transfer_pdu
missing_pdu_dropped e p f n m b = ground (arith, u32_small (e.dtp.max_seq_num_rcvd + 1) b)
