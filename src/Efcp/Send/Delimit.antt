-- ===== src/Efcp/Send/Delimit.antt =====
-- `DTP::delimit` of src/DIF/EFCP/DTP/DTP.cc: what an SDU puts into the data queue.
use rinasim.Base.{ℕ, zero, suc, ◌+◌, ◌*◌, ◌<◌, ◌≤◌, ◌≡◌, refl, ◌++◌, ok, arith, u32_mod, lt→ltb}
use rinasim.Efcp.Sdu.{Sdu, get_size}
use rinasim.Efcp.Sdu.Fragments.{fragment_run, fragments_from_lem, le-mul}
use rinasim.Efcp.State.{Efcp}
use rinasim.Efcp.Send.{delimit}

enough_fuel : (n size total : ℕ) → 0 < size → size < total → n * size < total + size → n < suc total
enough_fuel zero size total p l h = omega arith
enough_fuel (suc m) size total p l h = omega (arith, le-mul m size p)

-- An SDU above the flow's PDU size is cut into the least number of fragments that cover it, each at
-- the next multiple of that size, which join the data queue behind what it holds; the loop ends.
pub delimit_lem :
    (e : Efcp) (s : Sdu) (n : ℕ)
    → 0 < e.dtp.max_flow_pdu_size
    → e.dtp.max_flow_pdu_size < get_size s
    → n * e.dtp.max_flow_pdu_size < get_size s + e.dtp.max_flow_pdu_size
    → get_size s ≤ n * e.dtp.max_flow_pdu_size
    → (n + 1) * e.dtp.max_flow_pdu_size < u32_mod
    → delimit e s
      ≡ ok (record e { data_q = e.data_q ++ fragment_run s e.dtp.max_flow_pdu_size 0 n })
unfolding delimit
delimit_lem e s n p large below cover small =
    rw (lt→ltb e.dtp.max_flow_pdu_size (get_size s) large) (
      rw
        (fragments_from_lem (suc (get_size s)) n 0 s e.dtp.max_flow_pdu_size
          (enough_fuel n e.dtp.max_flow_pdu_size (get_size s) p large below) p (λ _. omega arith)
          (omega arith) (omega arith))
        refl)
