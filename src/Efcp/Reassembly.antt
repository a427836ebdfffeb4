-- ===== src/Efcp/Reassembly.antt =====
-- The receiver's reassembly queue: `addPDUToReassemblyQ` and `updateRcvLWE` of
-- src/DIF/EFCP/DTP/DTPState.cc, `isDuplicate` and `delimitFromRMT` of src/DIF/EFCP/DTP/DTP.cc.
pub mod Order
pub mod Edge
pub mod Delivery
use rinasim.Base.{
  ℕ, zero, suc, ◌+◌, ◌==◌, List, [], ◌∷◌, ◌++◌, Bool, true, false, not, ◌&&◌, ◌||◌, ltb, leb,
  if◌then◌else◌, Result, ok, err, same_seq_num, out_of_fuel, ◌>>=◌, is_empty, u32, length,
}
use rinasim.Efcp.Sdu.{Sdu, sdu_no_length}
use rinasim.Efcp.Pdu.{DataPdu, has_flag}
use rinasim.Efcp.State.{DtpState, Efcp, set_dtp}

-- The `for` of `addPDUToReassemblyQ`, over a queue that is not empty.
unfoldable pub insert_loop : List DataPdu → DataPdu → Result (List DataPdu)
insert_loop [] p = ok []
insert_loop (x ∷ rest) p =
    let later = insert_loop rest p >>= λ tail. ok (x ∷ tail) in
    if x.seq_num == p.seq_num
    then err same_seq_num
    else if ltb p.seq_num x.seq_num
    then ok (p ∷ x ∷ rest)
    else if is_empty rest
    then ok (x ∷ p ∷ [])
    else later

unfoldable pub add_to_queue : List DataPdu → DataPdu → Result (List DataPdu)
unfolding insert_loop
add_to_queue [] p = ok (p ∷ [])
add_to_queue (x ∷ rest) p =
    if ltb p.seq_num x.seq_num then ok (p ∷ x ∷ rest) else insert_loop (x ∷ rest) p

unfoldable pub add_pdu_to_reassembly_q : DtpState → DataPdu → Result DtpState
add_pdu_to_reassembly_q s p = do
  q ← add_to_queue s.reassembly_pduq p
  ok (record s { reassembly_pduq = q })

-- `isDuplicate`.
unfoldable pub is_duplicate : List DataPdu → ℕ → Bool
is_duplicate [] n = false
is_duplicate (p ∷ ps) n = p.seq_num == n || is_duplicate ps n

-- The left window edge after the loop of `updateRcvLWE`: `limit` is the number of the last delivered
-- SDU plus the allowed gap, `alone` says that the PDU at hand is the queue's first or only one.
unfoldable pub advance_edge : ℕ → Bool → List DataPdu → ℕ → ℕ
advance_edge limit alone [] lwe = lwe
advance_edge limit alone (p ∷ ps) lwe =
    let rest = advance_edge limit false ps (if p.seq_num == lwe then u32 (lwe + 1) else lwe) in
    if ltb lwe p.seq_num
    then if alone && leb p.user_data_field.sdu_seq_num limit then p.seq_num else lwe
    else rest

unfoldable pub update_rcv_lwe : DtpState → ℕ → DtpState
update_rcv_lwe s n = record s {
  rcv_left_win_edge =
      if s.dtcp_present
      then advance_edge (u32 (s.last_sdu_delivered + s.qos_cube.max_allow_gap)) true
          s.reassembly_pduq s.rcv_left_win_edge
      else if ltb s.rcv_left_win_edge n
      then n
      else s.rcv_left_win_edge;
}

-- `while ((sdu = userData->getData()) != NULL)`: each SDU goes north.
unfoldable pub deliver : List Sdu → Efcp → Efcp
deliver [] e = e
deliver (s ∷ ss) e =
    deliver ss (record (set_dtp e (record e.dtp { last_sdu_delivered = s.seq_num })) {
      north = e.north ++ s ∷ [];
    })

set_reassembly : Efcp → List DataPdu → Efcp
set_reassembly e q = set_dtp e (record e.dtp { reassembly_pduq = q })

-- Whether the first PDU has to wait for the left window edge.
unfoldable pub must_wait : Efcp → DataPdu → Bool
must_wait e p = e.dtp.qos_cube.force_order && not (ltb p.seq_num e.dtp.rcv_left_win_edge)

-- The loop of `delimitFromRMT` on the PDUs still queued. A PDU whose flags have the bit of
-- `SDU_NO_LENGTH` is neither passed over nor erased, so the code meets it again and again.
unfoldable pub delimit_loop : ℕ → List DataPdu → Efcp → Result Efcp
unfolding set_reassembly must_wait deliver
delimit_loop zero q e = err out_of_fuel
delimit_loop (suc fuel) [] e = ok (set_reassembly e [])
delimit_loop (suc fuel) (p ∷ ps) e = elim (must_wait e p) [
  | true ↦ ok (set_reassembly e (p ∷ ps))
  | false ↦ elim (has_flag p.user_data_field.sdu_delimit_flags sdu_no_length) [
    | true ↦ delimit_loop fuel (p ∷ ps) e
    | false ↦ delimit_loop fuel ps (deliver p.user_data_field.pdu_data e)
  ]
]

unfoldable pub delimit_from_rmt : Efcp → Result Efcp
unfolding delimit_loop
delimit_from_rmt e = delimit_loop (suc (length e.dtp.reassembly_pduq)) e.dtp.reassembly_pduq e
