-- ===== src/Rmt/Relay/Gates.antt =====
-- The gates of src/DIF/RMT/RMT.cc after a PDU that came too early.
use rinasim.Base.{ℕ, true, none, some, ◌≡◌, arith, number_key, lookup, lookup-put, err, no_gate}
use rinasim.Rmt.Relay.{
  RelayPdu, pdu, Arrival, from_queue, from_efcpi, Rmt, Policies, send, push_invalid, gate_of,
  touch_gate, pass_to, relay_pdu_to_efcpi, process_pdu, process_message, create_efcpi_gate,
  delete_efcpi_gate,
}

missed :
    (p : RelayPdu) (r : Rmt)
    → lookup p.dst_cep_id r.efcpi_out ≡ none
    → lookup p.dst_cep_id (relay_pdu_to_efcpi p r).efcpi_out ≡ some none
unfolding relay_pdu_to_efcpi pass_to touch_gate send push_invalid gate_of
missed p r h = ground (arith, h, lookup-put p.dst_cep_id p.dst_cep_id none r.efcpi_out)

-- A PDU for this process whose EFCP instance has no gate yet leaves a null entry behind: from then
-- on the instance's gate is not made, and its deletion throws.
pub create_efcpi_gate-process_message :
    (env : Policies) (a : Arrival) (p : RelayPdu) (gate : ℕ) (r : Rmt)
    → lookup p.dst_cep_id r.efcpi_out ≡ none
    → env.matches_this_ipc p.dst_addr ≡ true
    → let s = process_message env a (pdu p) r in
      (create_efcpi_gate p.dst_cep_id gate s ≡ s) × (delete_efcpi_gate p.dst_cep_id s ≡ err no_gate)
unfolding process_message process_pdu create_efcpi_gate delete_efcpi_gate
create_efcpi_gate-process_message env from_queue p gate r h m = ground (arith, m, missed p r h)
create_efcpi_gate-process_message env from_efcpi p gate r h m = ground (arith, m, missed p r h)
