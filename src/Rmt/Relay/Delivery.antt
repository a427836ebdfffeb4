-- ===== src/Rmt/Relay/Delivery.antt =====
-- Where a PDU goes that arrives at src/DIF/RMT/RMT.cc.
use rinasim.Base.{
  ℕ, Bool, true, false, Option, none, some, List, [], ◌∷◌, number_key, lookup, is_empty,
  if◌then◌else◌,
}
use rinasim.Rmt.Relay.{
  RelayPdu, Message, pdu, Arrival, from_queue, from_efcpi, Sent, to_efcpi, to_queue, Rmt, Policies,
  fw_table_lookup, gate_of,
}

-- The ports of a lookup that the PDU is sent to: those that have the queue.
unfoldable pub port_sends : Policies → RelayPdu → List ℕ → List Sent
port_sends env p [] = []
port_sends env p (port ∷ ports) =
    let rest = port_sends env p ports in
    let id = env.output_queue_id p in
    if env.has_output_queue port id then to_queue port id p ∷ rest else rest

unfoldable pub to_gate : Option ℕ → RelayPdu → List Sent
to_gate none p = []
to_gate (some gate) p = to_efcpi gate p ∷ []

-- A PDU for another process is relayed unless it comes from a port and relaying is off.
unfoldable pub may_relay : Arrival → Rmt → Bool
may_relay from_queue r = r.relay_on
may_relay from_efcpi r = true

unfoldable pub deliveries : Policies → Arrival → RelayPdu → Rmt → List Sent
deliveries env a p r =
    if env.matches_this_ipc p.dst_addr
    then to_gate (gate_of (lookup p.dst_cep_id r.efcpi_out)) p
    else if may_relay a r
    then port_sends env p (fw_table_lookup env p r)
    else []

unfoldable pub no_gate_for : Option ℕ → Bool
no_gate_for none = true
no_gate_for (some g) = false

-- A PDU is refused where its EFCP instance has no gate, or the lookup finds no port.
unfoldable pub refusals : Policies → Arrival → RelayPdu → Rmt → List Message
refusals env a p r =
    if env.matches_this_ipc p.dst_addr
    then if no_gate_for (gate_of (lookup p.dst_cep_id r.efcpi_out)) then pdu p ∷ [] else []
    else if may_relay a r
    then if is_empty (fw_table_lookup env p r) then pdu p ∷ [] else []
    else []
