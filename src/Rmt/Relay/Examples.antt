-- ===== src/Rmt/Relay/Examples.antt =====
-- The theorems on relaying at a module with one gate and one port.
use rinasim.Base.{
  true, false, some, [], ◌∷◌, ◌≡◌, refl, string_key, ◌==◌, err, no_gate, number_key, lookup,
}
use rinasim.Rmt.Relay.{
  RelayPdu, pdu, from_queue, Rmt, Policies, process_message, create_efcpi_gate, delete_efcpi_gate,
}
use rinasim.Rmt.Relay.Gates.{create_efcpi_gate-process_message}

abbrev env : Policies
env = record {
  lookup_ports = λ p. 4 ∷ [];
  interface_port = 1;
  matches_this_ipc = λ a. string_key.same a.ipc_address "here";
  output_queue_id = λ p. p.qos_id;
  has_output_queue = λ port id. port == 4;
}

abbrev rmt : Rmt
rmt = record {
  relay_on = true;
  on_wire = false;
  efcpi_out = (0, some 9) ∷ [];
  invalid_pdus = [];
  sent = [];
  no_conn_id = [];
}

abbrev for_three : RelayPdu
for_three = record {
  dst_addr = record { ipc_address = "here"; dif_name = "net" };
  qos_id = "gold";
  dst_cep_id = 3;
}

abbrev for_far : RelayPdu
for_far = record {
  dst_addr = record { ipc_address = "far"; dif_name = "net" };
  qos_id = "gold";
  dst_cep_id = 3;
}

create_efcpi_gate-process_message_example :
    (create_efcpi_gate 3 5 (process_message env from_queue (pdu for_three) rmt)
      ≡ process_message env from_queue (pdu for_three) rmt)
    × (delete_efcpi_gate 3 (process_message env from_queue (pdu for_three) rmt) ≡ err no_gate)
unfolding lookup
create_efcpi_gate-process_message_example =
    create_efcpi_gate-process_message env from_queue for_three 5 rmt refl refl
