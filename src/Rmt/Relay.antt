-- ===== src/Rmt/Relay.antt =====
-- src/DIF/RMT/RMT.cc: the gates to the EFCP instances, and what becomes of a message that arrives.
use Prim.Native.String.{String}
use rinasim.Base.{
  ℕ, Bool, true, false, Option, none, some, List, [], ◌∷◌, ◌++◌, Key, number_key, Map, lookup, put,
  erase, is_empty, if◌then◌else◌, Result, ok, err, no_gate,
}
use rinasim.Efcp.Pdu.{Address}
mod Delivery
mod Gates
mod Examples

pub record RelayPdu : Type 0 where
  pub dst_addr : Address
  pub qos_id : String
  pub dst_cep_id : ℕ

pub data Message : Type 0 where
  pdu : RelayPdu → Message
  other : ℕ → Message

-- Where a message came in.
pub data Arrival : Type 0 where
  from_queue from_efcpi : Arrival

-- What leaves the module: to the gate of an EFCP instance, or to a queue of a port.
pub data Sent : Type 0 where
  to_efcpi : ℕ → RelayPdu → Sent
  to_queue : ℕ → String → RelayPdu → Sent

-- A gate is a number; the map holds none where the code holds a null pointer.
pub record Rmt : Type 0 where
  pub relay_on : Bool
  pub on_wire : Bool
  pub efcpi_out : Map ℕ (Option ℕ)
  pub invalid_pdus : List Message
  pub sent : List Sent
  pub no_conn_id : List RelayPdu

-- The policies and the ports, which the module asks. A forwarding table answers with at most one
-- port, so a PDU is sent once.
pub record Policies : Type 0 where
  pub lookup_ports : RelayPdu → List ℕ
  pub interface_port : ℕ
  pub matches_this_ipc : Address → Bool
  pub output_queue_id : RelayPdu → String
  pub has_output_queue : ℕ → String → Bool

unfoldable pub send : Sent → Rmt → Rmt
send x r = record r { sent = r.sent ++ (x ∷ []) }

unfoldable pub push_invalid : Message → Rmt → Rmt
push_invalid m r = record r { invalid_pdus = r.invalid_pdus ++ (m ∷ []) }

unfoldable pub fw_table_lookup : Policies → RelayPdu → Rmt → List ℕ
fw_table_lookup env p r = if r.on_wire then env.interface_port ∷ [] else env.lookup_ports p

unfoldable pub send_to_port : Policies → RelayPdu → ℕ → Rmt → Rmt
send_to_port env p port r =
    let id = env.output_queue_id p in
    if env.has_output_queue port id then send (to_queue port id p) r else r

-- Every port gets the same PDU object: the code makes no copy of it.
unfoldable pub send_to_ports : Policies → RelayPdu → List ℕ → Rmt → Rmt
send_to_ports env p [] r = r
send_to_ports env p (port ∷ ports) r = send_to_ports env p ports (send_to_port env p port r)

unfoldable pub relay_pdu_to_port : Policies → RelayPdu → Rmt → Rmt
relay_pdu_to_port env p r =
    let out_ports = fw_table_lookup env p r in
    let s = if is_empty out_ports then push_invalid (pdu p) r else r in
    send_to_ports env p out_ports s

-- `efcpiOut[cepId]`: where there is no entry, one with a null pointer is made.
unfoldable pub gate_of : Option (Option ℕ) → Option ℕ
gate_of none = none
gate_of (some g) = g

unfoldable pub touch_gate : ℕ → Rmt → Rmt
touch_gate cep r = record r { efcpi_out = put cep (gate_of (lookup cep r.efcpi_out)) r.efcpi_out }

unfoldable pub pass_to : Option ℕ → RelayPdu → Rmt → Rmt
pass_to none p r = push_invalid (pdu p) (record r { no_conn_id = r.no_conn_id ++ (p ∷ []) })
pass_to (some gate) p r = send (to_efcpi gate p) r

unfoldable pub relay_pdu_to_efcpi : RelayPdu → Rmt → Rmt
relay_pdu_to_efcpi p r =
    pass_to (gate_of (lookup p.dst_cep_id r.efcpi_out)) p (touch_gate p.dst_cep_id r)

unfoldable pub process_pdu : Policies → Arrival → RelayPdu → Rmt → Rmt
process_pdu env from_queue p r =
    if env.matches_this_ipc p.dst_addr
    then relay_pdu_to_efcpi p r
    else if r.relay_on
    then relay_pdu_to_port env p r
    else r
process_pdu env from_efcpi p r =
    if env.matches_this_ipc p.dst_addr then relay_pdu_to_efcpi p r else relay_pdu_to_port env p r

unfoldable pub process_message : Policies → Arrival → Message → Rmt → Rmt
process_message env a (pdu p) r = process_pdu env a p r
process_message env a (other m) r = push_invalid (other m) r

-- A message that the module has sent to itself is not processed.
unfoldable pub handle_message : Policies → Bool → Arrival → Message → Rmt → Rmt
handle_message env is_self a m r = if is_self then push_invalid m r else process_message env a m r

unfoldable pub enable_relay : Rmt → Rmt
enable_relay r = record r { relay_on = true }

unfoldable pub disable_relay : Rmt → Rmt
disable_relay r = record r { relay_on = false }

-- A new EFCP instance; `gate` is the gate that the simulator makes.
unfoldable pub create_efcpi_gate : ℕ → ℕ → Rmt → Rmt
create_efcpi_gate cep gate r = elim (lookup cep r.efcpi_out) [
  | none ↦ record r { efcpi_out = put cep (some gate) r.efcpi_out }
  | some g ↦ r
]

-- The simulator throws where the module has no gate of that name.
unfoldable pub delete_efcpi_gate : ℕ → Rmt → Result Rmt
delete_efcpi_gate cep r = elim (lookup cep r.efcpi_out) [
  | none ↦ ok r
  | some g ↦ elim g [
    | none ↦ err no_gate
    | some x ↦ ok (record r { efcpi_out = erase cep r.efcpi_out })
  ]
]
