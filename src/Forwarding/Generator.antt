-- ===== src/Forwarding/Generator.antt =====
-- src/policies/DIF/RA/PDUFG/SimpleGenerator/SimpleGenerator.cc: the generator that keeps a
-- MiniTable in step with the distance vector policy.
use Prim.Native.String.{String}
use rinasim.Base.{
  ℕ, Bool, true, false, Option, none, some, List, [], ◌∷◌, Key, string_key, number_key, Map, Set,
  add, discard, lookup, put, erase, at_key, is_empty, length, ◌==◌, if◌then◌else◌,
}
use rinasim.Efcp.Pdu.{Address}
use rinasim.Routing.{EntType, QosPaddr, Entries2Next}
use rinasim.Routing.Distance.{
  SimpleDv, RoutingUpdate, insert_flow, remove_flow, get_changes, process_update,
}
use rinasim.Forwarding.{RmtPort}
use rinasim.Forwarding.MiniTable.{FwdTable, insert, remove}
pub mod InStep
pub mod Inserted

-- The generator with the two policies that it calls.
pub record SimpleGenerator : Type 0 where
  pub neighbours : Map String (Set RmtPort)
  pub fwd : FwdTable
  pub rt : SimpleDv

unfoldable pub first_name : Set String → String
first_name [] = ""
first_name (h ∷ rest) = h

unfoldable pub first_of : Option (Set RmtPort) → Option RmtPort
first_of none = none
first_of (some ports) = elim ports [ [] ↦ none | p ∷ rest ↦ some p ]

-- The port to the next hop of a change.
unfoldable pub port_to : Map String (Set RmtPort) → EntType → Option RmtPort
port_to neighbours et =
    let next_hop = first_name et.nh in
    if string_key.same next_hop "" then none else first_of (lookup next_hop neighbours)

unfoldable pub set_port : String → Option RmtPort → FwdTable → FwdTable
set_port dst none fwd = remove dst fwd
set_port dst (some p) fwd = insert dst p fwd

unfoldable pub apply_changes : Map String (Set RmtPort) → Entries2Next → FwdTable → FwdTable
apply_changes neighbours [] fwd = fwd
apply_changes neighbours ((dst, et) ∷ changes) fwd =
    apply_changes neighbours changes (set_port dst.1 (port_to neighbours et) fwd)

unfoldable pub routing_updated : SimpleGenerator → SimpleGenerator
routing_updated g =
    let taken = get_changes g.rt in
    record g { fwd = apply_changes g.neighbours taken.0 g.fwd; rt = taken.1 }

unfoldable pub inserted_flow : Address → RmtPort → SimpleGenerator → SimpleGenerator
inserted_flow addr port g =
    let dst = addr.ipc_address in
    let ports = add port (at_key [] dst g.neighbours) in
    let h : SimpleGenerator = record g { neighbours = put dst ports g.neighbours } in
    if length ports == 1
    then routing_updated (record h { rt = insert_flow addr dst "" 1 h.rt })
    else h

unfoldable pub removed_flow : Address → RmtPort → SimpleGenerator → SimpleGenerator
removed_flow addr port g =
    let dst = addr.ipc_address in
    let ports = discard port (at_key [] dst g.neighbours) in
    if is_empty ports
    then routing_updated
        (record g { neighbours = erase dst g.neighbours; rt = remove_flow addr dst "" g.rt })
    else record g { neighbours = put dst ports g.neighbours }

-- IntRouting.cc: an update from another process arrives.
unfoldable pub receive_update : RoutingUpdate → SimpleGenerator → SimpleGenerator
receive_update up g =
    let done = process_update up g.rt in
    let h : SimpleGenerator = record g { rt = done.0 } in if done.1 then routing_updated h else h
