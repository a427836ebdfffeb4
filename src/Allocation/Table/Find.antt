-- ===== src/Allocation/Table/Find.antt =====
-- src/DIF/FA/FAITable.cc: the searches of the table, but for those by a flow and by an instance.
use Prim.Native.String.{String}
use rinasim.Base.{ℕ, ◌==◌, Bool, ◌&&◌, if◌then◌else◌, Option, none, List, keep, string_key}
use rinasim.Efcp.Pdu.{Address}
use rinasim.Routing.{address_key}
use rinasim.Allocation.{FlowObject, get_apname, is_management_flow_local_to_ipcp}
use rinasim.Allocation.Table.{
  FaiTableEntry, Fa, find_entry, same_status, alloc_pend, forwarding, forwarded,
}

unfoldable pub find_entry_by_invoke_id : ℕ → Fa → Option FaiTableEntry
find_entry_by_invoke_id inv s =
    if inv == 0
    then none
    else find_entry (λ (e : FaiTableEntry). (s.flows e.flow).alloc_invoke_id == inv) s.fai_table

unfoldable pub find_entry_by_apns : String → String → Fa → Option FaiTableEntry
find_entry_by_apns src dst s =
    find_entry
      (λ (e : FaiTableEntry).
        string_key.same (s.flows e.flow).src_apni.ap_name src
        && string_key.same (s.flows e.flow).dst_apni.ap_name dst
        && same_status e.alloc_status forwarded)
      s.fai_table

unfoldable pub find_entry_by_dst_address_and_fwd : String → Fa → Option FaiTableEntry
find_entry_by_dst_address_and_fwd apn s =
    find_entry
      (λ (e : FaiTableEntry).
        string_key.same (get_apname (s.flows e.flow).dst_addr) apn
        && same_status e.alloc_status forwarded)
      s.fai_table

unfoldable pub find_entry_by_src_address_and_fwd : String → Fa → Option FaiTableEntry
find_entry_by_src_address_and_fwd apn s =
    find_entry
      (λ (e : FaiTableEntry).
        string_key.same (s.flows e.flow).src_addr.ipc_address apn
        && same_status e.alloc_status forwarded)
      s.fai_table

unfoldable pub find_entries_by_dst_neighbor_and_fwd : String → Fa → List FaiTableEntry
find_entries_by_dst_neighbor_and_fwd apn s =
    keep
      (λ (e : FaiTableEntry).
        string_key.same (get_apname (s.flows e.flow).dst_neighbor) apn
        && same_status e.alloc_status forwarding)
      s.fai_table

unfoldable pub find_entries_affected_by_mgmt : FlowObject → Fa → List FaiTableEntry
find_entries_affected_by_mgmt f s =
    keep
      (λ (e : FaiTableEntry).
        string_key.same (get_apname (s.flows e.flow).src_addr) f.src_apni.ap_name
        && string_key.same (get_apname (s.flows e.flow).dst_addr) f.dst_apni.ap_name
        && same_status e.alloc_status alloc_pend)
      s.fai_table

unfoldable pub is_mgmt_entry : Fa → FaiTableEntry → Bool
is_mgmt_entry s e = is_management_flow_local_to_ipcp (s.flows e.flow)

unfoldable pub find_mgmt_entry : Fa → Option FaiTableEntry
find_mgmt_entry s = find_entry (is_mgmt_entry s) s.fai_table

unfoldable pub find_mgmt_entry_by_dst_addr : Address → Fa → Option FaiTableEntry
find_mgmt_entry_by_dst_addr a s =
    find_entry
      (λ (e : FaiTableEntry). address_key.same (s.flows e.flow).dst_addr a && is_mgmt_entry s e)
      s.fai_table

unfoldable pub find_mgmt_entry_by_dst_neighbor : Address → Fa → Option FaiTableEntry
find_mgmt_entry_by_dst_neighbor a s =
    find_entry
      (λ (e : FaiTableEntry). address_key.same (s.flows e.flow).dst_neighbor a && is_mgmt_entry s e)
      s.fai_table

unfoldable pub find_mgmt_entry_by_dst_apni : String → Fa → Option FaiTableEntry
find_mgmt_entry_by_dst_apni apn s =
    find_entry
      (λ (e : FaiTableEntry).
        string_key.same (s.flows e.flow).dst_apni.ap_name apn && is_mgmt_entry s e)
      s.fai_table
