-- ===== src/Allocation.antt =====
-- src/Common/Flow.cc and ConnectionId.cc, and src/DIF/FA: the flow allocator, its table and its
-- instances. Here the flow that all of them share.
use Prim.Native.String.{String}
use rinasim.Base.{ℕ, ◌==◌, Bool, true, false, ◌&&◌, if◌then◌else◌, string_key, same_refl}
use rinasim.Efcp.Pdu.{Address, ConnectionId}
use rinasim.Enrollment.{Naming, apname}
use rinasim.Routing.{address_key}
pub mod Mirror
pub mod Table
pub mod Instance
pub mod Addresses
pub mod Allocator
pub mod Listeners
pub mod Ribd
pub mod Own
pub mod Accept
mod Examples

-- `VAL_UNDEF_PORTID` and `VAL_UNDEF_CEPID`: the word of the int -1.
abbrev pub undef_id : ℕ
undef_id = 4294967295

-- A `Flow`. Of its QoS requirements stands here only what the allocator asks: whether they compare
-- with those of management, `isManagementFlow`.
pub record FlowObject : Type 0 where
  pub src_apni : Naming
  pub dst_apni : Naming
  pub src_port_id : ℕ
  pub dst_port_id : ℕ
  pub src_addr : Address
  pub dst_addr : Address
  pub src_neighbor : Address
  pub dst_neighbor : Address
  pub con_id : ConnectionId
  pub create_flow_retries : ℕ
  pub max_create_flow_retries : ℕ
  pub hop_count : ℕ
  pub alloc_invoke_id : ℕ
  pub dealloc_invoke_id : ℕ
  pub ddt_flag : Bool
  pub is_management_flow : Bool

unfoldable pub same_naming : Naming → Naming → Bool
same_naming a b =
    string_key.same a.ap_name b.ap_name
    && string_key.same a.ap_inst b.ap_inst
    && string_key.same a.ae_name b.ae_name
    && string_key.same a.ae_inst b.ae_inst

unfoldable pub same_con_id : ConnectionId → ConnectionId → Bool
same_con_id a b =
    string_key.same a.qos_id b.qos_id
    && (a.dst_cep_id == b.dst_cep_id)
    && (a.src_cep_id == b.src_cep_id)

unfoldable pub same_bool : Bool → Bool → Bool
same_bool true b = b
same_bool false true = false
same_bool false false = true

-- `Flow::compare`.
unfoldable pub compare : FlowObject → FlowObject → Bool
compare a b =
    same_naming a.src_apni b.src_apni
    && same_naming a.dst_apni b.dst_apni
    && (a.src_port_id == b.src_port_id)
    && (a.dst_port_id == b.dst_port_id)
    && address_key.same a.src_addr b.src_addr
    && address_key.same a.dst_addr b.dst_addr
    && same_con_id a.con_id b.con_id

-- `Flow::operator==`. The invoke ids are no part of it.
unfoldable pub same_flow : FlowObject → FlowObject → Bool
same_flow a b =
    compare a b
    && (a.create_flow_retries == b.create_flow_retries)
    && (a.max_create_flow_retries == b.max_create_flow_retries)
    && (a.hop_count == b.hop_count)
    && address_key.same a.src_neighbor b.src_neighbor
    && address_key.same a.dst_neighbor b.dst_neighbor
    && same_bool a.ddt_flag b.ddt_flag

-- `Flow::dup`. It makes a new flow and does not copy the flag of the degenerate transfer.
unfoldable pub dup : FlowObject → FlowObject
dup f = record f { ddt_flag = false }

unfoldable pub swap_cep_ids : ConnectionId → ConnectionId
swap_cep_ids c = record c { src_cep_id = c.dst_cep_id; dst_cep_id = c.src_cep_id }

unfoldable pub swap_apni : FlowObject → FlowObject
swap_apni f = record f { src_apni = f.dst_apni; dst_apni = f.src_apni }

unfoldable pub swap_addresses : FlowObject → FlowObject
swap_addresses f = record f { src_addr = f.dst_addr; dst_addr = f.src_addr }

unfoldable pub swap_port_ids : FlowObject → FlowObject
swap_port_ids f = record f { src_port_id = f.dst_port_id; dst_port_id = f.src_port_id }

-- The neighbours stay where they are.
unfoldable pub swap_flow : FlowObject → FlowObject
swap_flow f =
    let g = swap_port_ids (swap_addresses (swap_apni f)) in
    record g { con_id = swap_cep_ids g.con_id }

-- An `APNamingInfo` made from a name alone.
unfoldable pub naming_of : String → Naming
naming_of n = record { ap_name = n; ap_inst = ""; ae_name = ""; ae_inst = "" }

unfoldable pub is_unspecified : Address → Bool
is_unspecified a = string_key.same a.ipc_address "" && string_key.same a.dif_name ""

abbrev pub unspecified_address : Address
unspecified_address = record { ipc_address = ""; dif_name = "" }

-- The name of an address; that of the unspecified one is empty.
unfoldable pub get_apname : Address → String
get_apname a = if is_unspecified a then "" else apname a

unfoldable pub dup_to_mgmt : FlowObject → FlowObject
dup_to_mgmt f = record (dup f) {
  is_management_flow = true;
  src_apni = naming_of (get_apname f.src_addr);
  dst_apni = naming_of (get_apname f.dst_addr);
}

unfoldable pub is_management_flow_local_to_ipcp : FlowObject → Bool
is_management_flow_local_to_ipcp f =
    f.is_management_flow
    && string_key.same f.src_apni.ap_name (get_apname f.src_addr)
    && string_key.same f.dst_apni.ap_name (get_apname f.dst_addr)
