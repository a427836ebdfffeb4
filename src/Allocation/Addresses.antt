-- ===== src/Allocation/Addresses.antt =====
-- src/DIF/FA/FA.cc: the addresses of a flow, as the DIF allocator resolves them.
use Prim.Native.String.{String}
use rinasim.Base.{Bool, true, false, if◌then◌else◌, none, some, List, [], ◌∷◌, string_key}
use rinasim.Efcp.Pdu.{Address}
use rinasim.Routing.{address_key}
use rinasim.Allocation.{
  FlowObject, get_apname, is_unspecified, unspecified_address, is_management_flow_local_to_ipcp,
}
use rinasim.Allocation.Instance.{Peers}

-- The first neighbour in the same DIF, or the address itself.
unfoldable pub neighbor_of : Peers → Address → List String → Address
neighbor_of peers a [] = a
neighbor_of peers a (n ∷ ns) =
    let rest = neighbor_of peers a ns in
    if string_key.same a.dif_name (peers.read_address n).dif_name
    then peers.read_address n
    else rest

unfoldable pub with_neighbor : Peers → Bool → Address → Address
with_neighbor peers use_neighbor a =
    if use_neighbor then neighbor_of peers a (peers.find_apn_neighbors (get_apname a)) else a

unfoldable pub get_address_from_da : Peers → String → Bool → Bool → Address
get_address_from_da peers apn use_neighbor is_mgmt_flow =
    if is_mgmt_flow
    then with_neighbor peers use_neighbor (peers.read_address apn)
    else elim (peers.resolve_apn_to_best_address apn peers.my_address.dif_name) [
      | none ↦ unspecified_address
      | some a ↦ with_neighbor peers use_neighbor a
    ]

-- A name that is not resolved ends the function: what comes after it is not set.
unfoldable pub set_original_addresses : Peers → FlowObject → FlowObject
set_original_addresses peers f =
    let src = get_address_from_da peers f.src_apni.ap_name false false in
    let dst = get_address_from_da peers f.dst_apni.ap_name false false in
    if is_unspecified src
    then f
    else if is_unspecified dst
    then record f { src_addr = src }
    else record f { src_addr = src; dst_addr = dst }

unfoldable pub set_dst_neighbor : Peers → Bool → FlowObject → FlowObject
set_dst_neighbor peers mgmt f =
    let dst = get_address_from_da peers f.dst_apni.ap_name true mgmt in
    if is_unspecified dst then f else record f { dst_neighbor = dst }

unfoldable pub set_neighbor_addresses : Peers → FlowObject → FlowObject
set_neighbor_addresses peers f =
    let mgmt = is_management_flow_local_to_ipcp f in
    let src = get_address_from_da peers f.src_apni.ap_name true mgmt in
    if mgmt
    then set_dst_neighbor peers mgmt f
    else if is_unspecified src
    then f
    else set_dst_neighbor peers mgmt (record f { src_neighbor = src })
