-- ===== src/Allocation/Mirror.antt =====
-- How the flows of src/Common/Flow.cc compare, and a flow as its two ends see it.
use rinasim.Base.{ℕ, true, ◌≡◌, refl, ap, arith, string_key, same_refl, same→eq}
use rinasim.Efcp.Pdu.{Address, ConnectionId}
use rinasim.Enrollment.{Naming}
use rinasim.Routing.{address_key}
use rinasim.Allocation.{
  FlowObject, same_naming, same_con_id, same_bool, compare, same_flow, dup, swap_cep_ids, swap_apni,
  swap_addresses, swap_port_ids, swap_flow,
}

-- The fields that `Flow::compare` reads.
pub record Ends : Type 0 where
  pub src_apni : Naming
  pub dst_apni : Naming
  pub src_port_id : ℕ
  pub dst_port_id : ℕ
  pub src_addr : Address
  pub dst_addr : Address
  pub con_id : ConnectionId

abbrev pub ends : FlowObject → Ends
ends f = record {
  src_apni = f.src_apni;
  dst_apni = f.dst_apni;
  src_port_id = f.src_port_id;
  dst_port_id = f.dst_port_id;
  src_addr = f.src_addr;
  dst_addr = f.dst_addr;
  con_id = f.con_id;
}

same_naming_refl : (a : Naming) → same_naming a a ≡ true
unfolding same_naming
same_naming_refl a =
    ground
      (arith, same_refl a.ap_name, same_refl a.ap_inst, same_refl a.ae_name, same_refl a.ae_inst)

same_con_id_refl : (a : ConnectionId) → same_con_id a a ≡ true
unfolding same_con_id
same_con_id_refl a = ground (arith, same_refl a.qos_id)

same_naming→eq : (a b : Naming) → same_naming a b ≡ true → a ≡ b
unfolding same_naming
same_naming→eq a b h = ground (
  arith,
  h,
  same→eq a.ap_name b.ap_name,
  same→eq a.ap_inst b.ap_inst,
  same→eq a.ae_name b.ae_name,
  same→eq a.ae_inst b.ae_inst,
)

same_con_id→eq : (a b : ConnectionId) → same_con_id a b ≡ true → a ≡ b
unfolding same_con_id
same_con_id→eq a b h = ground (arith, h, same→eq a.qos_id b.qos_id)

compare_refl : (f : FlowObject) → compare f f ≡ true
unfolding compare
compare_refl f = ground (
  arith,
  same_naming_refl f.src_apni,
  same_naming_refl f.dst_apni,
  same_refl f.src_addr,
  same_refl f.dst_addr,
  same_con_id_refl f.con_id,
)

pub same_flow_refl : (f : FlowObject) → same_flow f f ≡ true
unfolding same_flow same_bool
same_flow_refl f =
    ground (arith, compare_refl f, same_refl f.src_neighbor, same_refl f.dst_neighbor)

pub ends-compare : (f g : FlowObject) → ends f ≡ ends g → compare f g ≡ true
unfolding compare
ends-compare f g h = ground (
  arith,
  ap Ends.src_apni h,
  ap Ends.dst_apni h,
  ap Ends.src_port_id h,
  ap Ends.dst_port_id h,
  ap Ends.src_addr h,
  ap Ends.dst_addr h,
  ap Ends.con_id h,
  same_naming_refl f.src_apni,
  same_naming_refl f.dst_apni,
  same_refl f.src_addr,
  same_refl f.dst_addr,
  same_con_id_refl f.con_id,
)

pub compare-ends : (f g : FlowObject) → compare f g ≡ true → ends f ≡ ends g
unfolding compare
compare-ends f g h = ground (
  arith,
  h,
  same_naming→eq f.src_apni g.src_apni,
  same_naming→eq f.dst_apni g.dst_apni,
  same→eq f.src_addr g.src_addr,
  same→eq f.dst_addr g.dst_addr,
  same_con_id→eq f.con_id g.con_id,
)

-- Both ends change places with a flow and back.
pub swap_flow-swap_flow : (f : FlowObject) → swap_flow (swap_flow f) ≡ f
unfolding swap_flow swap_port_ids swap_addresses swap_apni swap_cep_ids
swap_flow-swap_flow f = refl

pub ends-swap_flow : (f g : FlowObject) → ends f ≡ ends g → ends (swap_flow f) ≡ ends (swap_flow g)
unfolding swap_flow swap_port_ids swap_addresses swap_apni swap_cep_ids
ends-swap_flow f g h = ground (
  arith,
  ap Ends.src_apni h,
  ap Ends.dst_apni h,
  ap Ends.src_port_id h,
  ap Ends.dst_port_id h,
  ap Ends.src_addr h,
  ap Ends.dst_addr h,
  ap Ends.con_id h,
)

pub ends-dup : (f : FlowObject) → ends (dup f) ≡ ends f
unfolding dup
ends-dup f = refl
