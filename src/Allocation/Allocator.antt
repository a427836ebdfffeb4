-- ===== src/Allocation/Allocator.antt =====
-- src/DIF/FA/FA.cc: the handlers of the flow allocator, and src/DIF/FA/FAListeners.cc, which calls
-- them.
use Prim.Native.String.{String}
use rinasim.Base.{
  ℕ, ◌+◌, ◌==◌, Bool, true, false, ◌&&◌, ◌||◌, not, if◌then◌else◌, Option, none, some, List, [],
  ◌∷◌, ◌++◌, map, string_key, sub32, Result, ok, err, ◌>>=◌,
}
use rinasim.Efcp.Pdu.{Address}
use rinasim.Routing.{address_key}
use rinasim.Allocation.{
  FlowObject, undef_id, dup, dup_to_mgmt, swap_flow, get_apname, is_unspecified,
  unspecified_address, is_management_flow_local_to_ipcp,
}
use rinasim.Allocation.Table.{
  AllocateStatus, alloc_pend, transfer, alloc_err, forwarding, forwarded, dealloc_pend,
  deinstantiated, same_status, FaiTableEntry, Fai, create_flow_request_forward,
  create_response_negative_from_fa, pend_flows_timer, Fa, set_at, set_flow, emit,
  find_entry_by_flow, insert_new, change_alloc_status, change_alloc_status_of_fai, set_fai_to_flow,
}
use rinasim.Allocation.Table.Find.{
  find_entry_by_invoke_id, find_entries_by_dst_neighbor_and_fwd, find_entries_affected_by_mgmt,
  find_mgmt_entry_by_dst_addr,
}
use rinasim.Allocation.Instance.{Peers}
use rinasim.Allocation.Instance as fai
use rinasim.Allocation.Addresses.{set_original_addresses, set_neighbor_addresses}
pub mod Hops

unfoldable pub update_flow : ℕ → (FlowObject → FlowObject) → Fa → Fa
update_flow p g s = set_flow p (g (s.flows p)) s

-- A new object on the heap.
unfoldable pub new_flow : FlowObject → Fa → Fa
new_flow f s = record (set_flow s.next_flow f s) { next_flow = s.next_flow + 1 }

unfoldable pub is_malformed_flow : FlowObject → Bool
is_malformed_flow f = string_key.same f.dst_apni.ap_name "AppERR"

unfoldable pub new_fai : ℕ → ℕ × ℕ → Fai
new_fai p ids = record {
  flow_object = p;
  degenerate_data_transfer = false;
  local_port_id = ids.0;
  local_cep_id = ids.1;
  remote_port_id = undef_id;
  remote_cep_id = undef_id;
}

unfoldable pub create_fai : Peers → ℕ → Fa → Result Fa
create_fai peers p s =
    let i = s.next_fai in
    set_fai_to_flow i p
      (record s { fais = set_at i (new_fai p (peers.draw i)) s.fais; next_fai = i + 1 })
    >>= (λ t. ok (change_alloc_status p alloc_pend t))

unfoldable pub update_fai : ℕ → (Fai → Fai) → Fa → Fa
update_fai i g s = record s { fais = set_at i (g (s.fais i)) s.fais }

unfoldable pub set_degenerate : ℕ → Bool → Fa → Fa
set_degenerate i ddt = update_fai i (λ (f : Fai). record f { degenerate_data_transfer = ddt })

-- The flow takes the port and the CEP-id of its instance.
unfoldable pub take_local_ids : ℕ → ℕ → Fa → Fa
take_local_ids i p s =
    update_flow p
      (λ (f : FlowObject). record f {
        src_port_id = (s.fais i).local_port_id;
        con_id = record f.con_id { src_cep_id = (s.fais i).local_cep_id };
      })
      s

unfoldable pub add_pending : ℕ → Fa → Fa
add_pending p s = change_alloc_status p alloc_pend (insert_new p s)

unfoldable pub has_mgmt : FlowObject → Fa → Bool
has_mgmt f s = elim (find_mgmt_entry_by_dst_addr f.dst_addr s) [ none ↦ false | some e ↦ true ]

unfoldable pub is_mgmt_ready : FlowObject → Fa → Bool
is_mgmt_ready f s = elim (find_mgmt_entry_by_dst_addr f.dst_addr s) [
  | none ↦ false
  | some e ↦ same_status e.alloc_status transfer
]

unfoldable pub take_remote_ids : ℕ → FlowObject → Fa → Fa
take_remote_ids i f =
    update_fai i (λ (x : Fai). record x {
      remote_port_id = f.dst_port_id;
      remote_cep_id = f.con_id.dst_cep_id;
    })

unfoldable pub count_hop : FlowObject → FlowObject
count_hop f = record f { hop_count = sub32 f.hop_count 1 }

module _ (peers : Peers) where
  -- The instance of a flow that this process asked for, with its new ids.
  unfoldable pub instantiate : ℕ → Fa → Result Fa
  instantiate p s =
      create_fai peers p s
      >>= (λ t. ok (take_local_ids s.next_fai p (set_degenerate s.next_fai (t.flows p).ddt_flag t)))

  unfoldable pub local_mgmt_flow : FlowObject → FlowObject
  local_mgmt_flow f =
      record (set_neighbor_addresses peers (record f {
        src_addr = peers.read_address f.src_apni.ap_name;
        dst_addr = peers.read_address f.dst_apni.ap_name;
      })) { ddt_flag = false }

  unfoldable pub receive_local_mgmt_allocate_request : ℕ → Fa → Result (Fa × Bool)
  receive_local_mgmt_allocate_request p s =
      instantiate p (update_flow p local_mgmt_flow (add_pending p s))
      >>= fai.receive_allocate_request peers s.next_fai

  unfoldable pub with_addresses : FlowObject → FlowObject
  with_addresses f =
      if address_key.same f.src_addr unspecified_address
        && address_key.same f.src_neighbor unspecified_address
      then set_neighbor_addresses peers (set_original_addresses peers f)
      else f

  unfoldable pub with_ddt : FlowObject → FlowObject
  with_ddt f = if peers.is_app_local f.dst_apni.ap_name then record f { ddt_flag = true } else f

  -- The management flow towards the destination is asked for first, where there is none.
  unfoldable pub ensure_mgmt : ℕ → Fa → Result Fa
  ensure_mgmt p s =
      let f = s.flows p in
      let t = new_flow (dup_to_mgmt f) s in
      if f.ddt_flag || has_mgmt f s
      then ok s
      else (receive_local_mgmt_allocate_request s.next_flow t >>= (λ r. ok (r.0)))

  -- A flow waits until the management flow is ready, unless it stays in this process.
  unfoldable pub start_or_wait : ℕ → ℕ → Fa → Result (Fa × Bool)
  start_or_wait i p s =
      let f = s.flows p in
      if f.ddt_flag || is_mgmt_ready f s
      then fai.receive_allocate_request peers i s
      else ok (s, true)

  unfoldable pub allocate : ℕ → Fa → Result (Fa × Bool)
  allocate p s =
      if is_malformed_flow (s.flows p)
      then ok (change_alloc_status p alloc_err s, false)
      else (instantiate p s >>= start_or_wait s.next_fai p)

  unfoldable pub receive_allocate_request : ℕ → Fa → Result (Fa × Bool)
  receive_allocate_request p s =
      let t = update_flow p (λ f. with_ddt (with_addresses f)) (add_pending p s) in
      ensure_mgmt p t >>= allocate p

  unfoldable pub receive_nm1_flow_created : ℕ → Fa → Fa
  receive_nm1_flow_created p s =
      let q = s.next_flow in
      let t = change_alloc_status p forwarded (new_flow (dup (s.flows p)) s) in
      emit (create_flow_request_forward q) (update_flow q (set_neighbor_addresses peers) t)

  unfoldable pub mark_local : ℕ → ℕ → Fa → Fa
  mark_local i p s =
      if peers.is_app_local (s.flows p).dst_apni.ap_name
      then update_flow p (λ (f : FlowObject). record f { ddt_flag = true })
          (set_degenerate i true s)
      else s

  -- The request is for an application of this process.
  unfoldable pub accept_create : ℕ → Fa → Result (Fa × Bool)
  accept_create p s =
      let i = s.next_fai in
      let t = update_flow p (set_neighbor_addresses peers) (insert_new p s) in
      create_fai peers p (change_alloc_status p alloc_pend t) >>= (λ u.
        let v = mark_local i p u in
        fai.receive_create_request peers i (take_local_ids i p (take_remote_ids i (v.flows p) v)))

  unfoldable pub is_duplicate : FlowObject → Fa → Bool
  is_duplicate f s =
      not (peers.is_app_local f.dst_apni.ap_name)
      && elim (find_entry_by_invoke_id f.alloc_invoke_id s) [ none ↦ false | some e ↦ true ]

  -- The request goes on to the next process, unless it has made all its hops.
  unfoldable pub forward_create : ℕ → Fa → Fa × Bool
  forward_create p s =
      let t = insert_new p (update_flow p swap_flow s) in
      let u = change_alloc_status p forwarding (update_flow p (set_neighbor_addresses peers) t) in
      let v = update_flow p count_hop u in
      if (v.flows p).hop_count == 0
      then (emit (create_response_negative_from_fa p) (change_alloc_status p alloc_err v), false)
      else if peers.bind_n_flow_to_nm1_flow (v.flows p)
      then (receive_nm1_flow_created p v, true)
      else (v, false)

  unfoldable pub receive_create_flow_request_from_ribd : ℕ → Fa → Result (Fa × Bool)
  receive_create_flow_request_from_ribd p s =
      if peers.is_app_local (s.flows p).src_apni.ap_name
      then (if is_duplicate (s.flows p) s then ok (s, false) else accept_create p s)
      else ok (forward_create p s)

-- The state of the flow is not looked at, only that it has an instance.
unfoldable pub receive_deallocate_request : ℕ → Fa → Result (Fa × Bool)
receive_deallocate_request p s = elim (find_entry_by_flow p s) [
  | none ↦ ok (s, false)
  | some e ↦ elim e.fai [
    | none ↦ ok (s, false)
    | some i ↦
        fai.receive_deallocate_request i (change_alloc_status_of_fai i dealloc_pend s)
        >>= (λ r. ok (r.0, true))
  ]
]

unfoldable pub deinstantiate_fai : ℕ → Fa → Fa
deinstantiate_fai p s = change_alloc_status p deinstantiated s
