-- ===== src/Allocation/Instance.antt =====
-- src/DIF/FA/FAI.cc: the handlers of one instance of the flow allocator, and the two policies of
-- src/policies/DIF/FA/AllocateRetry.
use Prim.Native.String.{String}
use rinasim.Base.{
  ℕ, ◌+◌, Bool, true, false, ◌||◌, not, if◌then◌else◌, leb, Option, none, some, List, u32, Result,
  ok, err, null_entry,
}
use rinasim.Efcp.Pdu.{Address}
use rinasim.Allocation.{FlowObject, is_management_flow_local_to_ipcp}
use rinasim.Allocation.Table.{
  AllocateStatus, alloc_pend, transfer, alloc_nega, dealloc_pend, deallocated, same_status,
  FaiTableEntry, Fai, Event, create_flow_request, create_flow_response_positive,
  create_flow_response_negative, delete_flow_request, delete_flow_response,
  allocation_request_from_fai, deallocate_request_from_fai, allocate_response_positive,
  allocate_response_negative, allocate_finish_management, north_gates, bindings_deleted, Fa, set_at,
  set_flow, emit, find_entry_by_flow, change_alloc_status, set_time_deleted,
}
pub mod Retries

-- The parts that the allocator calls: the policies, the EFCP module, the creation of gates, the
-- resource allocator, the DIF allocator and the random numbers. A policy may change the flow.
pub record Peers : Type 0 where
  pub new_flow_request : FlowObject → FlowObject × Bool
  pub alloc_retry : FlowObject → FlowObject × Bool
  pub create_efcpi : FlowObject → Fai → Bool
  pub create_bindings : FlowObject → Fai → Bool
  pub bind_n_flow_to_nm1_flow : FlowObject → Bool
  pub my_address : Address
  pub is_app_local : String → Bool
  pub resolve_apn_to_best_address : String → String → Option Address
  -- No neighbours where the search returns no list.
  pub find_apn_neighbors : String → List String
  -- An `Address` made from a name.
  pub read_address : String → Address
  -- The port and the CEP-id of the n-th instance.
  pub draw : ℕ → ℕ × ℕ

-- `AllocateRetryBase::run`.
unfoldable pub unlimited_retries : FlowObject → FlowObject × Bool
unlimited_retries f = (record f { create_flow_retries = u32 (f.create_flow_retries + 1) }, true)

-- `LimitedRetries::run`.
unfoldable pub limited_retries : FlowObject → FlowObject × Bool
limited_retries f =
    let g = record f { create_flow_retries = u32 (f.create_flow_retries + 1) } in
    (g, leb g.create_flow_retries g.max_create_flow_retries)

-- A handler starts with the entry of its flow, and gives up unless it is in the right state.
unfoldable pub guarded : AllocateStatus → (Fa → Fa × Bool) → ℕ → Fa → Result (Fa × Bool)
guarded required body p s = elim (find_entry_by_flow p s) [
  | none ↦ err null_entry
  | some e ↦ ok (if same_status e.alloc_status required then body s else (s, false))
]

unfoldable pub refuse : Event → ℕ → Fa → Fa × Bool
refuse e p s = (emit e (change_alloc_status p alloc_nega s), false)

-- The connection and its gates; nothing is made after the first step that fails.
unfoldable pub connects : Peers → FlowObject → Fai → Bool
connects peers f i = if peers.create_efcpi f i then peers.create_bindings f i else false

unfoldable pub is_bound : Peers → FlowObject → Fai → Bool
is_bound peers f i = if i.degenerate_data_transfer then true else peers.bind_n_flow_to_nm1_flow f

unfoldable pub create_north_gates : ℕ → Fa → Fa
create_north_gates i s = emit (north_gates i) s

module _ (peers : Peers) (i : ℕ) where
  unfoldable pub allocate_request : Fa → Fa × Bool
  allocate_request s =
      let fai = s.fais i in
      let p = fai.flow_object in
      let asked = peers.new_flow_request (s.flows p) in
      let t = set_flow p asked.0 s in
      if not asked.1
      then refuse (allocate_response_negative p) p t
      else if not (connects peers asked.0 fai)
      then refuse (allocate_response_negative p) p t
      else ((if is_bound peers asked.0 fai then emit (create_flow_request p) t else t), true)

  unfoldable pub receive_allocate_request : Fa → Result (Fa × Bool)
  receive_allocate_request s = guarded alloc_pend allocate_request (s.fais i).flow_object s

  unfoldable pub allocate_positive : Fa → Fa × Bool
  allocate_positive s =
      let fai = s.fais i in
      let p = fai.flow_object in
      let t = change_alloc_status p transfer s in
      if not (connects peers (s.flows p) fai)
      then refuse (create_flow_response_negative p) p s
      else (
        (if is_bound peers (s.flows p) fai then emit (create_flow_response_positive p) t else t),
        true,
      )

  unfoldable pub receive_allocate_response_positive : Fa → Result (Fa × Bool)
  receive_allocate_response_positive s =
      guarded alloc_pend allocate_positive (s.fais i).flow_object s

  unfoldable pub create_request : Fa → Fa × Bool
  create_request s =
      let p = (s.fais i).flow_object in
      let asked = peers.new_flow_request (s.flows p) in
      let t = set_flow p asked.0 s in
      if not asked.1
      then refuse (create_flow_response_negative p) p t
      else (emit (allocation_request_from_fai p) (create_north_gates i t), true)

  unfoldable pub receive_create_request : Fa → Result (Fa × Bool)
  receive_create_request s = guarded alloc_pend create_request (s.fais i).flow_object s

  -- No state is looked at: each negative answer counts as a try.
  unfoldable pub receive_create_response_negative : Fa → Fa × Bool
  receive_create_response_negative s =
      let p = (s.fais i).flow_object in
      let asked = peers.alloc_retry (s.flows p) in
      let t = set_flow p asked.0 s in
      if asked.1
      then (emit (create_flow_request p) t, true)
      else refuse (allocate_response_negative p) p t

-- The handlers that ask nobody: here i is the instance.
unfoldable pub allocate_negative : ℕ → Fa → Fa × Bool
allocate_negative p s = refuse (create_flow_response_negative p) p s

unfoldable pub receive_allocate_response_negative : ℕ → Fa → Result (Fa × Bool)
receive_allocate_response_negative i s =
    guarded alloc_pend (allocate_negative (s.fais i).flow_object) (s.fais i).flow_object s

unfoldable pub delete_bindings : ℕ → Fa → Fa
delete_bindings i s = emit (bindings_deleted i) s

unfoldable pub deallocate_request : ℕ → Fa → Fa × Bool
deallocate_request i s =
    (emit (delete_flow_request (s.fais i).flow_object) (delete_bindings i s), true)

unfoldable pub receive_deallocate_request : ℕ → Fa → Result (Fa × Bool)
receive_deallocate_request i s =
    guarded dealloc_pend (deallocate_request i) (s.fais i).flow_object s

-- The flow takes the invoke id of the request.
unfoldable pub delete_request : ℕ → FlowObject → Fa → Fa × Bool
delete_request i flow s =
    let p = (s.fais i).flow_object in
    let t = change_alloc_status p dealloc_pend s in
    let f = record (s.flows p) { dealloc_invoke_id = flow.dealloc_invoke_id } in
    let u = emit (deallocate_request_from_fai p) (set_flow p f t) in
    let v = emit (delete_flow_response p) (delete_bindings i u) in
    (set_time_deleted p (change_alloc_status p deallocated v), true)

unfoldable pub receive_delete_request : ℕ → FlowObject → Fa → Result (Fa × Bool)
receive_delete_request i flow s = guarded transfer (delete_request i flow) (s.fais i).flow_object s

unfoldable pub delete_response : ℕ → Fa → Fa × Bool
delete_response p s =
    let t = emit (deallocate_request_from_fai p) s in
    (set_time_deleted p (change_alloc_status p deallocated t), true)

unfoldable pub receive_delete_response : ℕ → Fa → Result (Fa × Bool)
receive_delete_response i s =
    guarded dealloc_pend (delete_response (s.fais i).flow_object) (s.fais i).flow_object s

unfoldable pub take_remote : FlowObject → FlowObject → FlowObject
take_remote own flow = record own {
  con_id = record own.con_id { dst_cep_id = flow.con_id.dst_cep_id };
  dst_port_id = flow.dst_port_id;
}

-- No state is looked at.
unfoldable pub receive_create_response_positive : ℕ → FlowObject → Fa → Fa × Bool
receive_create_response_positive i flow s =
    let fai = s.fais i in
    let p = fai.flow_object in
    let own = take_remote (s.flows p) flow in
    let known = record fai {
      remote_port_id = flow.dst_port_id;
      remote_cep_id = flow.con_id.dst_cep_id;
    } in
    let t = set_flow p own s in
    let u = change_alloc_status p transfer (record t { fais = set_at i known t.fais }) in
    (
      emit
          (if is_management_flow_local_to_ipcp own
            then allocate_finish_management p
            else allocate_response_positive p)
          u,
      true,
    )

unfoldable pub receive_create_flow_response_positive_from_nminus_one : ℕ → Fa → Fa
receive_create_flow_response_positive_from_nminus_one i s =
    emit (create_flow_request (s.fais i).flow_object) s

unfoldable pub receive_create_flow_response_negative_from_nminus_one : ℕ → Fa → Fa
receive_create_flow_response_negative_from_nminus_one i s =
    emit (allocate_response_negative (s.fais i).flow_object) s
