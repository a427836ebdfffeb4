-- ===== src/Allocation/Listeners.antt =====
-- src/DIF/FA/FAListeners.cc and FA::handleMessage: what waits for another flow, and is taken up when
-- that flow is ready.
use rinasim.Base.{
  ℕ, ◌&&◌, not, if◌then◌else◌, none, some, List, [], ◌∷◌, ◌++◌, map, string_key, Result, ok, ◌>>=◌,
}
use rinasim.Routing.{address_key}
use rinasim.Allocation.{FlowObject, get_apname, is_management_flow_local_to_ipcp}
use rinasim.Allocation.Table.{FaiTableEntry, pend_flows_timer, Fa, emit, find_entry_by_flow}
use rinasim.Allocation.Table.Find.{
  find_entries_by_dst_neighbor_and_fwd, find_entries_affected_by_mgmt,
}
use rinasim.Allocation.Instance.{Peers}
use rinasim.Allocation.Instance as fai
use rinasim.Allocation.Allocator.{receive_nm1_flow_created}

module _ (peers : Peers) where
  -- The listener for flows of the process below that are ready.
  unfoldable pub create_all : List FaiTableEntry → Fa → Fa
  create_all [] s = s
  create_all (e ∷ es) s = create_all es (receive_nm1_flow_created peers e.flow s)

  unfoldable pub nm1_flow_created : FlowObject → Fa → Fa
  nm1_flow_created f s =
      if string_key.same (get_apname peers.my_address) f.src_apni.ap_name
        && not (is_management_flow_local_to_ipcp f)
      then create_all (find_entries_by_dst_neighbor_and_fwd f.dst_apni.ap_name s) s
      else s

  -- The listener for the management flow of this process: what waits for it is put down for later.
  unfoldable pub mgmt_allocate_finish : FlowObject → Fa → Fa
  mgmt_allocate_finish f s =
      let flows = map (λ (e : FaiTableEntry). e.flow) (find_entries_affected_by_mgmt f s) in
      if string_key.same (get_apname peers.my_address) f.src_apni.ap_name
        && is_management_flow_local_to_ipcp f
      then emit pend_flows_timer (record s { pending_flows = s.pending_flows ++ flows })
      else s

  unfoldable pub retry_pending : ℕ → Fa → Result Fa
  retry_pending p s = elim (find_entry_by_flow p s) [
    | none ↦ ok s
    | some e ↦ elim e.fai [
      | none ↦ ok s
      | some i ↦ fai.receive_allocate_request peers i s >>= (λ r. ok (r.0))
    ]
  ]

  unfoldable pub retry_all : List ℕ → Fa → Result Fa
  retry_all [] s = ok s
  retry_all (p ∷ ps) s = retry_pending p s >>= (λ t. retry_all ps (record t { pending_flows = ps }))

  unfoldable pub handle_pend_flows : Fa → Result Fa
  handle_pend_flows s = retry_all s.pending_flows s
