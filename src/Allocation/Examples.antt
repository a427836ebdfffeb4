-- ===== src/Allocation/Examples.antt =====
-- The theorems on two processes with flows between them, as src/DIF/FA and src/DIF/RIB/RIBd.cc
-- handle it.
use Prim.Native.String.{String}
use rinasim.Base.{
  ℕ, Bool, true, false, ◌≡◌, refl, some, List, [], ◌∷◌, ◌++◌, ok, string_key, arith, ◌<◌, All, ◌⊎◌,
}
use rinasim.Efcp.Pdu.{Address}
use rinasim.Enrollment.{apname}
use rinasim.Allocation.{
  FlowObject, undef_id, same_flow, compare, same_naming, same_con_id, same_bool, naming_of, dup,
  swap_flow, swap_apni, swap_addresses, swap_port_ids, swap_cep_ids, get_apname, is_unspecified,
  is_management_flow_local_to_ipcp,
}
use rinasim.Allocation.Table.{
  AllocateStatus, alloc_nega, alloc_pend, transfer, deallocated, FaiTableEntry, Fai,
  create_flow_request, allocate_response_negative, Fa, find_entry, find_entry_by_flow, has_flow,
  set_status, change_alloc_status,
}
use rinasim.Allocation.Table.Find.{find_entry_by_invoke_id}
use rinasim.Allocation.Table.Laws.{IsOther, IsFirst, change_alloc_status-IsFirst}
use rinasim.Allocation.Instance.{Peers, connects, is_bound, limited_retries}
use rinasim.Allocation.Instance.Retries.{refused_times, repeated, flow_of, refused_times-gives_up}
use rinasim.Allocation.Allocator.Hops.{hops, hops_bounded}
use rinasim.Allocation.Accept.{IsWilling}
use rinasim.Allocation.Own.{IsOwn}
use rinasim.Allocation.Ribd.{
  has_ids, m_create, RibMessage, m_create_r, Process, send_create_request_flow, receive_data,
}
use rinasim.Allocation.Ribd.Steps.{accepts, own_flow}
use rinasim.Allocation.Ribd.Leave.{teardown}
use rinasim.Allocation.Ribd.Setup.{IsFresh, IsIdle}
use rinasim.Allocation.Ribd.Teardown.{IsDown, teardown-IsDown}
use rinasim.Allocation.Ribd.Retry.{IsAllocated, repeated_request_ignored}
use rinasim.Allocation.Ribd.Stray.{
  bound_later, request_for, stray_answer_revives, unbound_sends_request,
}
use rinasim.Allocation.Examples.Processes.{
  address_a, address_b, flow_ab, flow_ba, around, around_a, around_b, instance_of, entry_in,
  allocator, with_flow, mgmt_ab, beside, beside-IsIdle,
}
mod Processes

-- The first flow between two processes, the management flow.
abbrev around_mgmt : Peers
around_mgmt = around true address_b (apname address_b)

abbrev settled_ab : FlowObject
settled_ab = record flow_ab {
  dst_port_id = 21;
  con_id = record { qos_id = "gold"; src_cep_id = 12; dst_cep_id = 22 };
}

abbrev settled_ba : FlowObject
settled_ba = record {
  src_apni = naming_of "App2";
  dst_apni = naming_of "App1";
  src_port_id = 21;
  dst_port_id = 11;
  src_addr = address_b;
  dst_addr = address_a;
  src_neighbor = address_b;
  dst_neighbor = address_a;
  con_id = record { qos_id = "gold"; src_cep_id = 22; dst_cep_id = 12 };
  create_flow_retries = 0;
  max_create_flow_retries = 3;
  hop_count = 16;
  alloc_invoke_id = 1;
  dealloc_invoke_id = 0;
  ddt_flag = false;
  is_management_flow = false;
}

abbrev mgmt_ba : FlowObject
mgmt_ba = record mgmt_ab { src_port_id = 2 }

-- A data flow beside a management flow, on both sides.
teardown-IsDown_example :
    (r : Process × Process) × (teardown around_a around_b 1
        (beside mgmt_ab settled_ab transfer)
        (beside mgmt_ba settled_ba transfer)
      ≡ ok r)
    × IsDown 1 1 r
unfolding own_flow swap_flow swap_apni swap_addresses swap_port_ids swap_cep_ids naming_of
teardown-IsDown_example =
    teardown-IsDown around_a around_b 1 1 (beside mgmt_ab settled_ab transfer)
      (beside mgmt_ba settled_ba transfer) (beside-IsIdle mgmt_ab settled_ab transfer (omega arith))
      (beside-IsIdle mgmt_ba settled_ba transfer (omega arith)) refl refl refl

refused_times-gives_up_example :
    (refused_times 4 around_a 0 (allocator flow_ab (entry_in alloc_pend ∷ []) 1)).events
    ≡ [] ++ (repeated 3 (create_flow_request 0) ++ (allocate_response_negative 0 ∷ []))
unfolding flow_of
refused_times-gives_up_example =
    refused_times-gives_up around_a 0 3 (allocator flow_ab (entry_in alloc_pend ∷ []) 1) (λ f. refl)
      (omega arith) refl

abbrev relays : List (Peers × Fa)
relays = (around_a, allocator flow_ab [] 0) ∷ (around_b, allocator flow_ab [] 0) ∷ []

hops_bounded_example : hops relays flow_ab < 16
hops_bounded_example = hops_bounded relays flow_ab (omega arith) (omega arith)

abbrev answer_ba : RibMessage
answer_ba = record { dst_addr = address_a; invoke_id = 1; object = m_create_r true settled_ba }

stray_answer_revives_example :
    (t : Process) × (receive_data around_a answer_ba (beside mgmt_ab settled_ab deallocated) ≡ ok t)
    × IsOwn 1 transfer t.fa
unfolding has_ids swap_flow swap_apni swap_addresses swap_port_ids swap_cep_ids dup get_apname
    is_unspecified apname naming_of is_management_flow_local_to_ipcp
stray_answer_revives_example =
    stray_answer_revives around_a 1 answer_ba settled_ba deallocated
      (beside mgmt_ab settled_ab deallocated) refl
      (beside-IsIdle mgmt_ab settled_ab deallocated (omega arith)).only refl refl refl

abbrev refused_ba : FlowObject
refused_ba = record settled_ba { alloc_invoke_id = 7 }

abbrev second_request : RibMessage
second_request = record {
  dst_addr = address_b;
  invoke_id = 7;
  object = m_create (record flow_ab { alloc_invoke_id = 7; create_flow_retries = 1 });
}

repeated_request_ignored_example :
    (t : Process) × (receive_data around_b second_request (with_flow refused_ba alloc_nega) ≡ ok t)
    × (t.fa.fai_table ≡ entry_in alloc_nega ∷ [])
    × (t.fa.fais ≡ (λ i. instance_of refused_ba))
    × (t.sent ≡ [])
unfolding IsAllocated naming_of
repeated_request_ignored_example =
    repeated_request_ignored around_b second_request
      (record flow_ab { alloc_invoke_id = 7; create_flow_retries = 1 })
      (with_flow refused_ba alloc_nega) [] (entry_in alloc_nega) [] refl refl (omega arith, tt)
      (omega arith) refl refl refl refl

abbrev unready_b : Peers
unready_b = around false address_b "App2"

unbound_sends_request_example :
    (t : Process) × (accepts unready_b 1 (beside mgmt_ba settled_ba alloc_pend) ≡ ok t)
    × IsOwn 1 transfer t.fa
    × (t.sent ≡ [])
    × ((bound_later 1 t).sent ≡ request_for 1 (beside mgmt_ba settled_ba alloc_pend) ∷ [])
unfolding connects is_bound own_flow
unbound_sends_request_example =
    unbound_sends_request unready_b 1 (beside mgmt_ba settled_ba alloc_pend)
      (beside-IsIdle mgmt_ba settled_ba alloc_pend (omega arith)).only refl refl refl refl

change_alloc_status-IsFirst_example :
    let table = entry_in alloc_pend ∷ entry_in alloc_pend ∷ [] in
    (All (IsOther flow_ab (λ p. flow_ab)) table
      × ((change_alloc_status 0 transfer (allocator flow_ab table 1)).fai_table ≡ table))
    ⊎ IsFirst flow_ab
        (λ p. flow_ab)
        transfer
        table
        (change_alloc_status 0 transfer (allocator flow_ab table 1)).fai_table
change_alloc_status-IsFirst_example =
    change_alloc_status-IsFirst 0 transfer
      (allocator flow_ab (entry_in alloc_pend ∷ entry_in alloc_pend ∷ []) 1)
