-- ===== src/Allocation/Ribd.antt =====
-- src/DIF/RIB/RIBd.cc and RIBdListeners.cc, as far as they carry flows between the allocators of two
-- processes, and src/DIF/FA/FAIListeners.cc, which hands the answers to the instances.
use rinasim.Base.{
  ℕ, zero, suc, ◌+◌, ◌==◌, Bool, true, false, ◌&&◌, not, if◌then◌else◌, List, [], ◌∷◌, ◌++◌,
  string_key, Result, ok, err, ◌>>=◌,
}
use rinasim.Efcp.Pdu.{Address}
use rinasim.Routing.{address_key}
use rinasim.Allocation.{
  unspecified_address, FlowObject, compare, dup, swap_flow, get_apname,
  is_management_flow_local_to_ipcp,
}
use rinasim.Allocation.Table.{
  Event, create_flow_request, create_flow_response_positive, create_flow_response_negative,
  delete_flow_request, delete_flow_response, create_flow_request_forward,
  create_response_negative_from_fa, Fa,
}
use rinasim.Allocation.Instance.{
  Peers, receive_create_response_positive, receive_create_response_negative, receive_delete_request,
  receive_delete_response, receive_create_flow_response_positive_from_nminus_one,
  receive_create_flow_response_negative_from_nminus_one,
}
use rinasim.Allocation.Allocator.{update_flow, new_flow, receive_create_flow_request_from_ribd}
pub mod Steps
pub mod Hears
pub mod Leave
pub mod Sides
pub mod Setup
pub mod Stray
pub mod Retry
pub mod Teardown

pub data RibObject : Type 0 where
  m_create m_delete m_delete_r : FlowObject → RibObject
  -- The flag is the result: R_SUCCESS or R_FAIL.
  m_create_r : Bool → FlowObject → RibObject

-- A CDAP message about a flow. It carries the flow as it is when the message is sent.
pub record RibMessage : Type 0 where
  pub dst_addr : Address
  pub invoke_id : ℕ
  pub object : RibObject

-- The allocator and the RIB daemon of a process.
pub record Process : Type 0 where
  pub fa : Fa
  pub cur_invoke_id : ℕ
  pub sent : List RibMessage

-- Without a destination nothing is sent.
unfoldable pub signalize_send_data : Address → ℕ → RibObject → Process → Process
signalize_send_data a i o s = record s {
  sent =
      if address_key.same a unspecified_address
      then s.sent
      else s.sent ++ (record { dst_addr = a; invoke_id = i; object = o } ∷ []);
}

-- A flow that has no invoke id gets a new one.
unfoldable pub needs_id : ℕ → Process → Process
needs_id i s = record s { cur_invoke_id = if i == 0 then s.cur_invoke_id + 1 else s.cur_invoke_id }

unfoldable pub id_or_new : ℕ → Process → ℕ
id_or_new i s = if i == 0 then s.cur_invoke_id + 1 else i

unfoldable pub send_create_request_flow : ℕ → Process → Process
send_create_request_flow p s =
    let f = s.fa.flows p in
    let i = id_or_new f.alloc_invoke_id s in
    let named : FlowObject = record f { alloc_invoke_id = i } in
    signalize_send_data f.dst_neighbor i (m_create named)
      (record (needs_id f.alloc_invoke_id s) { fa = update_flow p (λ g. named) s.fa })

unfoldable pub send_delete_request_flow : ℕ → Process → Process
send_delete_request_flow p s =
    let f = s.fa.flows p in
    let i = id_or_new f.dealloc_invoke_id s in
    let named : FlowObject = record f { dealloc_invoke_id = i } in
    signalize_send_data f.dst_addr i (m_delete named)
      (record (needs_id f.dealloc_invoke_id s) { fa = update_flow p (λ g. named) s.fa })

unfoldable pub send_create_response : Bool → ℕ → Process → Process
send_create_response positive p s =
    let f = s.fa.flows p in
    signalize_send_data f.dst_addr f.alloc_invoke_id (m_create_r positive f) s

unfoldable pub send_delete_response_flow : ℕ → Process → Process
send_delete_response_flow p s =
    let f = s.fa.flows p in signalize_send_data f.dst_addr f.dealloc_invoke_id (m_delete_r f) s

-- What the daemon does at a signal of the allocator or of an instance; the others are for
-- applications.
unfoldable pub on_event : Event → Process → Process
on_event (create_flow_request p) s = send_create_request_flow p s
on_event (create_flow_request_forward p) s = send_create_request_flow p s
on_event (create_flow_response_positive p) s = send_create_response true p s
on_event (create_flow_response_negative p) s = send_create_response false p s
on_event (create_response_negative_from_fa p) s = send_create_response false p s
on_event (delete_flow_request p) s = send_delete_request_flow p s
on_event (delete_flow_response p) s = send_delete_response_flow p s
on_event other s = s

unfoldable pub on_events : List Event → Process → Process
on_events [] s = s
on_events (e ∷ es) s = on_events es (on_event e s)

-- The signals of a handler reach the daemon in their order, each once.
unfoldable pub flush : Process → Process
flush s = on_events s.fa.events (record s { fa = record s.fa { events = [] } })

-- A signal reaches every instance, the oldest first.
unfoldable pub each_fai : ℕ → (ℕ → Fa → Result Fa) → Fa → Result Fa
each_fai zero g s = ok s
each_fai (suc n) g s = each_fai n g s >>= g n

-- Both positive and negative answers are for the instance with these ids.
unfoldable pub has_ids : FlowObject → ℕ → Fa → Bool
has_ids f i s =
    let own = s.flows (s.fais i).flow_object in
    (own.src_port_id == f.src_port_id) && (own.con_id.src_cep_id == f.con_id.src_cep_id)

unfoldable pub lis_cre_res_posi : FlowObject → ℕ → Fa → Result Fa
lis_cre_res_posi f i s =
    ok (if has_ids f i s then (receive_create_response_positive i f s).0 else s)

unfoldable pub lis_cre_res_nega : Peers → FlowObject → ℕ → Fa → Result Fa
lis_cre_res_nega peers f i s =
    ok (if has_ids f i s then (receive_create_response_negative peers i s).0 else s)

unfoldable pub is_own : FlowObject → ℕ → Fa → Bool
is_own f i s = compare (s.flows (s.fais i).flow_object) f

unfoldable pub lis_del_req : FlowObject → ℕ → Fa → Result Fa
lis_del_req f i s =
    if is_own f i s then (receive_delete_request i f s >>= (λ r. ok (r.0))) else ok s

unfoldable pub lis_del_res : FlowObject → ℕ → Fa → Result Fa
lis_del_res f i s = if is_own f i s then (receive_delete_response i s >>= (λ r. ok (r.0))) else ok s

-- A flow of the process below, which this process asked for, is ready.
unfoldable pub lis_cre_res_posi_nminus_one : Peers → FlowObject → ℕ → Fa → Result Fa
lis_cre_res_posi_nminus_one peers f i s =
    let own = s.flows (s.fais i).flow_object in
    ok (
      if string_key.same (get_apname peers.my_address) f.src_apni.ap_name
        && string_key.same own.con_id.qos_id f.con_id.qos_id
        && not (is_management_flow_local_to_ipcp f)
      then receive_create_flow_response_positive_from_nminus_one i s
      else s)

unfoldable pub lis_cre_res_nega_nminus_one : Peers → FlowObject → ℕ → Fa → Result Fa
lis_cre_res_nega_nminus_one peers f i s = ok (
    if string_key.same (get_apname peers.my_address) f.src_apni.ap_name
    then receive_create_flow_response_negative_from_nminus_one i s
    else s)

module _ (peers : Peers) where
  -- A request becomes an object of this process, seen from its side.
  unfoldable pub process_m_create : FlowObject → Fa → Result Fa
  process_m_create f s =
      receive_create_flow_request_from_ribd peers s.next_flow (new_flow (swap_flow (dup f)) s)
      >>= (λ r. ok (r.0))

  -- An instance has both listeners on the signal of an answer.
  unfoldable pub hear_posi : FlowObject → ℕ → Fa → Result Fa
  hear_posi f i s = lis_cre_res_posi f i s >>= lis_cre_res_posi_nminus_one peers f i

  unfoldable pub hear_nega : FlowObject → ℕ → Fa → Result Fa
  hear_nega f i s = lis_cre_res_nega peers f i s >>= lis_cre_res_nega_nminus_one peers f i

  unfoldable pub process_m_create_r : Bool → FlowObject → Fa → Result Fa
  process_m_create_r true f s = each_fai s.next_fai (hear_posi (swap_flow (dup f))) s
  process_m_create_r false f s = each_fai s.next_fai (hear_nega (swap_flow (dup f))) s

  unfoldable pub process_m_delete : FlowObject → Fa → Result Fa
  process_m_delete f s = each_fai s.next_fai (lis_del_req (swap_flow (dup f))) s

  unfoldable pub process_m_delete_r : FlowObject → Fa → Result Fa
  process_m_delete_r f s = each_fai s.next_fai (lis_del_res (swap_flow (dup f))) s

  unfoldable pub receive_object : RibObject → Fa → Result Fa
  receive_object (m_create f) s = process_m_create f s
  receive_object (m_create_r positive f) s = process_m_create_r positive f s
  receive_object (m_delete f) s = process_m_delete f s
  receive_object (m_delete_r f) s = process_m_delete_r f s

  -- What a message, or a call, changes, and what the daemon sends then.
  unfoldable pub receive_data : RibMessage → Process → Result Process
  receive_data m s = receive_object m.object s.fa >>= (λ t. ok (flush (record s { fa = t })))
