-- ===== src/Allocation/Ribd/Leave.antt =====
-- The calls and messages that take a flow down, as the handlers of src/DIF/FA/FA.cc, FAI.cc and
-- src/DIF/RIB/RIBd.cc answer them.
use rinasim.Base.{ℕ, true, ◌≡◌, ◌≢◌, refl, sym, ◌∙◌, ap, [], arith, Result, ok, ◌>>=◌}
use rinasim.Allocation.{FlowObject, dup, swap_flow}
use rinasim.Allocation.Mirror.{Ends, ends, ends-compare}
use rinasim.Allocation.Table.{
  AllocateStatus, transfer, dealloc_pend, deallocated, Fa, deallocate_request_from_fai,
  delete_flow_response, delete_flow_request, bindings_deleted, set_flow, emit, change_alloc_status,
  change_alloc_status_of_fai, set_time_deleted,
}
use rinasim.Allocation.Instance.{
  Peers, deallocate_request, delete_bindings, delete_request, receive_delete_request,
  delete_response, receive_delete_response,
}
use rinasim.Allocation.Instance as fai
use rinasim.Allocation.Allocator.{receive_deallocate_request}
use rinasim.Allocation.Own.{
  IsOwn, port_id, compare_port, found_own, guarded-IsOwn, changed_fai-IsOwn, changed-IsOwn,
  deleted-IsOwn, same-IsOwn, set_at-src_port_id,
}
use rinasim.Allocation.Ribd.{
  RibMessage, m_delete, m_delete_r, Process, receive_data, receive_object, process_m_delete,
  process_m_delete_r, each_fai, lis_del_req, lis_del_res, is_own, flush, on_events, on_event,
  send_delete_request_flow, send_delete_response_flow,
}
use rinasim.Allocation.Ribd.Hears.{each_fai-own}
use rinasim.Allocation.Ribd.Steps.{deliver, own_flow}

-- The application gives its flow up.
unfoldable pub leaves : ℕ → Process → Result Process
leaves i s =
    receive_deallocate_request (s.fa.fais i).flow_object s.fa
    >>= (λ r. ok (flush (record s { fa = r.0 })))

unfoldable pub teardown : Peers → Peers → ℕ → Process → Process → Result (Process × Process)
teardown pa pb i a b =
    leaves i a
    >>= (λ a1. deliver pb a1.sent b >>= (λ b1. deliver pa b1.sent a1 >>= (λ a2. ok (a2, b1))))

unfoldable pub left : ℕ → Process → Process
left i s =
    send_delete_request_flow (s.fa.fais i).flow_object
      (record s { fa = record (change_alloc_status_of_fai i dealloc_pend s.fa) { events = [] } })

unpended : ℕ → Fa → Fa
unpended i s =
    emit (delete_flow_request (s.fais i).flow_object)
      (emit (bindings_deleted i) (change_alloc_status_of_fai i dealloc_pend s))

receive_deallocate_request-IsOwn :
    (i : ℕ) (st : AllocateStatus) (s : Fa)
    → IsOwn i st s
    → receive_deallocate_request (s.fais i).flow_object s ≡ ok (unpended i s, true)
unfolding receive_deallocate_request unpended deallocate_request delete_bindings emit
    change_alloc_status_of_fai
receive_deallocate_request-IsOwn i st s h =
    let t = change_alloc_status_of_fai i dealloc_pend s in
    let e : fai.receive_deallocate_request i t ≡ ok (deallocate_request i t) =
      unfold fai.receive_deallocate_request in
      guarded-IsOwn i dealloc_pend (deallocate_request i) t
        (changed_fai-IsOwn i st dealloc_pend s h) in
    ground (arith, found_own i st s h, h.its_fai, e)

pub leaves_lem :
    (i : ℕ) (st : AllocateStatus) (s : Process)
    → IsOwn i st s.fa
    → s.fa.events ≡ []
    → leaves i s ≡ ok (left i s)
unfolding leaves left flush on_events on_event emit unpended change_alloc_status_of_fai
leaves_lem i st s h e = ground (arith, receive_deallocate_request-IsOwn i st s.fa h, e)

-- The other side deletes its flow at the request.
unfoldable pub deleted : ℕ → FlowObject → Process → Process
deleted i g s =
    send_delete_response_flow (s.fa.fais i).flow_object
      (record s { fa = record (delete_request i g s.fa).0 { events = [] } })

flushed_delete :
    (i : ℕ) (g : FlowObject) (s : Process)
    → s.fa.events ≡ []
    → flush (record s { fa = (delete_request i g s.fa).0 }) ≡ deleted i g s
unfolding deleted flush on_events on_event delete_request emit delete_bindings set_flow
    change_alloc_status set_time_deleted
flushed_delete i g s e = ground (arith, e)

-- The first side hears that the flow is gone.
unfoldable pub gone : ℕ → Process → Process
gone i s = record s {
  fa = record (delete_response (s.fa.fais i).flow_object s.fa).0 { events = [] };
}

flushed_gone :
    (i : ℕ) (s : Process)
    → s.fa.events ≡ []
    → flush (record s { fa = (delete_response (s.fa.fais i).flow_object s.fa).0 }) ≡ gone i s
unfolding gone flush on_events on_event delete_response emit change_alloc_status set_time_deleted
flushed_gone i s e = ground (arith, e)

module _ (i : ℕ) where
  -- A request of the other side closes the flow.
  pub request-IsOwn :
      (g : FlowObject) (s : Fa) → IsOwn i transfer s → IsOwn i deallocated (delete_request i g s).0
  unfolding delete_request emit delete_bindings set_flow change_alloc_status set_time_deleted
  request-IsOwn g s h =
      let p = (s.fais i).flow_object in
      let t = change_alloc_status p dealloc_pend s in
      let f : FlowObject = record (s.flows p) { dealloc_invoke_id = g.dealloc_invoke_id } in
      let u = emit (deallocate_request_from_fai p) (set_flow p f t) in
      let v = emit (delete_flow_response p) (delete_bindings i u) in
      let w =
        same-IsOwn i dealloc_pend t v refl refl (λ j. refl) (set_at-src_port_id p f s.flows refl)
          (changed-IsOwn i transfer dealloc_pend s h) in
      deleted-IsOwn i deallocated (change_alloc_status p deallocated v)
        (changed-IsOwn i dealloc_pend deallocated v w)

  -- The answer of the other side closes it, too.
  pub response-IsOwn :
      (s : Fa)
      → IsOwn i dealloc_pend s
      → IsOwn i deallocated (delete_response (s.fais i).flow_object s).0
  unfolding delete_response emit set_time_deleted change_alloc_status
  response-IsOwn s h =
      let p = (s.fais i).flow_object in
      let t = emit (deallocate_request_from_fai p) s in
      deleted-IsOwn i deallocated (change_alloc_status p deallocated t) (
        changed-IsOwn i dealloc_pend deallocated t
          (same-IsOwn i dealloc_pend s t refl refl (λ j. refl) (λ q. refl) h))

  request-port_id : (g : FlowObject) (s : Fa) → port_id i (delete_request i g s).0 ≡ port_id i s
  unfolding delete_request emit delete_bindings set_flow change_alloc_status set_time_deleted
  request-port_id g s =
      let p = (s.fais i).flow_object in
      set_at-src_port_id p (record (s.flows p) { dealloc_invoke_id = g.dealloc_invoke_id }) s.flows
        refl p

  request_count : (g : FlowObject) (s : Fa) → (delete_request i g s).0.next_fai ≡ s.next_fai
  unfolding delete_request emit delete_bindings set_flow change_alloc_status set_time_deleted
  request_count g s = refl

  response-port_id : (s : Fa) → port_id i (delete_response (s.fais i).flow_object s).0 ≡ port_id i s
  unfolding delete_response emit set_time_deleted change_alloc_status
  response-port_id s = refl

  response_count : (s : Fa) → (delete_response (s.fais i).flow_object s).0.next_fai ≡ s.next_fai
  unfolding delete_response emit set_time_deleted change_alloc_status
  response_count s = refl

  other_request :
      (g : FlowObject) (j : ℕ) (s : Fa) → port_id j s ≢ g.src_port_id → lis_del_req g j s ≡ ok s
  unfolding lis_del_req is_own
  other_request g j s h = ground (arith, compare_port (s.flows (s.fais j).flow_object) g h)

  other_response :
      (g : FlowObject) (j : ℕ) (s : Fa) → port_id j s ≢ g.src_port_id → lis_del_res g j s ≡ ok s
  unfolding lis_del_res is_own
  other_response g j s h = ground (arith, compare_port (s.flows (s.fais j).flow_object) g h)

  request_heard :
      (g : FlowObject) (s : Fa)
      → IsOwn i transfer s
      → ends (s.flows (s.fais i).flow_object) ≡ ends g
      → each_fai s.next_fai (lis_del_req g) s ≡ ok ((delete_request i g s).0)
  unfolding lis_del_req is_own
  request_heard g s h c =
      let t = (delete_request i g s).0 in
      let mine : port_id i s ≡ g.src_port_id = ap Ends.src_port_id c in
      let u = request-IsOwn g s h in
      let r : receive_delete_request i g s ≡ ok (delete_request i g s) =
        unfold receive_delete_request in guarded-IsOwn i transfer (delete_request i g) s h in
      each_fai-own s.next_fai i (lis_del_req g) s t h.present
        (λ j l.
          other_request g j s
            (λ e. h.alone j (omega (arith, l, h.present)) (omega (arith, l)) (e ∙ sym mine)))
        (rw (ends-compare (s.flows (s.fais i).flow_object) g c) (rw r refl))
        (λ j l m. other_request g j t (λ e.
          u.alone j (omega (arith, l, request_count g s)) (omega (arith, m))
            (e ∙ sym mine ∙ sym (request-port_id g s))))

  response_heard :
      (g : FlowObject) (s : Fa)
      → IsOwn i dealloc_pend s
      → ends (s.flows (s.fais i).flow_object) ≡ ends g
      → each_fai s.next_fai (lis_del_res g) s ≡ ok ((delete_response (s.fais i).flow_object s).0)
  unfolding lis_del_res is_own
  response_heard g s h c =
      let t = (delete_response (s.fais i).flow_object s).0 in
      let mine : port_id i s ≡ g.src_port_id = ap Ends.src_port_id c in
      let u = response-IsOwn s h in
      let r : receive_delete_response i s ≡ ok (delete_response (s.fais i).flow_object s) =
        unfold receive_delete_response in
        guarded-IsOwn i dealloc_pend (delete_response (s.fais i).flow_object) s h in
      each_fai-own s.next_fai i (lis_del_res g) s t h.present
        (λ j l.
          other_response g j s
            (λ e. h.alone j (omega (arith, l, h.present)) (omega (arith, l)) (e ∙ sym mine)))
        (rw (ends-compare (s.flows (s.fais i).flow_object) g c) (rw r refl))
        (λ j l m. other_response g j t (λ e.
          u.alone j (omega (arith, l, response_count s)) (omega (arith, m))
            (e ∙ sym mine ∙ sym (response-port_id s))))

pub deletes_lem :
    (peers : Peers) (i : ℕ) (m : RibMessage) (f : FlowObject) (s : Process)
    → m.object ≡ m_delete f
    → IsOwn i transfer s.fa
    → s.fa.events ≡ []
    → ends (own_flow i s) ≡ ends (swap_flow (dup f))
    → receive_data peers m s ≡ ok (deleted i (swap_flow (dup f)) s)
unfolding receive_data receive_object process_m_delete own_flow
deletes_lem peers i m f s o h e c =
    let g = swap_flow (dup f) in
    rw o (rw (request_heard i g s.fa h c) (ap ok (flushed_delete i g s e)))

pub gone_lem :
    (peers : Peers) (i : ℕ) (m : RibMessage) (f : FlowObject) (s : Process)
    → m.object ≡ m_delete_r f
    → IsOwn i dealloc_pend s.fa
    → s.fa.events ≡ []
    → ends (own_flow i s) ≡ ends (swap_flow (dup f))
    → receive_data peers m s ≡ ok (gone i s)
unfolding receive_data receive_object process_m_delete_r own_flow
gone_lem peers i m f s o h e c =
    let g = swap_flow (dup f) in
    rw o (rw (response_heard i g s.fa h c) (ap ok (flushed_gone i s e)))
