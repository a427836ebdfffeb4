-- ===== src/Allocation/Ribd/Teardown.antt =====
-- A flow between two processes is taken down: src/DIF/RIB/RIBd.cc and src/DIF/FA/FAI.cc.
use rinasim.Base.{ℕ, ◌≡◌, refl, ap, sym, ◌∙◌, [], ◌∷◌, ◌++◌, ok}
use rinasim.Allocation.{
  FlowObject, dup, swap_flow, swap_apni, swap_addresses, swap_port_ids, swap_cep_ids,
}
use rinasim.Allocation.Mirror.{ends, ends-swap_flow, ends-dup, swap_flow-swap_flow}
use rinasim.Allocation.Table.{
  transfer, dealloc_pend, deallocated, set_flow, emit, change_alloc_status,
  change_alloc_status_of_fai, set_time_deleted,
}
use rinasim.Allocation.Instance.{Peers, delete_bindings, delete_request, delete_response}
use rinasim.Allocation.Allocator.{update_flow}
use rinasim.Allocation.Accept.{set_at_same}
use rinasim.Allocation.Own.{IsOwn, changed_fai-IsOwn, same-IsOwn, set_at-src_port_id}
use rinasim.Allocation.Ribd.{
  RibMessage, m_delete, m_delete_r, Process, receive_data, send_delete_request_flow,
  send_delete_response_flow, signalize_send_data, needs_id, id_or_new,
}
use rinasim.Allocation.Ribd.Steps.{IsSpecified, deliver, own_flow}
use rinasim.Allocation.Ribd.Leave.{
  teardown, left, leaves_lem, deleted, deletes_lem, gone, gone_lem, request-IsOwn, response-IsOwn,
}
use rinasim.Allocation.Ribd.Setup.{IsIdle}

-- The flow of the request, with its invoke id.
unfoldable pub leaving : ℕ → Process → FlowObject
leaving i s = record (own_flow i s) {
  dealloc_invoke_id = id_or_new (own_flow i s).dealloc_invoke_id s;
}

left-IsOwn : (i : ℕ) (s : Process) → IsOwn i transfer s.fa → IsOwn i dealloc_pend (left i s).fa
unfolding left send_delete_request_flow signalize_send_data needs_id update_flow set_flow id_or_new
    change_alloc_status_of_fai
left-IsOwn i s h =
    let p = (s.fa.fais i).flow_object in
    let f = s.fa.flows p in
    same-IsOwn i dealloc_pend (change_alloc_status_of_fai i dealloc_pend s.fa) (left i s).fa refl
      refl (λ j. refl)
      (set_at-src_port_id p (record f { dealloc_invoke_id = id_or_new f.dealloc_invoke_id s })
        s.fa.flows refl)
      (changed_fai-IsOwn i transfer dealloc_pend s.fa h)

left_flow : (i : ℕ) (s : Process) → own_flow i (left i s) ≡ leaving i s
unfolding left send_delete_request_flow signalize_send_data needs_id update_flow set_flow own_flow
    leaving id_or_new change_alloc_status_of_fai
left_flow i s = set_at_same (s.fa.fais i).flow_object (leaving i s) s.fa.flows

delete_of : ℕ → Process → RibMessage
delete_of i s = record {
  dst_addr = (own_flow i s).dst_addr;
  invoke_id = (leaving i s).dealloc_invoke_id;
  object = m_delete (leaving i s);
}

left_sends :
    (i : ℕ) (s : Process)
    → IsSpecified (own_flow i s).dst_addr
    → (left i s).sent ≡ s.sent ++ (delete_of i s ∷ [])
unfolding left send_delete_request_flow signalize_send_data needs_id own_flow leaving id_or_new
    delete_of change_alloc_status_of_fai
left_sends i s d = rw d refl

deleting : ℕ → FlowObject → Process → FlowObject
deleting i g s = record (own_flow i s) { dealloc_invoke_id = g.dealloc_invoke_id }

deleted_flow : (i : ℕ) (g : FlowObject) (s : Process) → own_flow i (deleted i g s) ≡ deleting i g s
unfolding deleted send_delete_response_flow signalize_send_data delete_request emit delete_bindings
    set_flow change_alloc_status set_time_deleted own_flow deleting
deleted_flow i g s = set_at_same (s.fa.fais i).flow_object (deleting i g s) s.fa.flows

answer_of : ℕ → FlowObject → Process → RibMessage
answer_of i g s = record {
  dst_addr = (own_flow i s).dst_addr;
  invoke_id = g.dealloc_invoke_id;
  object = m_delete_r (deleting i g s);
}

deleted_sends :
    (i : ℕ) (g : FlowObject) (s : Process)
    → IsSpecified (own_flow i s).dst_addr
    → (deleted i g s).sent ≡ s.sent ++ (answer_of i g s ∷ [])
unfolding deleted send_delete_response_flow signalize_send_data delete_request emit delete_bindings
    set_flow change_alloc_status set_time_deleted own_flow deleting answer_of
deleted_sends i g s d =
    rw (set_at_same (s.fa.fais i).flow_object (deleting i g s) s.fa.flows) (rw d refl)

closed-IsOwn :
    (i : ℕ) (g : FlowObject) (s : Process)
    → IsOwn i transfer s.fa
    → IsOwn i deallocated (deleted i g s).fa
unfolding deleted send_delete_response_flow signalize_send_data
closed-IsOwn i g s h =
    same-IsOwn i deallocated (delete_request i g s.fa).0 (deleted i g s).fa refl refl (λ j. refl)
      (λ q. refl) (request-IsOwn i g s.fa h)

gone-IsOwn : (i : ℕ) (s : Process) → IsOwn i dealloc_pend s.fa → IsOwn i deallocated (gone i s).fa
unfolding gone
gone-IsOwn i s h =
    same-IsOwn i deallocated (delete_response (s.fa.fais i).flow_object s.fa).0 (gone i s).fa refl
      refl (λ j. refl) (λ q. refl) (response-IsOwn i s.fa h)

leaving-ends : (i : ℕ) (s : Process) → ends (leaving i s) ≡ ends (own_flow i s)
unfolding leaving
leaving-ends i s = refl

deleting-ends : (i : ℕ) (g : FlowObject) (s : Process) → ends (deleting i g s) ≡ ends (own_flow i s)
unfolding deleting
deleting-ends i g s = refl

-- Both flows are closed, and with them one invoke id.
pub record IsDown (i j : ℕ) (r : Process × Process) : Type 0 where
  pub first : IsOwn i deallocated r.0.fa
  pub second : IsOwn j deallocated r.1.fa
  pub one_id : (own_flow j r.1).dealloc_invoke_id ≡ (own_flow i r.0).dealloc_invoke_id

module _ (i j : ℕ) (a b : Process) where
  request_flow : FlowObject
  request_flow = swap_flow (dup (leaving i a))

  second_deleted : Process
  second_deleted = deleted j request_flow b

  request-mirror :
      ends (own_flow i a) ≡ ends (swap_flow (own_flow j b))
      → ends (own_flow j b) ≡ ends request_flow
  unfolding request_flow
  request-mirror m = sym (
      ends-swap_flow (dup (leaving i a)) (swap_flow (own_flow j b))
        (ends-dup (leaving i a) ∙ leaving-ends i a ∙ m)
      ∙ ap ends (swap_flow-swap_flow (own_flow j b)))

  answer-mirror :
      ends (own_flow i a) ≡ ends (swap_flow (own_flow j b))
      → ends (own_flow i (left i a)) ≡ ends (swap_flow (dup (deleting j request_flow b)))
  answer-mirror m =
      ap ends (left_flow i a)
      ∙ leaving-ends i a
      ∙ m
      ∙ sym (
          ends-swap_flow (dup (deleting j request_flow b)) (own_flow j b)
            (ends-dup (deleting j request_flow b) ∙ deleting-ends j request_flow b))

  left_deleted :
      (pb : Peers)
      → IsIdle j transfer b
      → ends (own_flow i a) ≡ ends (swap_flow (own_flow j b))
      → receive_data pb (delete_of i a) b ≡ ok second_deleted
  unfolding second_deleted request_flow delete_of
  left_deleted pb ib m =
      deletes_lem pb j (delete_of i a) (leaving i a) b refl ib.only ib.no_event (request-mirror m)

  left_gone :
      (pa : Peers)
      → IsIdle i transfer a
      → ends (own_flow i a) ≡ ends (swap_flow (own_flow j b))
      → receive_data pa (answer_of j request_flow b) (left i a) ≡ ok (gone i (left i a))
  unfolding answer_of left send_delete_request_flow signalize_send_data needs_id update_flow
      set_flow
  left_gone pa ia m =
      gone_lem pa i (answer_of j request_flow b) (deleting j request_flow b) (left i a) refl
        (left-IsOwn i a ia.only) refl (answer-mirror m)

  teardown_lem :
      (pa pb : Peers)
      → IsIdle i transfer a
      → IsIdle j transfer b
      → IsSpecified (own_flow i a).dst_addr
      → IsSpecified (own_flow j b).dst_addr
      → ends (own_flow i a) ≡ ends (swap_flow (own_flow j b))
      → teardown pa pb i a b ≡ ok (gone i (left i a), second_deleted)
  unfolding teardown deliver second_deleted
  teardown_lem pa pb ia ib u v m = rw (leaves_lem i transfer a ia.only ia.no_event) (
      simp (left_sends i a u, ia.none_sent)
        (rw (left_deleted pb ib m)
          (simp (deleted_sends j request_flow b v, ib.none_sent) (rw (left_gone pa ia m) refl))))

  closed_id :
      (own_flow j second_deleted).dealloc_invoke_id
      ≡ (own_flow i (gone i (left i a))).dealloc_invoke_id
  unfolding second_deleted gone delete_response emit set_time_deleted change_alloc_status own_flow
      deleting request_flow swap_flow swap_apni swap_addresses swap_port_ids swap_cep_ids dup
  closed_id =
      ap (λ (f : FlowObject). f.dealloc_invoke_id) (deleted_flow j request_flow b)
      ∙ sym (ap (λ (f : FlowObject). f.dealloc_invoke_id) (left_flow i a))

-- Where the flows of an instance of each of two processes are one seen from its two sides, with
-- specified addresses, both transfer, and nothing is left to send or to signal, the messages that follow when one side gives its flow up
-- close both, under one invoke id. Each process may have other flows, with other local ports.
pub teardown-IsDown :
    (pa pb : Peers) (i j : ℕ) (a b : Process)
    → IsIdle i transfer a
    → IsIdle j transfer b
    → IsSpecified (own_flow i a).dst_addr
    → IsSpecified (own_flow j b).dst_addr
    → ends (own_flow i a) ≡ ends (swap_flow (own_flow j b))
    → (r : Process × Process) × (teardown pa pb i a b ≡ ok r) × IsDown i j r
unfolding second_deleted
teardown-IsDown pa pb i j a b ia ib u v m = (
  (gone i (left i a), second_deleted i j a b),
  teardown_lem i j a b pa pb ia ib u v m,
  record {
    first = gone-IsOwn i (left i a) (left-IsOwn i a ia.only);
    second = closed-IsOwn j (request_flow i j a b) b ib.only;
    one_id = closed_id i j a b;
  },
)
