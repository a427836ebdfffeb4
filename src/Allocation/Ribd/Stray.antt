-- ===== src/Allocation/Ribd/Stray.antt =====
-- What src/DIF/FA/FAI.cc and FA.cc do at an answer or a call that comes out of turn, and where the
-- (N-1)-flow is not ready yet.
use rinasim.Base.{ℕ, true, false, ◌≡◌, refl, ◌∙◌, [], ◌∷◌, ◌++◌, arith, ok}
use rinasim.Allocation.{FlowObject, dup, swap_flow}
use rinasim.Allocation.Table.{AllocateStatus, alloc_pend, transfer, Fa, emit, change_alloc_status}
use rinasim.Allocation.Instance.{
  Peers, connects, is_bound, allocate_positive, receive_allocate_response_positive,
  receive_create_flow_response_positive_from_nminus_one,
}
use rinasim.Allocation.Own.{IsOwn, guarded-IsOwn, changed-IsOwn, same-IsOwn}
use rinasim.Allocation.Ribd.{
  RibMessage, m_create, m_create_r, Process, receive_data, has_ids, flush, on_events, on_event,
  send_create_request_flow, signalize_send_data, needs_id, id_or_new,
}
use rinasim.Allocation.Ribd.Hears.{is_from_above, settled, settles_lem, settled-IsOwn}
use rinasim.Allocation.Ribd.Steps.{IsSpecified, accepts, own_flow}

-- In a process with any number of flows and no signal left: a positive answer with the ids of an instance, for a
-- management flow or for one that an application asked for and not the process itself, brings the
-- flow of that instance to the transfer state from every state, also from one that is refused or
-- closed. The local port of the instance is that of no other instance and of no entry before its own.
pub stray_answer_revives :
    (peers : Peers) (i : ℕ) (m : RibMessage) (f : FlowObject) (st : AllocateStatus) (s : Process)
    → m.object ≡ m_create_r true f
    → IsOwn i st s.fa
    → s.fa.events ≡ []
    → has_ids (swap_flow (dup f)) i s.fa ≡ true
    → is_from_above peers (swap_flow (dup f)) ≡ false
    → (t : Process) × (receive_data peers m s ≡ ok t) × IsOwn i transfer t.fa
stray_answer_revives peers i m f st s o h e k n = (
  settled i (swap_flow (dup f)) s,
  settles_lem peers i m f st s o h e k n,
  settled-IsOwn i (swap_flow (dup f)) st s h,
)

unbound_positive :
    (peers : Peers) (i : ℕ) (s : Fa)
    → IsOwn i alloc_pend s
    → let p = (s.fais i).flow_object in
      connects peers (s.flows p) (s.fais i) ≡ true
      → is_bound peers (s.flows p) (s.fais i) ≡ false
      → receive_allocate_response_positive peers i s ≡ ok (change_alloc_status p transfer s, true)
unfolding receive_allocate_response_positive allocate_positive
unbound_positive peers i s h c b =
    guarded-IsOwn i alloc_pend (allocate_positive peers i) s h ∙ ground (arith, c, b)

-- What the second process does once the flow below is there.
unfoldable pub bound_later : ℕ → Process → Process
bound_later i s =
    flush (record s { fa = receive_create_flow_response_positive_from_nminus_one i s.fa })

transferring : ℕ → Process → Process
transferring i s = record s {
  fa = record (change_alloc_status (s.fa.fais i).flow_object transfer s.fa) { events = [] };
}

accepts_unbound :
    (peers : Peers) (i : ℕ) (s : Process)
    → IsOwn i alloc_pend s.fa
    → s.fa.events ≡ []
    → connects peers (own_flow i s) (s.fa.fais i) ≡ true
    → is_bound peers (own_flow i s) (s.fa.fais i) ≡ false
    → accepts peers i s ≡ ok (transferring i s)
unfolding accepts transferring flush on_events change_alloc_status own_flow
accepts_unbound peers i s h e c b = ground (arith, unbound_positive peers i s.fa h c b, e)

-- The request for a flow, with an invoke id, to the neighbour that leads to its destination.
pub request_for : ℕ → Process → RibMessage
request_for i s = record {
  dst_addr = (own_flow i s).dst_neighbor;
  invoke_id = id_or_new (own_flow i s).alloc_invoke_id s;
  object =
      m_create
        (record (own_flow i s) { alloc_invoke_id = id_or_new (own_flow i s).alloc_invoke_id s });
}

later :
    (i : ℕ) (s : Process)
    → IsSpecified (own_flow i s).dst_neighbor
    → (bound_later i (transferring i s)).sent ≡ s.sent ++ (request_for i s ∷ [])
unfolding bound_later transferring flush on_events on_event emit send_create_request_flow
    signalize_send_data needs_id id_or_new receive_create_flow_response_positive_from_nminus_one
    change_alloc_status request_for own_flow
later i s d = rw d refl

-- Where the flow of an instance is pending, no signal is left and its connection is made, but it has no
-- (N-1)-flow when the application accepts it, it transfers but the process sends no
-- answer; once the (N-1)-flow is there it sends one message to the neighbour of the flow, if that is
-- specified: M_CREATE, a request for the flow, and not M_CREATE_R, the answer. The process may have
-- other flows, with other local ports.
pub unbound_sends_request :
    (peers : Peers) (i : ℕ) (s : Process)
    → IsOwn i alloc_pend s.fa
    → s.fa.events ≡ []
    → connects peers (own_flow i s) (s.fa.fais i) ≡ true
    → is_bound peers (own_flow i s) (s.fa.fais i) ≡ false
    → IsSpecified (own_flow i s).dst_neighbor
    → (t : Process) × (accepts peers i s ≡ ok t)
      × IsOwn i transfer t.fa
      × (t.sent ≡ s.sent)
      × ((bound_later i t).sent ≡ s.sent ++ (request_for i s ∷ []))
unfolding transferring change_alloc_status
unbound_sends_request peers i s h e c b d = (
  transferring i s,
  accepts_unbound peers i s h e c b,
  same-IsOwn i transfer (change_alloc_status (s.fa.fais i).flow_object transfer s.fa)
      (transferring i s).fa refl refl (λ j. refl) (λ q. refl)
      (changed-IsOwn i alloc_pend transfer s.fa h),
  refl,
  later i s d,
)
