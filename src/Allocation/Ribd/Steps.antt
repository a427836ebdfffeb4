-- ===== src/Allocation/Ribd/Steps.antt =====
-- The calls and messages that set a flow up, as the handlers of src/DIF/RIB/RIBd.cc and
-- src/DIF/FA/FAI.cc answer them.
use rinasim.Base.{
  ℕ, true, false, ◌≡◌, refl, ◌∙◌, List, [], ◌∷◌, arith, Result, ok, ◌>>=◌, string_key,
}
use rinasim.Efcp.Pdu.{Address}
use rinasim.Routing.{address_key}
use rinasim.Allocation.{
  unspecified_address, FlowObject, dup, swap_flow, swap_apni, swap_addresses, swap_port_ids,
}
use rinasim.Allocation.Table.{
  alloc_pend, transfer, create_flow_request, create_flow_response_positive, Fa, set_at, set_flow,
  emit, find_entry, change_alloc_status,
}
use rinasim.Allocation.Table.Find.{find_entry_by_invoke_id}
use rinasim.Allocation.Instance.{
  Peers, allocate_request, receive_allocate_request, allocate_positive,
  receive_allocate_response_positive, create_north_gates,
}
use rinasim.Allocation.Allocator.{
  update_flow, new_flow, update_fai, take_local_ids, take_remote_ids, is_duplicate,
  receive_create_flow_request_from_ribd,
}
use rinasim.Allocation.Accept.{
  IsWilling, registered, taken, accepted, set_at_same, accept_create-only,
}
use rinasim.Allocation.Own.{IsOwn, guarded-IsOwn}
use rinasim.Allocation.Ribd.{
  m_create, RibMessage, Process, id_or_new, send_create_request_flow, send_create_response,
  on_event, on_events, flush, process_m_create, receive_object, receive_data,
}

-- The daemon sends nothing to an address that is not specified.
abbrev pub IsSpecified : Address → Type 0
IsSpecified a = address_key.same a unspecified_address ≡ false

-- An instance is told to ask the other process.
unfoldable pub asks : Peers → ℕ → Process → Result Process
asks peers i s = receive_allocate_request peers i s.fa >>= (λ r. ok (flush (record s { fa = r.0 })))

-- The application accepts the flow.
unfoldable pub accepts : Peers → ℕ → Process → Result Process
accepts peers i s =
    receive_allocate_response_positive peers i s.fa >>= (λ r. ok (flush (record s { fa = r.0 })))

unfoldable pub deliver : Peers → List RibMessage → Process → Result Process
deliver peers [] s = ok s
deliver peers (m ∷ ms) s = receive_data peers m s >>= deliver peers ms

unfoldable pub setup : Peers → Peers → ℕ → ℕ → Process → Process → Result (Process × Process)
setup pa pb i j a b = asks pa i a >>= (λ a1.
    deliver pb a1.sent b >>= accepts pb j >>= (λ b1. deliver pa b1.sent a1 >>= (λ a2. ok (a2, b1))))

unfoldable pub own_flow : ℕ → Process → FlowObject
own_flow i s = s.fa.flows (s.fa.fais i).flow_object

unfoldable pub named : ℕ → Process → FlowObject
named i s = record (own_flow i s) { alloc_invoke_id = id_or_new (own_flow i s).alloc_invoke_id s }

unfoldable pub asked : ℕ → Process → Process
unfolding own_flow
asked i s = send_create_request_flow (s.fa.fais i).flow_object (record s {
  fa = record s.fa {
    flows = set_at (s.fa.fais i).flow_object (own_flow i s) s.fa.flows;
    events = [];
  };
})

receive_allocate_request-IsOwn :
    (peers : Peers) (i : ℕ) (s : Fa)
    → IsWilling peers
    → IsOwn i alloc_pend s
    → let p = (s.fais i).flow_object in
      receive_allocate_request peers i s
      ≡ ok (emit (create_flow_request p) (set_flow p (s.flows p) s), true)
unfolding receive_allocate_request allocate_request set_flow
receive_allocate_request-IsOwn peers i s w h =
    let f = s.flows (s.fais i).flow_object in
    guarded-IsOwn i alloc_pend (allocate_request peers i) s h
    ∙ ground (arith, w.agrees f, w.joins f (s.fais i), w.binds f (s.fais i))

pub asks_lem :
    (peers : Peers) (i : ℕ) (s : Process)
    → IsWilling peers
    → IsOwn i alloc_pend s.fa
    → s.fa.events ≡ []
    → asks peers i s ≡ ok (asked i s)
unfolding asks asked flush on_events on_event emit set_flow own_flow
asks_lem peers i s w h e = ground (arith, receive_allocate_request-IsOwn peers i s.fa w h, e)

-- What the second process holds when a request for a flow has come.
unfoldable pub arrived : Peers → FlowObject → Fa → Fa
arrived peers f s = accepted peers s.next_flow (new_flow (swap_flow (dup f)) s)

unknown_flow :
    (peers : Peers) (f : FlowObject) (s : Fa) → s.fai_table ≡ [] → is_duplicate peers f s ≡ false
unfolding is_duplicate find_entry_by_invoke_id find_entry
unknown_flow peers f s t = ground (arith, t)

requested-only :
    (peers : Peers) (q : ℕ) (s : Fa)
    → IsWilling peers
    → s.fai_table ≡ []
    → s.next_fai ≡ 0
    → peers.is_app_local (s.flows q).src_apni.ap_name ≡ true
    → peers.is_app_local (s.flows q).dst_apni.ap_name ≡ false
    → receive_create_flow_request_from_ribd peers q s ≡ ok (accepted peers q s, true)
unfolding receive_create_flow_request_from_ribd
requested-only peers q s w t n d l =
    rw d (rw (unknown_flow peers (s.flows q) s t) (accept_create-only peers q s w t n l))

process_m_create-only :
    (peers : Peers) (f : FlowObject) (s : Fa)
    → IsWilling peers
    → s.fai_table ≡ []
    → s.next_fai ≡ 0
    → peers.is_app_local f.dst_apni.ap_name ≡ true
    → peers.is_app_local f.src_apni.ap_name ≡ false
    → process_m_create peers f s ≡ ok (arrived peers f s)
unfolding process_m_create new_flow arrived set_flow dup swap_flow swap_port_ids swap_addresses
    swap_apni
process_m_create-only peers f s w t n d l =
    let g = swap_flow (dup f) in
    let e = set_at_same s.next_flow g s.flows in
    let d' : peers.is_app_local ((new_flow g s).flows s.next_flow).src_apni.ap_name ≡ true =
      rw e d in
    let l' : peers.is_app_local ((new_flow g s).flows s.next_flow).dst_apni.ap_name ≡ false =
      rw e l in
    rw (requested-only peers s.next_flow (new_flow g s) w t n d' l') refl

unfoldable pub received : Peers → FlowObject → Process → Process
received peers f s = record s { fa = record (arrived peers f s.fa) { events = [] } }

flushed :
    (peers : Peers) (q : ℕ) (s : Process)
    → s.fa.events ≡ []
    → ◌≡◌ {A = Result Process}
        (ok (flush (record s { fa = accepted peers q s.fa })))
        (ok (record s { fa = record (accepted peers q s.fa) { events = [] } }))
unfolding flush on_events on_event accepted create_north_gates emit set_flow taken take_local_ids
    take_remote_ids update_fai update_flow registered
flushed peers q s e = ground (arith, e)

pub arrives_lem :
    (peers : Peers) (m : RibMessage) (f : FlowObject) (s : Process)
    → IsWilling peers
    → m.object ≡ m_create f
    → s.fa.fai_table ≡ []
    → s.fa.next_fai ≡ 0
    → s.fa.events ≡ []
    → peers.is_app_local f.dst_apni.ap_name ≡ true
    → peers.is_app_local f.src_apni.ap_name ≡ false
    → receive_data peers m s ≡ ok (received peers f s)
unfolding receive_data receive_object received arrived new_flow set_flow
arrives_lem peers m f s w o t n e d l = rw o (
    rw (process_m_create-only peers f s.fa w t n d l)
      (flushed peers s.fa.next_flow (record s { fa = new_flow (swap_flow (dup f)) s.fa }) e))

unfoldable pub accepted_side : ℕ → Process → Process
unfolding own_flow
accepted_side i s =
    let p = (s.fa.fais i).flow_object in
    send_create_response true p (record s { fa = change_alloc_status p transfer s.fa })

receive_allocate_response_positive-IsOwn :
    (peers : Peers) (i : ℕ) (s : Fa)
    → IsWilling peers
    → IsOwn i alloc_pend s
    → let p = (s.fais i).flow_object in
      receive_allocate_response_positive peers i s
      ≡ ok (emit (create_flow_response_positive p) (change_alloc_status p transfer s), true)
unfolding receive_allocate_response_positive allocate_positive
receive_allocate_response_positive-IsOwn peers i s w h =
    let f = s.flows (s.fais i).flow_object in
    guarded-IsOwn i alloc_pend (allocate_positive peers i) s h
    ∙ ground (arith, w.joins f (s.fais i), w.binds f (s.fais i))

pub accepts_lem :
    (peers : Peers) (i : ℕ) (s : Process)
    → IsWilling peers
    → IsOwn i alloc_pend s.fa
    → s.fa.events ≡ []
    → accepts peers i s ≡ ok (accepted_side i s)
unfolding accepts accepted_side flush on_events on_event emit change_alloc_status
accepts_lem peers i s w h e =
    ground (arith, receive_allocate_response_positive-IsOwn peers i s.fa w h, e)
