-- ===== src/Allocation/Ribd/Sides.antt =====
-- What the steps of a setup leave of each side: src/DIF/RIB/RIBd.cc and src/DIF/FA/FAI.cc.
use rinasim.Base.{ℕ, true, ◌≡◌, refl, ap, ◌∙◌, [], ◌∷◌, ◌++◌, arith, eq→==, string_key}
use rinasim.Allocation.{
  FlowObject, dup, swap_flow, swap_apni, swap_addresses, swap_port_ids, swap_cep_ids,
}
use rinasim.Allocation.Mirror.{Ends, ends}
use rinasim.Allocation.Table.{alloc_pend, transfer, Fa, set_at, set_flow, emit, change_alloc_status}
use rinasim.Allocation.Instance.{
  Peers, take_remote, create_north_gates, receive_create_response_positive,
}
use rinasim.Allocation.Allocator.{
  update_flow, new_flow, take_local_ids, take_remote_ids, update_fai, new_fai,
}
use rinasim.Allocation.Addresses.{set_neighbor_addresses}
use rinasim.Allocation.Accept.{
  set_neighbor_addresses-ends, set_neighbor_addresses-flag, registered, taken, accepted,
  set_at_same, taken_flow, taken-IsOwn,
}
use rinasim.Allocation.Own.{IsOwn, changed-IsOwn, same-IsOwn, set_at-src_port_id}
use rinasim.Allocation.Ribd.{
  RibMessage, m_create, m_create_r, Process, id_or_new, send_create_request_flow,
  send_create_response, signalize_send_data, needs_id, has_ids,
}
use rinasim.Allocation.Ribd.Hears.{settled}
use rinasim.Allocation.Ribd.Steps.{
  IsSpecified, own_flow, named, asked, arrived, received, accepted_side,
}

-- The flow of the second process, from that of the request.
unfoldable pub local_end : FlowObject → ℕ × ℕ → FlowObject
local_end f ids = record f { src_port_id = ids.0; con_id = record f.con_id { src_cep_id = ids.1 } }

pub mirrored :
    (n f : FlowObject) (ids : ℕ × ℕ)
    → ends f ≡ ends (local_end (swap_flow (dup n)) ids)
    → ends (take_remote n (swap_flow (dup f))) ≡ ends (swap_flow f)
unfolding swap_flow swap_apni swap_addresses swap_port_ids swap_cep_ids dup take_remote local_end
mirrored n f ids h = ground (
  arith,
  ap Ends.src_apni h,
  ap Ends.dst_apni h,
  ap Ends.src_port_id h,
  ap Ends.dst_port_id h,
  ap Ends.src_addr h,
  ap Ends.dst_addr h,
  ap Ends.con_id h,
)

taken-flow :
    (peers : Peers) (q : ℕ) (s : Fa)
    → (taken peers q s).flows q
      ≡ local_end (set_neighbor_addresses peers (s.flows q)) (peers.draw 0)
unfolding taken take_local_ids take_remote_ids update_fai update_flow set_flow new_fai local_end
    set_at registered
taken-flow peers q s = ground (arith, eq→== q q refl)

-- The flow of the second process, seen as the request describes it.
arrived-ends :
    (peers : Peers) (n : FlowObject) (s : Fa)
    → ends ((arrived peers n s).flows s.next_flow)
      ≡ ends (local_end (swap_flow (dup n)) (peers.draw 0))
unfolding arrived accepted new_flow emit create_north_gates set_flow local_end
arrived-ends peers n s =
    let t = new_flow (swap_flow (dup n)) s in
    let e = set_neighbor_addresses-ends peers (swap_flow (dup n)) in
    ground (
      arith,
      set_at_same s.next_flow ((taken peers s.next_flow t).flows s.next_flow)
          (taken peers s.next_flow t).flows,
      set_at_same s.next_flow (swap_flow (dup n)) s.flows,
      taken-flow peers s.next_flow t,
      ap Ends.src_apni e,
      ap Ends.dst_apni e,
      ap Ends.dst_port_id e,
      ap Ends.src_addr e,
      ap Ends.dst_addr e,
      ap Ends.con_id e,
    )

arrived-flag :
    (peers : Peers) (n : FlowObject) (s : Fa)
    → ((arrived peers n s).flows s.next_flow).is_management_flow ≡ n.is_management_flow
unfolding arrived accepted new_flow emit create_north_gates set_flow local_end swap_flow swap_apni
    swap_addresses swap_port_ids dup
arrived-flag peers n s =
    let t = new_flow (swap_flow (dup n)) s in
    ground (
      arith,
      set_at_same s.next_flow ((taken peers s.next_flow t).flows s.next_flow)
          (taken peers s.next_flow t).flows,
      set_at_same s.next_flow (swap_flow (dup n)) s.flows,
      ap (λ (f : FlowObject). f.is_management_flow) (taken-flow peers s.next_flow t),
      set_neighbor_addresses-flag peers (t.flows s.next_flow),
    )

unfoldable pub request_of : ℕ → Process → RibMessage
request_of i a = record {
  dst_addr = (own_flow i a).dst_neighbor;
  invoke_id = (named i a).alloc_invoke_id;
  object = m_create (named i a);
}

pub asked_sends :
    (i : ℕ) (a : Process)
    → IsSpecified (own_flow i a).dst_neighbor
    → (asked i a).sent ≡ a.sent ++ (request_of i a ∷ [])
unfolding asked send_create_request_flow signalize_send_data needs_id named own_flow request_of
    id_or_new
asked_sends i a d = rw (set_at_same (a.fa.fais i).flow_object (own_flow i a) a.fa.flows) (rw d refl)

unfoldable pub response_of : ℕ → Process → RibMessage
response_of i b = record {
  dst_addr = (own_flow i b).dst_addr;
  invoke_id = (own_flow i b).alloc_invoke_id;
  object = m_create_r true (own_flow i b);
}

pub accepted_sends :
    (i : ℕ) (b : Process)
    → IsSpecified (own_flow i b).dst_addr
    → (accepted_side i b).sent ≡ b.sent ++ (response_of i b ∷ [])
unfolding accepted_side send_create_response signalize_send_data own_flow change_alloc_status
    response_of
accepted_sends i b d = rw d refl

pub asked_flow : (i : ℕ) (a : Process) → own_flow i (asked i a) ≡ named i a
unfolding asked send_create_request_flow signalize_send_data needs_id update_flow set_flow own_flow
    named id_or_new
asked_flow i a =
    let p = (a.fa.fais i).flow_object in
    rw (set_at_same p (own_flow i a) a.fa.flows)
      (set_at_same p (named i a) (set_at p (own_flow i a) a.fa.flows))

pub asked-IsOwn :
    (i : ℕ) (a : Process) → IsOwn i alloc_pend a.fa → IsOwn i alloc_pend (asked i a).fa
unfolding asked send_create_request_flow signalize_send_data needs_id update_flow set_flow own_flow
    id_or_new
asked-IsOwn i a h =
    let p = (a.fa.fais i).flow_object in
    let f = own_flow i a in
    let flows = set_at p f a.fa.flows in
    same-IsOwn i alloc_pend a.fa (asked i a).fa refl refl (λ j. refl)
      (λ q.
        set_at-src_port_id p
          (record (flows p) { alloc_invoke_id = id_or_new (flows p).alloc_invoke_id a }) flows refl
          q
        ∙ set_at-src_port_id p f a.fa.flows refl q)
      h

-- The second process has accepted, and its flow transfers.
pub accepted-IsOwn :
    (i : ℕ) (b : Process) → IsOwn i alloc_pend b.fa → IsOwn i transfer (accepted_side i b).fa
unfolding accepted_side send_create_response signalize_send_data
accepted-IsOwn i b h = changed-IsOwn i alloc_pend transfer b.fa h

pub settled_flow :
    (i : ℕ) (g : FlowObject) (a : Process)
    → own_flow i (settled i g a) ≡ take_remote (own_flow i a) g
unfolding settled receive_create_response_positive emit set_flow own_flow change_alloc_status set_at
settled_flow i g a =
    ground (arith, eq→== i i refl, eq→== (a.fa.fais i).flow_object (a.fa.fais i).flow_object refl)

pub received-IsOwn :
    (peers : Peers) (f : FlowObject) (s : Process) → IsOwn 0 alloc_pend (received peers f s).fa
unfolding received arrived accepted emit create_north_gates set_flow
received-IsOwn peers f s =
    let t = taken peers s.fa.next_flow (new_flow (swap_flow (dup f)) s.fa) in
    same-IsOwn 0 alloc_pend t (received peers f s).fa refl refl (λ j. refl)
      (set_at-src_port_id s.fa.next_flow (t.flows s.fa.next_flow) t.flows refl)
      (taken-IsOwn peers s.fa.next_flow (new_flow (swap_flow (dup f)) s.fa))

arrived_owner :
    (peers : Peers) (n : FlowObject) (s : Fa)
    → ((arrived peers n s).fais 0).flow_object ≡ s.next_flow
unfolding arrived accepted emit create_north_gates set_flow
arrived_owner peers n s = taken_flow peers s.next_flow (new_flow (swap_flow (dup n)) s)

pub received-ends :
    (peers : Peers) (n : FlowObject) (s : Process)
    → ends (own_flow 0 (received peers n s)) ≡ ends (local_end (swap_flow (dup n)) (peers.draw 0))
unfolding received own_flow
received-ends peers n s =
    ap (λ (p : ℕ). ends ((arrived peers n s.fa).flows p)) (arrived_owner peers n s.fa)
    ∙ arrived-ends peers n s.fa

pub received-flag :
    (peers : Peers) (n : FlowObject) (s : Process)
    → (own_flow 0 (received peers n s)).is_management_flow ≡ n.is_management_flow
unfolding received own_flow
received-flag peers n s =
    ap (λ (p : ℕ). ((arrived peers n s.fa).flows p).is_management_flow) (arrived_owner peers n s.fa)
    ∙ arrived-flag peers n s.fa

-- The answer carries the ids of the instance that asked.
pub answer-has_ids :
    (i : ℕ) (n f : FlowObject) (ids : ℕ × ℕ) (a : Process)
    → own_flow i a ≡ n
    → ends f ≡ ends (local_end (swap_flow (dup n)) ids)
    → has_ids (swap_flow (dup f)) i a.fa ≡ true
unfolding has_ids own_flow local_end swap_flow swap_apni swap_addresses swap_port_ids swap_cep_ids
    dup
answer-has_ids i n f ids a e h = ground (
  arith,
  e,
  ap FlowObject.src_port_id e,
  ap (λ (x : FlowObject). x.con_id.src_cep_id) e,
  ap Ends.dst_port_id h,
  ap (λ (x : Ends). x.con_id.dst_cep_id) h,
)

pub accepted_flow : (i : ℕ) (b : Process) → own_flow i (accepted_side i b) ≡ own_flow i b
unfolding accepted_side send_create_response signalize_send_data own_flow change_alloc_status
accepted_flow i b = refl
