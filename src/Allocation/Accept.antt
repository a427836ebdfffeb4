-- ===== src/Allocation/Accept.antt =====
-- A request for a flow reaches a process that has none: src/DIF/FA/FA.cc and FAI.cc.
use rinasim.Base.{
  ℕ, ◌+◌, Bool, true, false, ◌≡◌, refl, ap, ◌∙◌, some, List, [], ◌∷◌, ◌++◌, arith, ok, eq→==,
  string_key,
}
use rinasim.Allocation.{FlowObject, is_management_flow_local_to_ipcp}
use rinasim.Allocation.Mirror.{Ends, ends, same_flow_refl}
use rinasim.Allocation.Table.{
  alloc_pend, FaiTableEntry, Fai, allocation_request_from_fai, Fa, set_at, set_flow, emit,
  find_entry, write_entry, has_flow, find_entry_by_flow, new_entry, insert_new, set_status,
  change_alloc_status, set_fai_to_flow,
}
use rinasim.Allocation.Instance.{
  Peers, connects, is_bound, create_north_gates, create_request, receive_create_request,
}
use rinasim.Allocation.Allocator.{
  update_flow, new_fai, create_fai, update_fai, take_local_ids, take_remote_ids, mark_local,
  accept_create,
}
use rinasim.Allocation.Addresses.{get_address_from_da, set_dst_neighbor, set_neighbor_addresses}
use rinasim.Allocation.Own.{IsOwn, guarded-IsOwn}

-- The policy accepts each flow as it is, and its connection and its (N-1)-flow are there.
pub record IsWilling (peers : Peers) : Type 0 where
  pub agrees : (f : FlowObject) → peers.new_flow_request f ≡ (f, true)
  pub joins : (f : FlowObject) (i : Fai) → connects peers f i ≡ true
  pub binds : (f : FlowObject) (i : Fai) → is_bound peers f i ≡ true

set_dst_neighbor-ends :
    (peers : Peers) (m : Bool) (f : FlowObject) → ends (set_dst_neighbor peers m f) ≡ ends f
unfolding set_dst_neighbor
set_dst_neighbor-ends peers m f = ground arith

pub set_neighbor_addresses-ends :
    (peers : Peers) (f : FlowObject) → ends (set_neighbor_addresses peers f) ≡ ends f
unfolding set_neighbor_addresses
set_neighbor_addresses-ends peers f =
    let src =
      get_address_from_da peers f.src_apni.ap_name true (is_management_flow_local_to_ipcp f) in
    let g : FlowObject = record f { src_neighbor = src } in
    ground (
      arith,
      set_dst_neighbor-ends peers true f,
      set_dst_neighbor-ends peers (is_management_flow_local_to_ipcp f) f,
      set_dst_neighbor-ends peers (is_management_flow_local_to_ipcp f) g,
    )

set_dst_neighbor-flag :
    (peers : Peers) (m : Bool) (f : FlowObject)
    → (set_dst_neighbor peers m f).is_management_flow ≡ f.is_management_flow
unfolding set_dst_neighbor
set_dst_neighbor-flag peers m f = ground arith

pub set_neighbor_addresses-flag :
    (peers : Peers) (f : FlowObject)
    → (set_neighbor_addresses peers f).is_management_flow ≡ f.is_management_flow
unfolding set_neighbor_addresses
set_neighbor_addresses-flag peers f =
    let src =
      get_address_from_da peers f.src_apni.ap_name true (is_management_flow_local_to_ipcp f) in
    let g : FlowObject = record f { src_neighbor = src } in
    ground (
      arith,
      set_dst_neighbor-flag peers true f,
      set_dst_neighbor-flag peers (is_management_flow_local_to_ipcp f) f,
      set_dst_neighbor-flag peers (is_management_flow_local_to_ipcp f) g,
    )

create_fai-only :
    (peers : Peers) (q : ℕ) (e : FaiTableEntry) (s : Fa)
    → s.fai_table ≡ e ∷ []
    → e.flow ≡ q
    → create_fai peers q s
      ≡ ok (record s {
        fais = set_at s.next_fai (new_fai q (peers.draw s.next_fai)) s.fais;
        next_fai = s.next_fai + 1;
        fai_table = record e { fai = some s.next_fai; alloc_status = alloc_pend } ∷ [];
      })
unfolding create_fai set_fai_to_flow find_entry_by_flow find_entry write_entry has_flow
    change_alloc_status set_status
create_fai-only peers q e s t f = ground (arith, t, f, same_flow_refl (s.flows q))

unfoldable pub registered : Peers → ℕ → Fa → Fa
registered peers q s = record s {
  flows = set_at q (set_neighbor_addresses peers (s.flows q)) s.flows;
  fais = set_at 0 (new_fai q (peers.draw 0)) s.fais;
  next_fai = 1;
  fai_table =
      record {
        fai = some 0;
        flow = q;
        alloc_status = alloc_pend;
        time_created = s.sim_time;
        time_deleted = 0;
      }
      ∷ [];
}

unfoldable pub taken : Peers → ℕ → Fa → Fa
taken peers q s =
    let u = registered peers q s in take_local_ids 0 q (take_remote_ids 0 (u.flows q) u)

inserted-only :
    (peers : Peers) (q : ℕ) (s : Fa)
    → s.fai_table ≡ []
    → s.next_fai ≡ 0
    → create_fai peers q (
        change_alloc_status q alloc_pend
          (update_flow q (set_neighbor_addresses peers) (insert_new q s)))
      ≡ ok (registered peers q s)
unfolding registered update_flow insert_new set_flow new_entry change_alloc_status write_entry
    has_flow set_status
inserted-only peers q s t n =
    let e = new_entry q s.sim_time in
    let s0 = update_flow q (set_neighbor_addresses peers) (insert_new q s) in
    let tab : s0.fai_table ≡ e ∷ [] = ap (λ (l : List FaiTableEntry). l ++ (e ∷ [])) t in
    simp (tab) (
      ground (
        arith,
        n,
        same_flow_refl (s0.flows q),
        create_fai-only peers q (set_status alloc_pend e)
            (record s0 { fai_table = set_status alloc_pend e ∷ [] }) refl refl,
      ))

unfoldable pub accepted : Peers → ℕ → Fa → Fa
accepted peers q s =
    let t = taken peers q s in
    emit (allocation_request_from_fai q) (create_north_gates 0 (set_flow q (t.flows q) t))

pub set_at_same {ℓ} : {A : Type ℓ} (p : ℕ) (v : A) (f : ℕ → A) → set_at p v f p ≡ v
unfolding set_at
set_at_same p v f = ground (arith, eq→== p p refl)

pub registered-flow :
    (peers : Peers) (q : ℕ) (s : Fa)
    → (registered peers q s).flows q ≡ set_neighbor_addresses peers (s.flows q)
unfolding registered
registered-flow peers q s = set_at_same q (set_neighbor_addresses peers (s.flows q)) s.flows

registered-remote :
    (peers : Peers) (q : ℕ) (s : Fa)
    → peers.is_app_local (s.flows q).dst_apni.ap_name ≡ false
    → mark_local peers 0 q (registered peers q s) ≡ registered peers q s
unfolding mark_local
registered-remote peers q s l =
    let e = ap (λ (x : Ends). x.dst_apni.ap_name) (set_neighbor_addresses-ends peers (s.flows q)) in
    rw (registered-flow peers q s) (rw e (rw l refl))

pub taken-IsOwn : (peers : Peers) (q : ℕ) (s : Fa) → IsOwn 0 alloc_pend (taken peers q s)
unfolding taken registered take_local_ids take_remote_ids update_fai update_flow set_flow new_fai
    set_at
taken-IsOwn peers q s = record {
  before = [];
  entry = _;
  after = [];
  table = refl;
  its_flow = refl;
  its_status = refl;
  its_fai = refl;
  apart = tt;
  present = omega arith;
  alone = λ j l n e. absurd (n (omega (arith, l)));
}

pub taken_flow : (peers : Peers) (q : ℕ) (s : Fa) → ((taken peers q s).fais 0).flow_object ≡ q
unfolding taken registered take_local_ids take_remote_ids update_fai update_flow set_flow new_fai
    set_at
taken_flow peers q s = refl

taken-requests :
    (peers : Peers) (q : ℕ) (s : Fa)
    → IsWilling peers
    → receive_create_request peers 0 (taken peers q s) ≡ ok (accepted peers q s, true)
unfolding receive_create_request create_request accepted
taken-requests peers q s w =
    guarded-IsOwn 0 alloc_pend (create_request peers 0) (taken peers q s) (taken-IsOwn peers q s)
    ∙ rw (taken_flow peers q s) (rw (w.agrees ((taken peers q s).flows q)) refl)

pub accept_create-only :
    (peers : Peers) (q : ℕ) (s : Fa)
    → IsWilling peers
    → s.fai_table ≡ []
    → s.next_fai ≡ 0
    → peers.is_app_local (s.flows q).dst_apni.ap_name ≡ false
    → accept_create peers q s ≡ ok (accepted peers q s, true)
unfolding accept_create
accept_create-only peers q s w t n l =
    let r = taken-requests peers q s w in
    unfold taken in
    rw (inserted-only peers q s t n) (simp (n) (rw (registered-remote peers q s l) r))
