-- ===== src/Allocation/Allocator/Hops.antt =====
-- How far a request for a flow is forwarded: src/DIF/FA/FA.cc, where the destination is another
-- process.
use rinasim.Base.{
  ℕ, suc, ◌<◌, ◌==◌, Bool, true, false, ◌≡◌, refl, ap, Option, none, some, List, [], ◌∷◌, arith,
  sub32, sub32_small, u32_mod, eq→==, Option-cases, ◌⊎◌, inl, inr,
}
use rinasim.Allocation.{
  FlowObject, dup, swap_flow, swap_apni, swap_addresses, swap_port_ids,
  is_management_flow_local_to_ipcp,
}
use rinasim.Allocation.Table.{
  Event, create_flow_request_forward, Fa, set_at, set_flow, emit, insert_new, change_alloc_status,
}
use rinasim.Allocation.Instance.{Peers}
use rinasim.Allocation.Allocator.{
  update_flow, new_flow, count_hop, receive_nm1_flow_created, forward_create,
}
use rinasim.Allocation.Addresses.{get_address_from_da, set_dst_neighbor, set_neighbor_addresses}

-- The flow of the request that a process sends on, if its last signal is that.
unfoldable pub sent_on : List Event → (ℕ → FlowObject) → Option FlowObject
sent_on (create_flow_request_forward q ∷ []) flows = some (flows q)
sent_on _ flows = none

-- A request reaches a process that is not its destination, and that has no signal left to give.
unfoldable pub pass_on : Peers → FlowObject → Fa → Option FlowObject
pass_on peers f s =
    let t = record (new_flow (swap_flow (dup f)) s) { events = [] } in
    let r = (forward_create peers s.next_flow t).0 in sent_on r.events r.flows

-- The number of processes, one after the other, that send the request on.
unfoldable pub hops : List (Peers × Fa) → FlowObject → ℕ
hops [] f = 0
hops ((peers, s) ∷ ps) f = elim (pass_on peers f s) [ none ↦ 0 | some g ↦ suc (hops ps g) ]

set_dst_neighbor-hops :
    (peers : Peers) (m : Bool) (f : FlowObject)
    → (set_dst_neighbor peers m f).hop_count ≡ f.hop_count
unfolding set_dst_neighbor
set_dst_neighbor-hops peers m f = ground arith

set_neighbor_addresses-hops :
    (peers : Peers) (f : FlowObject) → (set_neighbor_addresses peers f).hop_count ≡ f.hop_count
unfolding set_neighbor_addresses
set_neighbor_addresses-hops peers f =
    let m = is_management_flow_local_to_ipcp f in
    let src = get_address_from_da peers f.src_apni.ap_name true m in
    let g : FlowObject = record f { src_neighbor = src } in
    ground (
      arith,
      set_dst_neighbor-hops peers true f,
      set_dst_neighbor-hops peers m f,
      set_dst_neighbor-hops peers m g,
    )

set_at_same {ℓ} : {A : Type ℓ} (p : ℕ) (v : A) (f : ℕ → A) → set_at p v f p ≡ v
unfolding set_at
set_at_same p v f = ground (arith, eq→== p p refl)

-- The flow as it is counted.
counted : Peers → ℕ → Fa → FlowObject
counted peers p s = count_hop (set_neighbor_addresses peers (swap_flow (s.flows p)))

counted-hops :
    (peers : Peers) (p : ℕ) (s : Fa) → (counted peers p s).hop_count ≡ sub32 (s.flows p).hop_count 1
unfolding counted count_hop swap_flow swap_port_ids swap_addresses swap_apni
counted-hops peers p s =
    ap (λ (n : ℕ). sub32 n 1) (set_neighbor_addresses-hops peers (swap_flow (s.flows p)))

-- What is sent on is a copy of that, with the neighbours set once more.
sent_on-forward :
    (peers : Peers) (p : ℕ) (s : Fa)
    → s.events ≡ []
    → (sent_on (forward_create peers p s).0.events (forward_create peers p s).0.flows ≡ none)
      ⊎ ((sent_on (forward_create peers p s).0.events (forward_create peers p s).0.flows
            ≡ some (set_neighbor_addresses peers (dup (counted peers p s))))
          × (((counted peers p s).hop_count == 0) ≡ false))
unfolding forward_create receive_nm1_flow_created update_flow new_flow set_flow emit insert_new
    change_alloc_status sent_on counted
sent_on-forward peers p s e =
    let q = s.next_flow in
    let f1 = set_at p (swap_flow (s.flows p)) s.flows in
    let f2 = set_at p (set_neighbor_addresses peers (f1 p)) f1 in
    let f3 = set_at p (count_hop (f2 p)) f2 in
    let f4 = set_at q (dup (f3 p)) f3 in
    ground (
      arith,
      e,
      set_at_same p (swap_flow (s.flows p)) s.flows,
      set_at_same p (set_neighbor_addresses peers (f1 p)) f1,
      set_at_same p (count_hop (f2 p)) f2,
      set_at_same q (dup (f3 p)) f3,
      set_at_same q (set_neighbor_addresses peers (f4 q)) f4,
    )

-- The request that reaches a process.
reached : FlowObject → Fa → Fa
reached f s = record (new_flow (swap_flow (dup f)) s) { events = [] }

reached-hops : (f : FlowObject) (s : Fa) → ((reached f s).flows s.next_flow).hop_count ≡ f.hop_count
unfolding reached new_flow set_flow dup swap_flow swap_port_ids swap_addresses swap_apni
reached-hops f s =
    ap (λ (x : FlowObject). x.hop_count) (set_at_same s.next_flow (swap_flow (dup f)) s.flows)

dup-hops :
    (peers : Peers) (f : FlowObject)
    → (set_neighbor_addresses peers (dup f)).hop_count ≡ f.hop_count
unfolding dup
dup-hops peers f = set_neighbor_addresses-hops peers (dup f)

pass_on-hops :
    (peers : Peers) (f g : FlowObject) (s : Fa)
    → 0 < f.hop_count
    → f.hop_count < u32_mod
    → pass_on peers f s ≡ some g
    → (suc g.hop_count ≡ f.hop_count) × (0 < g.hop_count)
unfolding pass_on reached
pass_on-hops peers f g s z b h =
    let t = reached f s in
    let c = counted peers s.next_flow t in
    let n = counted-hops peers s.next_flow t in
    let w = sub32_small f.hop_count 1 z b in
    elim (sent_on-forward peers s.next_flow t refl) [
      | inl stops ↦ ground (arith, h, stops)
      | inr (goes, left) ↦
          ground (arith, h, goes, left, n, w, reached-hops f s, dup-hops peers c, z)
    ]

-- A request for a flow is sent on by fewer processes than its hop count says, whatever the
-- processes that it reaches.
pub hops_bounded :
    (ps : List (Peers × Fa)) (f : FlowObject)
    → 0 < f.hop_count
    → f.hop_count < u32_mod
    → hops ps f < f.hop_count
unfolding hops
hops_bounded [] f z b = z
hops_bounded ((peers, s) ∷ ps) f z b = elim (Option-cases (pass_on peers f s)) [
  | inl n ↦ ground (arith, n, z)
  | inr (g, e) ↦
      let step = pass_on-hops peers f g s z b e in
      ground (arith, e, step.0, hops_bounded ps g step.1 (omega (arith, step.0, b)))
]
