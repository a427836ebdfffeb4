-- ===== src/Allocation/Ribd/Retry.antt =====
-- A repeated request for a flow: src/DIF/FA/FA.cc takes it for a duplicate.
use rinasim.Base.{
  ℕ, ◌<◌, ◌==◌, Bool, true, false, ◌≡◌, ◌≢◌, refl, ◌++◌, Bool-cases, inl, inr, eq→==, some, List,
  [], ◌∷◌, All, arith, ok, ne→==,
}
use rinasim.Allocation.{FlowObject, dup, swap_flow, swap_apni, swap_addresses, swap_port_ids}
use rinasim.Allocation.Table.{FaiTableEntry, Fa, set_at, set_flow, find_entry}
use rinasim.Allocation.Table.Find.{find_entry_by_invoke_id}
use rinasim.Allocation.Instance.{Peers}
use rinasim.Allocation.Allocator.{new_flow, is_duplicate, receive_create_flow_request_from_ribd}
use rinasim.Allocation.Accept.{set_at_same}
use rinasim.Allocation.Ribd.{
  m_create, RibMessage, Process, process_m_create, receive_object, receive_data, flush, on_events,
}

-- No entry points past the objects that there are.
unfoldable pub IsAllocated : ℕ → FaiTableEntry → Type 0
IsAllocated n e = e.flow < n

has_id : ℕ → (ℕ → FlowObject) → FaiTableEntry → Bool
has_id i flows e = (flows e.flow).alloc_invoke_id == i

-- A new object changes no search.
found_before :
    (i : ℕ) (f : FlowObject) (s : Fa) (es : List FaiTableEntry)
    → All (IsAllocated s.next_flow) es
    → find_entry (has_id i (set_at s.next_flow f s.flows)) es ≡ find_entry (has_id i s.flows) es
unfolding find_entry has_id set_at IsAllocated
found_before i f s [] h = refl
found_before i f s (e ∷ es) h =
    ground (arith, found_before i f s es h.1, ne→== e.flow s.next_flow (omega (arith, h.0)))

known_before :
    (peers : Peers) (f : FlowObject) (s : Fa) (e : FaiTableEntry)
    → All (IsAllocated s.next_flow) s.fai_table
    → find_entry_by_invoke_id f.alloc_invoke_id s ≡ some e
    → peers.is_app_local f.src_apni.ap_name ≡ false
    → let t = new_flow (swap_flow (dup f)) s in is_duplicate peers (t.flows s.next_flow) t ≡ true
unfolding is_duplicate find_entry_by_invoke_id new_flow set_flow dup swap_flow swap_port_ids
    swap_addresses swap_apni has_id
known_before peers f s e h k l = ground (
  arith,
  set_at_same s.next_flow (swap_flow (dup f)) s.flows,
  found_before f.alloc_invoke_id (swap_flow (dup f)) s s.fai_table h,
  k,
  l,
)

-- What the process holds then: one more object, to which nothing points.
repeated : FlowObject → Process → Process
repeated f s = record s { fa = record (new_flow (swap_flow (dup f)) s.fa) { events = [] } }

ignored :
    (peers : Peers) (f : FlowObject) (s : Fa) (e : FaiTableEntry)
    → All (IsAllocated s.next_flow) s.fai_table
    → find_entry_by_invoke_id f.alloc_invoke_id s ≡ some e
    → peers.is_app_local f.dst_apni.ap_name ≡ true
    → peers.is_app_local f.src_apni.ap_name ≡ false
    → process_m_create peers f s ≡ ok (new_flow (swap_flow (dup f)) s)
unfolding process_m_create receive_create_flow_request_from_ribd new_flow set_flow dup swap_flow
    swap_port_ids swap_addresses swap_apni
ignored peers f s e h k d l =
    ground (
      arith,
      set_at_same s.next_flow (swap_flow (dup f)) s.flows,
      known_before peers f s e h k l,
      d,
    )

-- An entry of the table that fits is enough for a search to find one.
found_among :
    (p : FaiTableEntry → Bool) (before : List FaiTableEntry) (e : FaiTableEntry)
    (after : List FaiTableEntry)
    → p e ≡ true
    → (x : FaiTableEntry) × (find_entry p (before ++ (e ∷ after)) ≡ some x)
unfolding find_entry
found_among p [] e after h = (e, ground (arith, h))
found_among p (b ∷ before) e after h = elim (Bool-cases (p b)) [
  | inl t ↦ (b, ground (arith, t))
  | inr n ↦ let r = found_among p before e after h in (r.0, ground (arith, n, r.1))
]

found_by_id :
    (i : ℕ) (s : Fa) (before : List FaiTableEntry) (e : FaiTableEntry) (after : List FaiTableEntry)
    → i ≢ 0
    → s.fai_table ≡ before ++ (e ∷ after)
    → (s.flows e.flow).alloc_invoke_id ≡ i
    → (x : FaiTableEntry) × (find_entry_by_invoke_id i s ≡ some x)
unfolding find_entry_by_invoke_id has_id
found_by_id i s before e after n t h =
    let r = found_among (has_id i s.flows) before e after (eq→== _ i h) in
    (r.0, ground (arith, n, t, r.1, ne→== i 0 n))

-- Where the application that is asked for is in this process and the one that asks is not, no signal
-- is left and the entries of the table point at flows that have been made: a request
-- with an invoke id, other than 0, that the flow of an entry of the table has, in whatever state that
-- entry is, changes no entry and no instance and gets no answer. So a process that was refused and
-- asks again, as its retry policy lets it, waits for nothing.
pub repeated_request_ignored :
    (peers : Peers) (m : RibMessage) (f : FlowObject) (s : Process) (before : List FaiTableEntry)
    (e : FaiTableEntry) (after : List FaiTableEntry)
    → m.object ≡ m_create f
    → s.fa.events ≡ []
    → All (IsAllocated s.fa.next_flow) s.fa.fai_table
    → f.alloc_invoke_id ≢ 0
    → s.fa.fai_table ≡ before ++ (e ∷ after)
    → (s.fa.flows e.flow).alloc_invoke_id ≡ f.alloc_invoke_id
    → peers.is_app_local f.dst_apni.ap_name ≡ true
    → peers.is_app_local f.src_apni.ap_name ≡ false
    → (t : Process) × (receive_data peers m s ≡ ok t)
      × (t.fa.fai_table ≡ s.fa.fai_table)
      × (t.fa.fais ≡ s.fa.fais)
      × (t.sent ≡ s.sent)
unfolding receive_data receive_object repeated flush on_events new_flow set_flow
repeated_request_ignored peers m f s before e after o v h z t k d l =
    let x = found_by_id f.alloc_invoke_id s.fa before e after z t k in
    (repeated f s, ground (arith, o, v, ignored peers f s.fa x.0 h x.1 d l), refl, refl, refl)
