-- ===== src/Allocation/Table.antt =====
-- src/DIF/FA/FAITable.cc and FAITableEntry.cc: the table of the flow allocator's instances, and the
-- state of the allocator that the handlers change.
use Prim.Native.String.{String}
use rinasim.Base.{
  ℕ, suc, ◌+◌, ◌==◌, Bool, true, false, ◌&&◌, not, if◌then◌else◌, Option, none, some, List, [], ◌∷◌,
  ◌++◌, keep, string_key, Result, ok, err, null_entry,
}
use rinasim.Efcp.Pdu.{Address}
use rinasim.Routing.{address_key}
use rinasim.Allocation.{
  FlowObject, same_flow, same_bool, get_apname, is_management_flow_local_to_ipcp,
}
pub mod Find
pub mod Laws

pub data AllocateStatus : Type 0 where
  unknown alloc_pend transfer alloc_nega alloc_err forwarding forwarded dealloc_pend deallocated
        deinst_pend deinstantiated :
      AllocateStatus

abbrev pub status_number : AllocateStatus → ℕ
status_number unknown = 0
status_number alloc_pend = 1
status_number transfer = 2
status_number alloc_nega = 3
status_number alloc_err = 4
status_number forwarding = 5
status_number forwarded = 6
status_number dealloc_pend = 7
status_number deallocated = 8
status_number deinst_pend = 9
status_number deinstantiated = 10

unfoldable pub same_status : AllocateStatus → AllocateStatus → Bool
same_status a b = status_number a == status_number b

-- A flow is a pointer to an object that the table, the instances and the RIB daemon share.
pub record FaiTableEntry : Type 0 where
  pub fai : Option ℕ
  pub flow : ℕ
  pub alloc_status : AllocateStatus
  pub time_created : ℕ
  pub time_deleted : ℕ

pub record Fai : Type 0 where
  pub flow_object : ℕ
  pub degenerate_data_transfer : Bool
  pub local_port_id : ℕ
  pub local_cep_id : ℕ
  pub remote_port_id : ℕ
  pub remote_cep_id : ℕ

-- What the allocator and its instances signal, and what they do with gates and connections.
pub data Event : Type 0 where
  create_flow_request create_flow_response_positive create_flow_response_negative
        delete_flow_request delete_flow_response allocation_request_from_fai
        deallocate_request_from_fai allocate_response_positive allocate_response_negative
        allocate_finish_management create_flow_request_forward create_response_negative_from_fa :
      ℕ → Event
  north_gates bindings_deleted : ℕ → Event
  pend_flows_timer : Event

-- The objects by their pointers, the next free pointers, the table, the flows that wait for a
-- management flow, and what has been signalled, oldest first.
pub record Fa : Type 0 where
  pub flows : ℕ → FlowObject
  pub next_flow : ℕ
  pub fais : ℕ → Fai
  pub next_fai : ℕ
  pub fai_table : List FaiTableEntry
  pub pending_flows : List ℕ
  pub events : List Event
  pub sim_time : ℕ

unfoldable pub set_at {ℓ} : {A : Type ℓ} → ℕ → A → (ℕ → A) → ℕ → A
set_at p v f q = if q == p then v else f q

unfoldable pub set_flow : ℕ → FlowObject → Fa → Fa
set_flow p f s = record s { flows = set_at p f s.flows }

unfoldable pub emit : Event → Fa → Fa
emit e s = record s { events = s.events ++ (e ∷ []) }

-- The searches return the first entry that fits.
unfoldable pub find_entry : (FaiTableEntry → Bool) → List FaiTableEntry → Option FaiTableEntry
find_entry p [] = none
find_entry p (e ∷ es) = let rest = find_entry p es in if p e then some e else rest

-- A write through the pointer that a search returned.
unfoldable pub write_entry :
    (FaiTableEntry → Bool)
    → (FaiTableEntry → FaiTableEntry)
    → List FaiTableEntry
    → List FaiTableEntry
write_entry p g [] = []
write_entry p g (e ∷ es) = let rest = write_entry p g es in if p e then g e ∷ es else e ∷ rest

-- Flows are told apart by what they hold, not by their pointers.
unfoldable pub has_flow : FlowObject → (ℕ → FlowObject) → FaiTableEntry → Bool
has_flow f flows e = same_flow (flows e.flow) f

unfoldable pub find_entry_by_flow : ℕ → Fa → Option FaiTableEntry
find_entry_by_flow p s = find_entry (has_flow (s.flows p) s.flows) s.fai_table

unfoldable pub has_fai : ℕ → FaiTableEntry → Bool
has_fai i e = elim e.fai [ none ↦ false | some j ↦ j == i ]

unfoldable pub find_entry_by_fai : ℕ → Fa → Option FaiTableEntry
find_entry_by_fai i s = find_entry (has_fai i) s.fai_table

unfoldable pub new_entry : ℕ → ℕ → FaiTableEntry
new_entry p now = record {
  fai = none;
  flow = p;
  alloc_status = unknown;
  time_created = now;
  time_deleted = 0;
}

unfoldable pub insert_new : ℕ → Fa → Fa
insert_new p s = record s { fai_table = s.fai_table ++ (new_entry p s.sim_time ∷ []) }

unfoldable pub same_pointer : Option ℕ → Option ℕ → Bool
same_pointer none none = true
same_pointer none (some j) = false
same_pointer (some i) none = false
same_pointer (some i) (some j) = i == j

-- `FAITableEntry::operator==`.
unfoldable pub same_entry : FaiTableEntry → FaiTableEntry → Bool
same_entry a b =
    same_pointer a.fai b.fai
    && (a.flow == b.flow)
    && same_status a.alloc_status b.alloc_status
    && (a.time_created == b.time_created)

-- `list::remove` takes out every entry that equals the one found.
unfoldable pub remove_by_flow : ℕ → Fa → Fa
remove_by_flow p s = elim (find_entry_by_flow p s) [
  | none ↦ s
  | some e ↦ record s { fai_table = keep (λ (x : FaiTableEntry). not (same_entry x e)) s.fai_table }
]

unfoldable pub set_status : AllocateStatus → FaiTableEntry → FaiTableEntry
set_status st e = record e { alloc_status = st }

-- Both do nothing where the search finds nothing.
unfoldable pub change_alloc_status : ℕ → AllocateStatus → Fa → Fa
change_alloc_status p st s = record s {
  fai_table = write_entry (has_flow (s.flows p) s.flows) (set_status st) s.fai_table;
}

unfoldable pub change_alloc_status_of_fai : ℕ → AllocateStatus → Fa → Fa
change_alloc_status_of_fai i st s = record s {
  fai_table = write_entry (has_fai i) (set_status st) s.fai_table;
}

unfoldable pub set_time_deleted : ℕ → Fa → Fa
set_time_deleted p s = record s {
  fai_table =
      write_entry (has_flow (s.flows p) s.flows)
        (λ (e : FaiTableEntry). record e { time_deleted = s.sim_time }) s.fai_table;
}

-- The entry that it finds is not looked at before the write.
unfoldable pub set_fai_to_flow : ℕ → ℕ → Fa → Result Fa
set_fai_to_flow i p s = elim (find_entry_by_flow p s) [
  | none ↦ err null_entry
  | some _ ↦ ok (record s {
    fai_table =
        write_entry (has_flow (s.flows p) s.flows)
          (λ (e : FaiTableEntry). record e { fai = some i }) s.fai_table;
  })
]
