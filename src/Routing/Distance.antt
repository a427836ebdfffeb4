-- ===== src/Routing/Distance.antt =====
-- src/policies/DIF/Routing/SimpleRouting/SimpleDV/SimpleDV.cc: the distance vector policy.
use Prim.Native.String.{String}
use rinasim.Base.{
  ℕ, ◌+◌, ◌%◌, Bool, true, false, not, ◌||◌, Option, none, some, List, [], ◌∷◌, ◌++◌, ltb, leb,
  ◌==◌, if◌then◌else◌, Key, string_key, pair_key, Map, Set, lookup, put, erase, at_key, add,
  is_empty,
}
use rinasim.Efcp.Pdu.{Address}
use rinasim.Routing.{EntType, QosPaddr, Entries2Next, address_key}
pub mod Routes
pub mod Invariant
pub mod Relax
pub mod Reported
pub mod Hops
pub mod Lost
pub mod Changes

abbrev uint16_max : ℕ
uint16_max = 65535

-- `unsigned short`.
unfoldable pub u16 : ℕ → ℕ
u16 n = n % 65536

pub record RtEntry : Type 0 where
  pub addr : String
  pub metric : ℕ

unfoldable pub no_entry : RtEntry
no_entry = record { addr = ""; metric = uint16_max }

abbrev pub Table : Type 0
Table = Map String RtEntry

pub record RoutingUpdate : Type 0 where
  pub destination : Address
  pub src : String
  pub qos : String
  pub entries : List RtEntry

pub record SimpleDv : Type 0 where
  pub inf_metric : ℕ
  pub my_addr : String
  pub neig : Map String (Map Address ℕ)
  pub table : Map String Table
  pub changes : Entries2Next
  pub scheduled_update : Bool

-- `table[qos]`.
unfoldable pub table_of : String → SimpleDv → Table
table_of qos s = at_key [] qos s.table

unfoldable pub set_table : String → Table → SimpleDv → SimpleDv
set_table qos t s = record s { table = put qos t s.table }

unfoldable pub report : QosPaddr → EntType → SimpleDv → SimpleDv
report k et s = record s { changes = put k et s.changes }

unfoldable pub schedule_update : SimpleDv → SimpleDv
schedule_update s = record s { scheduled_update = true }

-- `entType` as its constructor leaves it.
unfoldable pub unset : EntType
unset = record { metric = none; nh = [] }

unfoldable pub unreachable : ℕ → EntType
unreachable inf = record { metric = some inf; nh = [] }

unfoldable pub via : String → ℕ → EntType
via hop metric = record { metric = some metric; nh = add hop [] }

-- How an entry stands after a look at a new one.
pub record Merged : Type 0 where
  pub entry : RtEntry
  pub entry_changed_dst : Bool
  pub chan : Bool

unfoldable pub kept : RtEntry → Merged
kept e = record { entry = e; entry_changed_dst = false; chan = false }

unfoldable pub with_metric : ℕ → RtEntry → Merged
with_metric metric e = record {
  entry = record e { metric = metric };
  entry_changed_dst = false;
  chan = true;
}

unfoldable pub moved : String → ℕ → Merged
moved hop metric = record {
  entry = record { addr = hop; metric = metric };
  entry_changed_dst = true;
  chan = true;
}

-- The test of `insertFlow`: the new flow wins where the metrics are the same.
unfoldable pub merge_flow : String → ℕ → RtEntry → Merged
merge_flow dst metric old =
    if string_key.same old.addr dst
    then if old.metric == metric then kept old else with_metric metric old
    else if leb metric old.metric
    then moved dst metric
    else kept old

-- The test of `processUpdate`: the old entry wins where the metrics are the same.
unfoldable pub merge_update : String → ℕ → RtEntry → Merged
merge_update src metric old =
    if string_key.same old.addr src
    then if old.metric == metric then kept old else with_metric metric old
    else if ltb metric old.metric
    then moved src metric
    else kept old

-- The entry is erased where its metric is infinite.
unfoldable pub store : ℕ → String → RtEntry → Table → Table
store inf dst e t = if leb inf e.metric then erase dst t else put dst e t

-- What `insertFlow` reports: where the next hop is new, with the infinite metric.
unfoldable pub flow_change : ℕ → String → Merged → EntType
flow_change inf dst m =
    if leb inf m.entry.metric
    then unreachable inf
    else if m.entry_changed_dst
    then via dst inf
    else unset

unfoldable pub add_neighbour :
    Address → String → ℕ → Map String (Map Address ℕ) → Map String (Map Address ℕ)
add_neighbour addr qos metric neig = put qos (put addr metric (at_key [] qos neig)) neig

unfoldable pub insert_entry : String → String → ℕ → SimpleDv → SimpleDv
insert_entry dst qos metric s =
    let t = table_of qos s in
    let m = merge_flow dst metric (at_key no_entry dst t) in
    report (qos, dst) (flow_change s.inf_metric dst m)
      (set_table qos (store s.inf_metric dst m.entry t) s)

unfoldable pub insert_flow : Address → String → String → ℕ → SimpleDv → SimpleDv
insert_flow addr dst qos metric s =
    schedule_update
      (insert_entry dst qos metric (record s { neig = add_neighbour addr qos metric s.neig }))

unfoldable pub remove_neighbour :
    Address → String → Map String (Map Address ℕ) → Map String (Map Address ℕ)
remove_neighbour addr qos neig =
    let others = erase addr (at_key [] qos neig) in
    if is_empty others then erase qos neig else put qos others neig

-- The loop of `removeFlow`: the entries whose next hop is the lost neighbour go,
unfoldable pub without_hop : String → Table → Table
without_hop dst [] = []
without_hop dst ((d, e) ∷ t) =
    let rest = without_hop dst t in if string_key.same e.addr dst then rest else (d, e) ∷ rest

-- and for each of them the next hop is reported as unreachable.
unfoldable pub report_hop : ℕ → String → String → Table → Entries2Next → Entries2Next
report_hop inf qos dst [] changes = changes
report_hop inf qos dst ((d, e) ∷ t) changes =
    report_hop inf qos dst t
      (if string_key.same e.addr dst then put (qos, e.addr) (unreachable inf) changes else changes)

unfoldable pub remove_entries : String → String → SimpleDv → SimpleDv
remove_entries dst qos s =
    let t = table_of qos s in
    set_table qos (without_hop dst t)
      (record s { changes = report_hop s.inf_metric qos dst t s.changes })

unfoldable pub remove_flow : Address → String → String → SimpleDv → SimpleDv
remove_flow addr dst qos s =
    schedule_update (remove_entries dst qos (record s { neig = remove_neighbour addr qos s.neig }))

unfoldable pub get_changes : SimpleDv → Entries2Next × SimpleDv
get_changes s = (s.changes, record s { changes = [] })

unfoldable pub known_entry : ℕ → RtEntry → EntType
known_entry inf e = if ltb e.metric inf then via e.addr e.metric else unreachable inf

unfoldable pub all_of_qos : ℕ → String → Table → Entries2Next → Entries2Next
all_of_qos inf qos [] ret = ret
all_of_qos inf qos ((d, e) ∷ t) ret = all_of_qos inf qos t (put (qos, d) (known_entry inf e) ret)

unfoldable pub all_from : ℕ → Map String Table → Entries2Next → Entries2Next
all_from inf [] ret = ret
all_from inf ((qos, t) ∷ ts) ret = all_from inf ts (all_of_qos inf qos t ret)

unfoldable pub get_all : SimpleDv → Entries2Next
get_all s = all_from s.inf_metric s.table []

unfoldable pub report_merged : String → String → String → Merged → SimpleDv → SimpleDv
report_merged qos src dst m s =
    if leb s.inf_metric m.entry.metric
    then report (qos, dst) (unreachable s.inf_metric) s
    else if m.entry_changed_dst
    then report (qos, dst) (via src m.entry.metric) s
    else s

-- One round of the loop of `processUpdate`.
unfoldable pub process_entry : String → String → RtEntry → SimpleDv → SimpleDv
process_entry qos src new s =
    let t = table_of qos s in
    let m = merge_update src new.metric (at_key no_entry new.addr t) in
    if string_key.same new.addr s.my_addr
    then s
    else report_merged qos src new.addr m (set_table qos (store s.inf_metric new.addr m.entry t) s)

-- The flag `chan` after that round.
unfoldable pub entry_chan : String → String → RtEntry → SimpleDv → Bool
entry_chan qos src new s =
    let m = merge_update src new.metric (at_key no_entry new.addr (table_of qos s)) in
    if string_key.same new.addr s.my_addr then false else m.chan || leb s.inf_metric m.entry.metric

unfoldable pub process_entries : String → String → List RtEntry → SimpleDv → SimpleDv
process_entries qos src [] s = s
process_entries qos src (e ∷ es) s = process_entries qos src es (process_entry qos src e s)

unfoldable pub entries_chan : String → String → List RtEntry → SimpleDv → Bool
entries_chan qos src [] s = false
entries_chan qos src (e ∷ es) s =
    entry_chan qos src e s || entries_chan qos src es (process_entry qos src e s)

unfoldable pub process_foreign : RoutingUpdate → SimpleDv → SimpleDv
process_foreign up s =
    let t = process_entries up.qos up.src up.entries s in
    if entries_chan up.qos up.src up.entries s then schedule_update t else t

-- The new state, and whether the generator is to be told.
unfoldable pub process_update : RoutingUpdate → SimpleDv → SimpleDv × Bool
process_update up s =
    let t = process_foreign up s in
    if string_key.same up.src s.my_addr then (s, false) else (t, not (is_empty t.changes))

-- The entries of an update to a neighbour: the neighbour's metric is added as an `unsigned short`.
unfoldable pub offered : ℕ → Table → List RtEntry
offered cost [] = []
offered cost ((d, e) ∷ t) = (record { addr = d; metric = u16 (e.metric + cost) }) ∷ offered cost t

unfoldable pub update_to : SimpleDv → String → Address → ℕ → RoutingUpdate
update_to s qos neighbour cost = record {
  destination = neighbour;
  src = s.my_addr;
  qos = qos;
  entries = offered cost (table_of qos s) ++ ((record { addr = s.my_addr; metric = cost }) ∷ []);
}

unfoldable pub updates_of_qos : SimpleDv → String → Map Address ℕ → List RoutingUpdate
updates_of_qos s qos [] = []
updates_of_qos s qos ((a, cost) ∷ ns) = update_to s qos a cost ∷ updates_of_qos s qos ns

unfoldable pub updates_from : SimpleDv → Map String (Map Address ℕ) → List RoutingUpdate
updates_from s [] = []
updates_from s ((qos, ns) ∷ more) = updates_of_qos s qos ns ++ updates_from s more

-- `table[qos]` alone makes an empty table where there is none.
unfoldable pub touch_tables : Map String (Map Address ℕ) → SimpleDv → SimpleDv
touch_tables [] s = s
touch_tables ((qos, ns) ∷ more) s = touch_tables more (set_table qos (table_of qos s) s)

-- The timer: the updates that are sent, and the state after it.
unfoldable pub handle_message : SimpleDv → List RoutingUpdate × SimpleDv
handle_message s =
    (updates_from s s.neig, record (touch_tables s.neig s) { scheduled_update = false })
