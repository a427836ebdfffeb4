-- ===== src/Routing/LinkState.antt =====
-- src/policies/DIF/Routing/SimpleRouting/SimpleLS/SimpleLS.cc: how the link state policy collects
-- and spreads the links of the processes.
use Prim.Native.String.{String}
use rinasim.Base.{
  ℕ, ◌+◌, Bool, true, false, not, Option, none, some, List, [], ◌∷◌, ◌++◌, ltb, if◌then◌else◌,
  string_key, Map, Set, lookup, put, erase, at_key, add, is_empty, u32,
}
use rinasim.Efcp.Pdu.{Address}
use rinasim.Routing.{address_key}
pub mod Newest
pub mod Tree
mod Examples

pub record LinksU : Type 0 where
  pub s_id : ℕ
  pub links : Map String ℕ

unfoldable pub no_links : LinksU
no_links = record { s_id = 0; links = [] }

abbrev pub LinksSt : Type 0
LinksSt = Map String LinksU

pub record LinkUpdate : Type 0 where
  pub destination : Address
  pub qos : String
  pub entries : LinksSt

pub record SimpleLs : Type 0 where
  pub my_addr : String
  pub sec_id : ℕ
  pub neig : Map String (Map Address ℕ)
  pub net_state : Map String LinksSt
  pub last_changes : Map String (Set String)
  pub scheduled_update : Bool

-- `netState[qos][node]`.
unfoldable pub node_of : String → String → SimpleLs → LinksU
node_of qos node s = at_key no_links node (at_key [] qos s.net_state)

unfoldable pub set_node : String → String → LinksU → SimpleLs → SimpleLs
set_node qos node u s = record s {
  net_state = put qos (put node u (at_key [] qos s.net_state)) s.net_state;
}

-- `lastChanges[qos].insert(node)`.
unfoldable pub note_change : String → String → SimpleLs → SimpleLs
note_change qos node s = record s {
  last_changes = put qos (add node (at_key [] qos s.last_changes)) s.last_changes;
}

unfoldable pub schedule_update : SimpleLs → SimpleLs
schedule_update s = record s { scheduled_update = true }

-- The links of the process itself, under the next number.
unfoldable pub renew : String → Map String ℕ → SimpleLs → SimpleLs
renew qos links s =
    let id = u32 (s.sec_id + 1) in
    set_node qos s.my_addr (record { s_id = id; links = links })
      (note_change qos s.my_addr (record s { sec_id = id }))

unfoldable pub insert_flow : Address → String → String → ℕ → SimpleLs → SimpleLs
insert_flow addr dst qos metric s =
    let neig = put qos (put addr metric (at_key [] qos s.neig)) s.neig in
    schedule_update
      (renew qos (put dst metric (node_of qos s.my_addr s).links) (record s { neig = neig }))

unfoldable pub remove_neighbour :
    Address → String → Map String (Map Address ℕ) → Map String (Map Address ℕ)
remove_neighbour addr qos neig =
    let others = erase addr (at_key [] qos neig) in
    if is_empty others then erase qos neig else put qos others neig

unfoldable pub remove_flow : Address → String → String → SimpleLs → SimpleLs
remove_flow addr dst qos s = schedule_update (
    renew qos (erase dst (node_of qos s.my_addr s).links)
      (record s { neig = remove_neighbour addr qos s.neig }))

-- One entry of an update: it is taken where its number is larger. The test makes the entry of the
-- node where there is none.
unfoldable pub take_entry : String → String → LinksU → SimpleLs → SimpleLs
take_entry qos node u s =
    let old = node_of qos node s in
    if ltb old.s_id u.s_id
    then note_change qos node (set_node qos node u s)
    else set_node qos node old s

unfoldable pub take_entries : String → LinksSt → SimpleLs → SimpleLs
take_entries qos [] s = s
take_entries qos ((node, u) ∷ entries) s = take_entries qos entries (take_entry qos node u s)

-- The new state, and whether the generator is to be told.
unfoldable pub process_update : LinkUpdate → SimpleLs → SimpleLs × Bool
process_update up s =
    let t = take_entries up.qos up.entries s in
    if is_empty t.last_changes then (t, false) else (schedule_update t, true)

unfoldable pub changed_nodes : String → Set String → SimpleLs → LinksSt
changed_nodes qos [] s = []
changed_nodes qos (node ∷ nodes) s = (node, node_of qos node s) ∷ changed_nodes qos nodes s

unfoldable pub get_changed_entries : String → SimpleLs → LinksSt
get_changed_entries qos s = changed_nodes qos (at_key [] qos s.last_changes) s

unfoldable pub updates_of_qos : String → LinksSt → Map Address ℕ → List LinkUpdate
updates_of_qos qos entries [] = []
updates_of_qos qos entries ((a, metric) ∷ ns) =
    (record { destination = a; qos = qos; entries = entries }) ∷ updates_of_qos qos entries ns

unfoldable pub updates_from : SimpleLs → Map String (Map Address ℕ) → List LinkUpdate
updates_from s [] = []
updates_from s ((qos, ns) ∷ more) =
    updates_of_qos qos (get_changed_entries qos s) ns ++ updates_from s more

-- The timer: the updates that are sent, and the state after it.
unfoldable pub handle_message : SimpleLs → List LinkUpdate × SimpleLs
handle_message s = (updates_from s s.neig, record s { last_changes = []; scheduled_update = false })
