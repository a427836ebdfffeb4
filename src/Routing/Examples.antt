-- ===== src/Routing/Examples.antt =====
-- The theorems on the distance vector policy at concrete states: the process "a" with a flow to "c",
-- and its neighbour "b".
use Prim.Native.String.{String}
use rinasim.Base.{
  ℕ, zero, suc, Map, false, none, List, [], ◌∷◌, ◌≡◌, refl, arith, string_key, pair_key, IsMap,
  lookup, at_key, or_default, if◌then◌else◌, ◌&&◌,
}
use rinasim.Efcp.Pdu.{Address}
use rinasim.Routing.LinkState.{SimpleLs, LinkUpdate, node_of, no_links}
use rinasim.Routing.LinkState.Newest.{
  versions_of, versions_in, greatest, node_of-run_newest, run as run_ls,
}
use rinasim.Routing.Distance.{
  SimpleDv, RoutingUpdate, table_of, process_update, update_to, remove_flow, get_changes,
  insert_flow, insert_entry, schedule_update, report, set_table,
}
use rinasim.Routing.Distance.Routes.{route, without}
use rinasim.Routing.Distance.Invariant.{
  Event, update, inserted, removed, taken, timer, step, run, IsValid, run-IsValid,
}
use rinasim.Routing.Distance.Relax.{distance, exchanged, next_hop, process_update-update_to}
use rinasim.Routing.Distance.Reported.{View, Agrees, Reach, IsNews, Reach-Agrees, shown, taken_over}
use rinasim.Routing.Distance.Lost.{any_via, lost, remove_flow_lem}

abbrev fresh : String → SimpleDv
fresh name = record {
  inf_metric = 100;
  my_addr = name;
  neig = [];
  table = [];
  changes = [];
  scheduled_update = false;
}

abbrev to_b : Address
to_b = record { ipc_address = "b"; dif_name = "net" }

abbrev to_c : Address
to_c = record { ipc_address = "c"; dif_name = "net" }

abbrev from_a : RoutingUpdate
from_a = record {
  destination = to_b;
  src = "a";
  qos = "";
  entries = (record { addr = "c"; metric = 3 }) ∷ (record { addr = "a"; metric = 1 }) ∷ [];
}

fresh-IsValid : (name : String) → IsValid (fresh name)
unfolding table_of at_key or_default lookup IsMap route
fresh-IsValid name = record {
  tables = λ q. tt;
  metrics = λ q d e h. ground (arith, h);
  short_inf = omega arith;
}

abbrev events : List Event
events = inserted to_b "b" "" 1 ∷ update from_a ∷ timer ∷ taken ∷ removed to_b "b" "" ∷ []

run-IsValid_example : IsValid (run events (fresh "d"))
run-IsValid_example = run-IsValid events (fresh "d") (fresh-IsValid "d")

abbrev linked_a : SimpleDv
linked_a = run (inserted to_c "c" "" 1 ∷ []) (fresh "a")

linked_a-IsValid : IsValid linked_a
linked_a-IsValid = run-IsValid (inserted to_c "c" "" 1 ∷ []) (fresh "a") (fresh-IsValid "a")

process_update-update_to_example :
    distance 100 (route "" "c" (process_update (update_to linked_a "" to_b 2) (fresh "b")).0)
    ≡ exchanged 100 (linked_a.my_addr) 2 (route "" "c" linked_a) (route "" "c" (fresh "b"))
unfolding run step insert_flow insert_entry schedule_update report set_table
process_update-update_to_example =
    process_update-update_to "" "c" to_b 2 linked_a (fresh "b") linked_a-IsValid (fresh-IsValid "b")
      (ground (arith, string_key.same_iff "a" "b")) (ground (arith, string_key.same_iff "c" "a"))
      (ground (arith, string_key.same_iff "c" "b")) (omega arith)

abbrev nothing_known : View
nothing_known k = none

fresh-Agrees : (name : String) → Agrees nothing_known (fresh name)
unfolding Agrees shown taken_over next_hop route table_of at_key or_default lookup
fresh-Agrees name q d = refl

c-IsNews : IsNews (fresh "a") "c" "" 1
unfolding distance next_hop route table_of at_key or_default lookup
c-IsNews = record {
  named = ground (arith, string_key.same_iff "c" "");
  finite_metric = omega arith;
  no_worse = omega arith;
  another_hop = ground arith;
}

abbrev with_c : SimpleDv
with_c = insert_flow to_c "c" "" 1 (fresh "a")

Reach-Agrees_example :
    IsValid (get_changes with_c).1
    × Agrees (shown (get_changes with_c).0 nothing_known) (get_changes with_c).1
Reach-Agrees_example =
    Reach-Agrees nothing_known (fresh "a") (shown (get_changes with_c).0 nothing_known)
      (get_changes with_c).1 (fresh-IsValid "a") (fresh-Agrees "a")
      (Reach.taken (Reach.inserted to_c "c" "" 1 c-IsNews Reach.start))

-- "d" is reached over "c", and the flow to "c" is lost: no change speaks of "d".
abbrev over_c : SimpleDv
over_c = record (fresh "a") { table = ("", ("d", record { addr = "c"; metric = 5 }) ∷ []) ∷ [] }

over_c-IsMap : IsMap (table_of "" over_c)
unfolding table_of at_key or_default lookup IsMap
over_c-IsMap = (refl, tt)

remove_flow_lem_example :
    (route "" "d" (remove_flow to_c "c" "" over_c)
      ≡ (if string_key.same "" "" then without "c" (route "" "d" over_c) else route "" "d" over_c))
    × (lookup ("", "d") (remove_flow to_c "c" "" over_c).changes
        ≡ lost 100
            (string_key.same "" "" && string_key.same "d" "c" && any_via "c" (table_of "" over_c))
            none)
unfolding lookup
remove_flow_lem_example = remove_flow_lem "" "d" "" "c" to_c over_c over_c-IsMap

-- Two processes hear of "n" in opposite orders.
abbrev fresh_ls : String → SimpleLs
fresh_ls name = record {
  my_addr = name;
  sec_id = 1;
  neig = [];
  net_state = [];
  last_changes = [];
  scheduled_update = false;
}

abbrev history : ℕ → Map String ℕ
history zero = []
history (suc zero) = ("m", 1) ∷ []
history (suc (suc k)) = ("m", 1) ∷ ("o", 4) ∷ []

abbrev version : ℕ → LinkUpdate
version k = record {
  destination = to_b;
  qos = "";
  entries = ("n", record { s_id = k; links = history k }) ∷ [];
}

node_of-run_newest_example :
    ((node_of "" "n" (run_ls (version 1 ∷ version 2 ∷ []) (fresh_ls "a"))).s_id
      ≡ greatest 0 (versions_of "" "n" (version 1 ∷ version 2 ∷ [])))
    × (node_of "" "n" (run_ls (version 1 ∷ version 2 ∷ []) (fresh_ls "a"))
        ≡ node_of "" "n" (run_ls (version 2 ∷ version 1 ∷ []) (fresh_ls "b")))
unfolding versions_of versions_in greatest node_of at_key or_default lookup no_links
node_of-run_newest_example =
    node_of-run_newest history "" "n" (version 1 ∷ version 2 ∷ []) (version 2 ∷ version 1 ∷ [])
      (fresh_ls "a") (fresh_ls "b") refl refl (refl, (refl, tt)) (refl, (refl, tt)) refl
