-- ===== src/Routing/Distance/Lost.antt =====
-- What `removeFlow` of src/policies/DIF/Routing/SimpleRouting/SimpleDV/SimpleDV.cc reports, and what
-- it does not.
use Prim.Native.String.{String}
use rinasim.Base.{
  ℕ, Bool, false, ◌&&◌, ◌||◌, Option, some, [], ◌∷◌, ◌≡◌, arith, if◌then◌else◌, string_key,
  pair_key, lookup, put, at_key, lookup-put, IsMap,
}
use rinasim.Efcp.Pdu.{Address}
use rinasim.Routing.{EntType, Entries2Next}
use rinasim.Routing.Distance.{
  SimpleDv, Table, unreachable, table_of, set_table, report_hop, remove_entries, remove_flow,
  schedule_update,
}
use rinasim.Routing.Distance.Routes.{route, without, route-remove_flow}

-- Some route of the table goes over the neighbour.
unfoldable pub any_via : String → Table → Bool
any_via hop [] = false
any_via hop ((d, e) ∷ t) = string_key.same e.addr hop || any_via hop t

-- What the changes say of a destination after the flow to a neighbour is lost.
unfoldable pub lost : ℕ → Bool → Option EntType → Option EntType
lost inf hit old = if hit then some (unreachable inf) else old

lookup-report_hop :
    (j d q hop : String) (inf : ℕ) (t : Table) (c : Entries2Next)
    → lookup (j, d) (report_hop inf q hop t c)
      ≡ lost inf (string_key.same j q && string_key.same d hop && any_via hop t) (lookup (j, d) c)
unfolding report_hop lost any_via
lookup-report_hop j d q hop inf [] c = ground arith
lookup-report_hop j d q hop inf ((k, e) ∷ t) c = ground (
  arith,
  lookup-report_hop j d q hop inf t c,
  lookup-report_hop j d q hop inf t (put (q, e.addr) (unreachable inf) c),
  lookup-put (j, d) (q, e.addr) (unreachable inf) c,
  string_key.same_iff e.addr hop,
  string_key.same_iff d hop,
)

-- Removing the flow to a neighbour takes away exactly the routes of that QoS over it; of the
-- destinations, only the neighbour itself is reported as unreachable, and only where some route
-- went over it. The tables hold each destination once.
pub remove_flow_lem :
    (j d q hop : String) (addr : Address) (s : SimpleDv)
    → IsMap (table_of q s)
    → (route j d (remove_flow addr hop q s)
        ≡ (if string_key.same j q then without hop (route j d s) else route j d s))
      × (lookup (j, d) (remove_flow addr hop q s).changes
          ≡ lost s.inf_metric
              (string_key.same j q && string_key.same d hop && any_via hop (table_of q s))
              (lookup (j, d) s.changes))
unfolding remove_flow remove_entries schedule_update set_table table_of
remove_flow_lem j d q hop addr s h = (
  route-remove_flow j d q hop addr s h,
  lookup-report_hop j d q hop s.inf_metric (at_key [] q s.table) s.changes,
)
