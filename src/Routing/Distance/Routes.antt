-- ===== src/Routing/Distance/Routes.antt =====
-- The table of src/policies/DIF/Routing/SimpleRouting/SimpleDV/SimpleDV.cc as a function: what it
-- holds for a QoS and a destination after each operation.
use Prim.Native.String.{String}
use rinasim.Base.{
  ℕ, not, ◌&&◌, Option, none, some, [], ◌∷◌, ◌≡◌, refl, arith, leb, if◌then◌else◌, string_key,
  pair_key, lookup, at_key, or_default, lookup-put, lookup-erase, IsMap,
}
use rinasim.Efcp.Pdu.{Address}
use rinasim.Routing.Distance.{
  SimpleDv, RtEntry, Table, Merged, no_entry, table_of, set_table, report, store, merge_update,
  merge_flow, report_merged, process_entry, insert_entry, insert_flow, without_hop, remove_entries,
  remove_flow, schedule_update,
}

unfoldable pub route : String → String → SimpleDv → Option RtEntry
route qos dst s = lookup dst (table_of qos s)

unfoldable pub finite : ℕ → RtEntry → Option RtEntry
finite inf e = if leb inf e.metric then none else some e

-- What `processUpdate` makes of one route.
unfoldable pub relaxed : ℕ → String → ℕ → Option RtEntry → Option RtEntry
relaxed inf src metric o = finite inf (merge_update src metric (or_default no_entry o)).entry

pub lookup-store :
    (inf : ℕ) (j d : String) (e : RtEntry) (t : Table)
    → lookup j (store inf d e t) ≡ (if string_key.same j d then finite inf e else lookup j t)
unfolding store finite
lookup-store inf j d e t = ground (arith, lookup-put j d e t, lookup-erase j d t)

pub table_of-set_table :
    (j q : String) (t : Table) (s : SimpleDv)
    → table_of j (set_table q t s) ≡ (if string_key.same j q then t else table_of j s)
unfolding table_of set_table at_key or_default
table_of-set_table j q t s = ground (arith, lookup-put j q t s.table)

pub table_of-report_merged :
    (j q src d : String) (m : Merged) (s : SimpleDv)
    → table_of j (report_merged q src d m s) ≡ table_of j s
unfolding report_merged table_of report
table_of-report_merged j q src d m s = ground arith

pub route-process_entry :
    (j d q src : String) (e : RtEntry) (s : SimpleDv)
    → route j d (process_entry q src e s) ≡ (
        if string_key.same j q && string_key.same d e.addr && not (string_key.same e.addr s.my_addr)
        then relaxed s.inf_metric src e.metric (route j d s)
        else route j d s)
unfolding route process_entry relaxed at_key
route-process_entry j d q src e s =
    let t = table_of q s in
    let m = merge_update src e.metric (at_key no_entry e.addr t) in
    let u = store s.inf_metric e.addr m.entry t in
    ground (
      arith,
      table_of-report_merged j q src e.addr m (set_table q u s),
      table_of-set_table j q u s,
      lookup-store s.inf_metric d e.addr m.entry t,
      string_key.same_iff j q,
      string_key.same_iff d e.addr,
    )

-- What `insertFlow` makes of the route to the neighbour.
unfoldable pub flowed : ℕ → String → ℕ → Option RtEntry → Option RtEntry
flowed inf dst metric o = finite inf (merge_flow dst metric (or_default no_entry o)).entry

pub route-insert_flow :
    (j d q dst : String) (a : Address) (metric : ℕ) (s : SimpleDv)
    → route j d (insert_flow a dst q metric s) ≡ (
        if string_key.same j q && string_key.same d dst
        then flowed s.inf_metric dst metric (route j d s)
        else route j d s)
unfolding route insert_flow insert_entry flowed at_key schedule_update report table_of set_table
    or_default
route-insert_flow j d q dst a metric s =
    let t = table_of q s in
    let m = merge_flow dst metric (at_key no_entry dst t) in
    let u = store s.inf_metric dst m.entry t in
    ground (
      arith,
      lookup-put j q u s.table,
      lookup-store s.inf_metric d dst m.entry t,
      string_key.same_iff j q,
      string_key.same_iff d dst,
    )

-- A route stands unless its next hop is the lost neighbour.
unfoldable pub without : String → Option RtEntry → Option RtEntry
without hop none = none
without hop (some e) = if string_key.same e.addr hop then none else some e

pub lookup-without_hop :
    (d hop : String) (t : Table) → IsMap t → lookup d (without_hop hop t) ≡ without hop (lookup d t)
unfolding without_hop without lookup IsMap
lookup-without_hop d hop [] h = refl
lookup-without_hop d hop ((k, e) ∷ t) h =
    ground (arith, lookup-without_hop d hop t h.1, string_key.same_iff d k)

pub without_hop-IsMap : (hop : String) (t : Table) → IsMap t → IsMap (without_hop hop t)
unfolding without_hop IsMap without
without_hop-IsMap hop [] h = h
without_hop-IsMap hop ((k, e) ∷ t) h =
    ground (arith, without_hop-IsMap hop t h.1, lookup-without_hop k hop t h.1)

pub route-remove_flow :
    (j d q hop : String) (a : Address) (s : SimpleDv)
    → IsMap (table_of q s)
    → route j d (remove_flow a hop q s)
      ≡ (if string_key.same j q then without hop (route j d s) else route j d s)
unfolding route remove_flow remove_entries at_key schedule_update table_of set_table or_default
route-remove_flow j d q hop a s h =
    let t = table_of q s in
    ground (
      arith,
      lookup-put j q (without_hop hop t) s.table,
      lookup-without_hop d hop t h,
      string_key.same_iff j q,
    )
