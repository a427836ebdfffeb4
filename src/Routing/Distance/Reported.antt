-- ===== src/Routing/Distance/Reported.antt =====
-- What the changes of src/policies/DIF/Routing/SimpleRouting/SimpleDV/SimpleDV.cc tell a generator
-- that keeps the next hops.
use Prim.Native.String.{String}
use rinasim.Base.{
  ℕ, ◌≤◌, ◌<◌, ◌≢◌, not, ◌&&◌, Option, none, some, List, [], ◌∷◌, ◌≡◌, refl, arith, leb,
  if◌then◌else◌, string_key, pair_key, Map, add, lookup, at_key, or_default, lookup-put,
}
use rinasim.Efcp.Pdu.{Address}
use rinasim.Routing.{EntType, QosPaddr, Entries2Next}
use rinasim.Routing.Distance.{
  SimpleDv, RtEntry, Merged, RoutingUpdate, uint16_max, unset, unreachable, via, no_entry, table_of,
  set_table, report, merge_update, merge_flow, kept, with_metric, moved, flow_change, report_merged,
  process_entry, process_entries, process_update, process_foreign, insert_entry, insert_flow,
  schedule_update, get_changes, handle_message, touch_tables,
}
use rinasim.Routing.Distance.Routes.{
  route, finite, relaxed, flowed, route-process_entry, route-insert_flow,
}
use rinasim.Routing.Distance.Invariant.{
  IsValid, process_entry-IsValid, Event, step, step-IsValid, handle_message-Alike,
}
use rinasim.Routing.Distance.Relax.{next_hop, distance}

-- What a generator knows: the next hop to a destination of a QoS.
abbrev pub View : Type 0
View = QosPaddr → Option String

-- `*(nh.begin())`.
unfoldable pub first_hop : EntType → Option String
first_hop et = elim et.nh [ [] ↦ none | h ∷ rest ↦ some h ]

-- The knowledge of a generator that takes over a change.
unfoldable pub taken_over : Option String → Option EntType → Option String
taken_over old none = old
taken_over old (some et) = first_hop et

unfoldable pub shown : Entries2Next → View → View
shown changes view k = taken_over (view k) (lookup k changes)

-- A generator that takes over the pending changes knows the next hop of every route, and of
-- nothing else.
unfoldable pub Agrees : View → SimpleDv → Type 0
Agrees view s = (q d : String) → shown s.changes view (q, d) ≡ next_hop (route q d s)

-- What one round of `processUpdate` reports.
unfoldable pub reported : ℕ → String → Merged → Option EntType → Option EntType
reported inf src m old =
    if leb inf m.entry.metric
    then some (unreachable inf)
    else if m.entry_changed_dst
    then some (via src m.entry.metric)
    else old

lookup-process_entry :
    (j d q src : String) (e : RtEntry) (s : SimpleDv)
    → lookup (j, d) (process_entry q src e s).changes ≡ (
        if string_key.same j q && string_key.same d e.addr && not (string_key.same e.addr s.my_addr)
        then reported s.inf_metric src
            (merge_update src e.metric (or_default no_entry (route j d s)))
            (lookup (j, d) s.changes)
        else lookup (j, d) s.changes)
unfolding process_entry report_merged report set_table reported route at_key
lookup-process_entry j d q src e s =
    let m = merge_update src e.metric (at_key no_entry e.addr (table_of q s)) in
    ground (
      arith,
      lookup-put (j, d) (q, e.addr) (unreachable s.inf_metric) s.changes,
      lookup-put (j, d) (q, e.addr) (via src m.entry.metric) s.changes,
      string_key.same_iff j q,
      string_key.same_iff d e.addr,
    )

-- A round of the loop reports exactly what it does to the next hop.
hop-relaxed :
    (inf : ℕ) (src : String) (metric : ℕ) (old : Option String) (c : Option EntType)
    (o : Option RtEntry)
    → inf ≤ uint16_max
    → src ≢ ""
    → taken_over old c ≡ next_hop o
    → taken_over old (reported inf src (merge_update src metric (or_default no_entry o)) c)
      ≡ next_hop (relaxed inf src metric o)
unfolding taken_over reported relaxed finite merge_update or_default no_entry kept with_metric moved
    next_hop first_hop unreachable via add
hop-relaxed inf src metric old c none h k a = ground (arith, string_key.same_iff "" src, k, a)
hop-relaxed inf src metric old c (some e) h k a =
    ground (arith, string_key.same_iff e.addr src, k, a)

process_entry-Agrees :
    (view : View) (q src : String) (e : RtEntry) (s : SimpleDv)
    → IsValid s
    → src ≢ ""
    → Agrees view s
    → Agrees view (process_entry q src e s)
unfolding Agrees shown
process_entry-Agrees view q src e s v n a j d = ground (
  arith,
  lookup-process_entry j d q src e s,
  route-process_entry j d q src e s,
  hop-relaxed s.inf_metric src e.metric (view (j, d)) (lookup (j, d) s.changes) (route j d s)
      v.short_inf n (a j d),
  a j d,
)

process_entries-Agrees :
    (view : View) (q src : String) (es : List RtEntry) (s : SimpleDv)
    → IsValid s
    → src ≢ ""
    → Agrees view s
    → Agrees view (process_entries q src es s)
unfolding process_entries
process_entries-Agrees view q src [] s v n a = a
process_entries-Agrees view q src (e ∷ es) s v n a =
    process_entries-Agrees view q src es (process_entry q src e s)
      (process_entry-IsValid q src e s v) n (process_entry-Agrees view q src e s v n a)

pub process_update-Agrees :
    (view : View) (up : RoutingUpdate) (s : SimpleDv)
    → IsValid s
    → up.src ≢ ""
    → Agrees view s
    → Agrees view (process_update up s).0
unfolding Agrees shown process_update process_foreign schedule_update route table_of
process_update-Agrees view up s v n a j d =
    ground (arith, a j d, process_entries-Agrees view up.qos up.src up.entries s v n a j d)

lookup-insert_flow :
    (j d q dst : String) (addr : Address) (metric : ℕ) (s : SimpleDv)
    → lookup (j, d) (insert_flow addr dst q metric s).changes ≡ (
        if string_key.same j q && string_key.same d dst
        then some (
            flow_change s.inf_metric dst
              (merge_flow dst metric (or_default no_entry (route j d s))))
        else lookup (j, d) s.changes)
unfolding insert_flow insert_entry schedule_update report set_table route at_key table_of
lookup-insert_flow j d q dst addr metric s =
    let m = merge_flow dst metric (at_key no_entry dst (table_of q s)) in
    ground (
      arith,
      lookup-put (j, d) (q, dst) (flow_change s.inf_metric dst m) s.changes,
      string_key.same_iff j q,
      string_key.same_iff d dst,
    )

-- The flow is better than the route to its end, and that route does not go over it already.
pub record IsNews (s : SimpleDv) (dst qos : String) (metric : ℕ) : Type 0 where
  pub named : dst ≢ ""
  pub finite_metric : metric < s.inf_metric
  pub no_worse : metric ≤ distance s.inf_metric (route qos dst s)
  pub another_hop : next_hop (route qos dst s) ≢ some dst

hop-flowed :
    (inf : ℕ) (dst : String) (metric : ℕ) (o : Option RtEntry)
    → inf ≤ uint16_max
    → dst ≢ ""
    → metric < inf
    → metric ≤ distance inf o
    → next_hop o ≢ some dst
    → first_hop (flow_change inf dst (merge_flow dst metric (or_default no_entry o)))
      ≡ next_hop (flowed inf dst metric o)
unfolding flow_change flowed finite merge_flow or_default no_entry kept with_metric moved next_hop
    first_hop unreachable via add distance unset
hop-flowed inf dst metric none h k l m n = ground (arith, string_key.same_iff "" dst, k)
hop-flowed inf dst metric (some e) h k l m n =
    ground (arith, string_key.same_iff e.addr dst, k, m, n)

pub insert_flow-Agrees :
    (view : View) (addr : Address) (dst qos : String) (metric : ℕ) (s : SimpleDv)
    → IsValid s
    → IsNews s dst qos metric
    → Agrees view s
    → Agrees view (insert_flow addr dst qos metric s)
unfolding Agrees shown taken_over
insert_flow-Agrees view addr dst qos metric s v n a j d = ground (
  arith,
  lookup-insert_flow j d qos dst addr metric s,
  route-insert_flow j d qos dst addr metric s,
  hop-flowed s.inf_metric dst metric (route qos dst s) v.short_inf n.named n.finite_metric
      n.no_worse n.another_hop,
  string_key.same_iff j qos,
  string_key.same_iff d dst,
  a j d,
)

-- What the process and a generator reach together: updates from named processes arrive, flows with
-- news come, the timer expires, and the generator takes over the changes.
pub data Reach (view : View) (s : SimpleDv) : View → SimpleDv → Type 0 where
  start : Reach view s view s
  update :
      {w : View} {t : SimpleDv} (up : RoutingUpdate)
      → up.src ≢ ""
      → Reach view s w t
      → Reach view s w (process_update up t).0
  inserted :
      {w : View} {t : SimpleDv} (addr : Address) (dst qos : String) (metric : ℕ)
      → IsNews t dst qos metric
      → Reach view s w t
      → Reach view s w (insert_flow addr dst qos metric t)
  timer : {w : View} {t : SimpleDv} → Reach view s w t → Reach view s w (handle_message t).1
  taken :
      {w : View} {t : SimpleDv}
      → Reach view s w t
      → Reach view s (shown (get_changes t).0 w) (get_changes t).1

changes-touch_tables :
    (ns : Map String (Map Address ℕ)) (s : SimpleDv) → (touch_tables ns s).changes ≡ s.changes
unfolding touch_tables set_table
changes-touch_tables [] s = refl
changes-touch_tables ((qos, n) ∷ ns) s = changes-touch_tables ns (set_table qos (table_of qos s) s)

handle_message-Agrees :
    (view : View) (s : SimpleDv) → Agrees view s → Agrees view (handle_message s).1
unfolding Agrees shown handle_message route
handle_message-Agrees view s a j d =
    ground (arith, a j d, changes-touch_tables s.neig s, (handle_message-Alike s).tables j)

get_changes-Agrees :
    (view : View) (s : SimpleDv)
    → Agrees view s
    → Agrees (shown (get_changes s).0 view) (get_changes s).1
unfolding Agrees shown get_changes taken_over route table_of lookup
get_changes-Agrees view s a j d = a j d

-- From a valid state that the generator's knowledge agrees with, whatever the two reach: the state
-- is valid, and the knowledge, with the pending changes, is again the next hop of every route.
pub Reach-Agrees :
    (view : View) (s : SimpleDv) (w : View) (t : SimpleDv)
    → IsValid s
    → Agrees view s
    → Reach view s w t
    → IsValid t × Agrees w t
unfolding step
Reach-Agrees view s _ _ v a start = (v, a)
Reach-Agrees view s w _ v a (update {t = t} up n r) =
    let h = Reach-Agrees view s w t v a r in
    (step-IsValid (Event.update up) t h.0, process_update-Agrees w up t h.0 n h.1)
Reach-Agrees view s w _ v a (inserted {t = t} addr dst qos metric n r) =
    let h = Reach-Agrees view s w t v a r in
    (
      step-IsValid (Event.inserted addr dst qos metric) t h.0,
      insert_flow-Agrees w addr dst qos metric t h.0 n h.1,
    )
Reach-Agrees view s w _ v a (timer {t = t} r) =
    let h = Reach-Agrees view s w t v a r in
    (step-IsValid Event.timer t h.0, handle_message-Agrees w t h.1)
Reach-Agrees view s _ _ v a (taken {w = w} {t = t} r) =
    let h = Reach-Agrees view s w t v a r in
    (step-IsValid Event.taken t h.0, get_changes-Agrees w t h.1)
