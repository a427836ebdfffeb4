-- ===== src/Routing/Distance/Invariant.antt =====
-- The tables of src/policies/DIF/Routing/SimpleRouting/SimpleDV/SimpleDV.cc over any sequence of
-- calls.
use Prim.Native.String.{String}
use rinasim.Base.{
  ℕ, ◌≤◌, ◌<◌, true, some, List, [], ◌∷◌, ◌≡◌, refl, arith, string_key, Map, at_key, or_default,
  lookup-put, IsMap, put-IsMap, erase-IsMap,
}
use rinasim.Efcp.Pdu.{Address}
use rinasim.Routing.Distance.{
  SimpleDv, RtEntry, Table, RoutingUpdate, uint16_max, table_of, set_table, store, merge_update,
  merge_flow, at_key, no_entry, process_entry, process_entries, process_update, process_foreign,
  insert_flow, remove_flow, get_changes, handle_message, touch_tables, report_merged, report,
  schedule_update, insert_entry, remove_entries, without_hop,
}
use rinasim.Routing.Distance.Routes.{
  route, finite, relaxed, flowed, without, table_of-set_table, table_of-report_merged,
  route-process_entry, route-insert_flow, route-remove_flow, without_hop-IsMap,
}

-- The events of the policy.
pub data Event : Type 0 where
  update : RoutingUpdate → Event
  inserted : Address → String → String → ℕ → Event
  removed : Address → String → String → Event
  taken : Event
  timer : Event

unfoldable pub step : Event → SimpleDv → SimpleDv
step (update up) s = (process_update up s).0
step (inserted addr dst qos metric) s = insert_flow addr dst qos metric s
step (removed addr dst qos) s = remove_flow addr dst qos s
step taken s = (get_changes s).1
step timer s = (handle_message s).1

unfoldable pub run : List Event → SimpleDv → SimpleDv
run [] s = s
run (e ∷ es) s = run es (step e s)

pub record IsValid (s : SimpleDv) : Type 0 where
  pub tables : (q : String) → IsMap (table_of q s)
  pub metrics : (q d : String) (e : RtEntry) → route q d s ≡ some e → e.metric < s.inf_metric
  pub short_inf : s.inf_metric ≤ uint16_max

finite_lem : (inf : ℕ) (e f : RtEntry) → finite inf e ≡ some f → f.metric < inf
unfolding finite
finite_lem inf e f h = ground arith

store-IsMap : (inf : ℕ) (d : String) (e : RtEntry) (t : Table) → IsMap t → IsMap (store inf d e t)
unfolding store
store-IsMap inf d e t h = ground (arith, put-IsMap d e t h, erase-IsMap d t h)

pub inf-process_entry :
    (q src : String) (e : RtEntry) (s : SimpleDv)
    → ((process_entry q src e s).inf_metric ≡ s.inf_metric)
      × ((process_entry q src e s).my_addr ≡ s.my_addr)
unfolding process_entry report_merged report set_table
inf-process_entry q src e s = ground arith

tables-process_entry :
    (j q src : String) (e : RtEntry) (s : SimpleDv)
    → ((k : String) → IsMap (table_of k s))
    → IsMap (table_of j (process_entry q src e s))
unfolding process_entry
tables-process_entry j q src e s h =
    let t = table_of q s in
    let m = merge_update src e.metric (at_key no_entry e.addr t) in
    let u = store s.inf_metric e.addr m.entry t in
    ground (
      arith,
      table_of-report_merged j q src e.addr m (set_table q u s),
      table_of-set_table j q u s,
      store-IsMap s.inf_metric e.addr m.entry t (h q),
      h j,
    )

pub process_entry-IsValid :
    (q src : String) (e : RtEntry) (s : SimpleDv) → IsValid s → IsValid (process_entry q src e s)
unfolding relaxed
process_entry-IsValid q src e s v = record {
  tables = λ j. tables-process_entry j q src e s v.tables;
  metrics = λ j d f h. ground (
    arith,
    h,
    inf-process_entry q src e s,
    route-process_entry j d q src e s,
    finite_lem s.inf_metric (merge_update src e.metric (or_default no_entry (route j d s))).entry f,
    v.metrics j d f,
  );
  short_inf = ground (arith, inf-process_entry q src e s, v.short_inf);
}

process_entries-IsValid :
    (q src : String) (es : List RtEntry) (s : SimpleDv)
    → IsValid s
    → IsValid (process_entries q src es s)
unfolding process_entries
process_entries-IsValid q src [] s v = v
process_entries-IsValid q src (e ∷ es) s v =
    process_entries-IsValid q src es (process_entry q src e s) (process_entry-IsValid q src e s v)

-- What `IsValid` reads of the state.
pub record Alike (s t : SimpleDv) : Type 0 where
  pub tables : (q : String) → table_of q t ≡ table_of q s
  pub inf : t.inf_metric ≡ s.inf_metric

Alike-IsValid : (s t : SimpleDv) → Alike s t → IsValid s → IsValid t
unfolding route
Alike-IsValid s t a v = record {
  tables = λ q. ground (arith, a.tables q, v.tables q);
  metrics = λ q d e h. ground (arith, a.inf, a.tables q, v.metrics q d e, h);
  short_inf = ground (arith, a.inf, v.short_inf);
}

table_of-scheduled :
    (q : String) (s : SimpleDv) → table_of q (record s { scheduled_update = true }) ≡ table_of q s
unfolding table_of
table_of-scheduled q s = refl

process_update-IsValid :
    (up : RoutingUpdate) (s : SimpleDv) → IsValid s → IsValid (process_update up s).0
unfolding process_update process_foreign schedule_update
process_update-IsValid up s v =
    let t = process_entries up.qos up.src up.entries s in
    let w = process_entries-IsValid up.qos up.src up.entries s v in
    ground (
      arith,
      v,
      w,
      Alike-IsValid t (record t { scheduled_update = true })
          (record { tables = λ q. table_of-scheduled q t; inf = refl }) w,
    )

tables-insert_flow :
    (j dst qos : String) (addr : Address) (metric : ℕ) (s : SimpleDv)
    → ((k : String) → IsMap (table_of k s))
    → IsMap (table_of j (insert_flow addr dst qos metric s))
unfolding insert_flow insert_entry schedule_update report set_table table_of at_key or_default
tables-insert_flow j dst qos addr metric s h =
    let t = table_of qos s in
    let m = merge_flow dst metric (at_key no_entry dst t) in
    let u = store s.inf_metric dst m.entry t in
    ground (arith, lookup-put j qos u s.table, store-IsMap s.inf_metric dst m.entry t (h qos), h j)

inf-insert_flow :
    (addr : Address) (dst qos : String) (metric : ℕ) (s : SimpleDv)
    → (insert_flow addr dst qos metric s).inf_metric ≡ s.inf_metric
unfolding insert_flow insert_entry schedule_update report set_table
inf-insert_flow addr dst qos metric s = refl

insert_flow-IsValid :
    (addr : Address) (dst qos : String) (metric : ℕ) (s : SimpleDv)
    → IsValid s
    → IsValid (insert_flow addr dst qos metric s)
unfolding flowed
insert_flow-IsValid addr dst qos metric s v = record {
  tables = λ j. tables-insert_flow j dst qos addr metric s v.tables;
  metrics = λ j d f h. ground (
    arith,
    h,
    inf-insert_flow addr dst qos metric s,
    route-insert_flow j d qos dst addr metric s,
    finite_lem s.inf_metric (merge_flow dst metric (or_default no_entry (route j d s))).entry f,
    v.metrics j d f,
  );
  short_inf = ground (arith, inf-insert_flow addr dst qos metric s, v.short_inf);
}

tables-remove_flow :
    (j dst qos : String) (addr : Address) (s : SimpleDv)
    → ((k : String) → IsMap (table_of k s))
    → IsMap (table_of j (remove_flow addr dst qos s))
unfolding remove_flow remove_entries schedule_update set_table table_of at_key or_default
tables-remove_flow j dst qos addr s h =
    let t = table_of qos s in
    ground
      (arith, lookup-put j qos (without_hop dst t) s.table, without_hop-IsMap dst t (h qos), h j)

inf-remove_flow :
    (addr : Address) (dst qos : String) (s : SimpleDv)
    → (remove_flow addr dst qos s).inf_metric ≡ s.inf_metric
unfolding remove_flow remove_entries schedule_update set_table
inf-remove_flow addr dst qos s = refl

remove_flow-IsValid :
    (addr : Address) (dst qos : String) (s : SimpleDv)
    → IsValid s
    → IsValid (remove_flow addr dst qos s)
unfolding without
remove_flow-IsValid addr dst qos s v = record {
  tables = λ j. tables-remove_flow j dst qos addr s v.tables;
  metrics = λ j d f h. ground (
    arith,
    h,
    inf-remove_flow addr dst qos s,
    route-remove_flow j d qos dst addr s (v.tables qos),
    v.metrics j d f,
  );
  short_inf = ground (arith, inf-remove_flow addr dst qos s, v.short_inf);
}

touch_tables-Alike : (ns : Map String (Map Address ℕ)) (s : SimpleDv) → Alike s (touch_tables ns s)
unfolding touch_tables set_table
touch_tables-Alike [] s = record { tables = λ q. refl; inf = refl }
touch_tables-Alike ((qos, n) ∷ ns) s =
    let t = set_table qos (table_of qos s) s in
    let a = touch_tables-Alike ns t in
    record {
      tables = λ q. ground (
        arith,
        a.tables q,
        table_of-set_table q qos (table_of qos s) s,
        string_key.same_iff q qos,
      );
      inf = a.inf;
    }

pub handle_message-Alike : (s : SimpleDv) → Alike s (handle_message s).1
unfolding handle_message table_of
handle_message-Alike s =
    let a = touch_tables-Alike s.neig s in record { tables = a.tables; inf = a.inf }

pub get_changes-Alike : (s : SimpleDv) → Alike s (get_changes s).1
unfolding get_changes table_of
get_changes-Alike s = record { tables = λ q. refl; inf = refl }

pub step-IsValid : (e : Event) (s : SimpleDv) → IsValid s → IsValid (step e s)
unfolding step
step-IsValid (update up) s v = process_update-IsValid up s v
step-IsValid (inserted addr dst qos metric) s v = insert_flow-IsValid addr dst qos metric s v
step-IsValid (removed addr dst qos) s v = remove_flow-IsValid addr dst qos s v
step-IsValid taken s v = Alike-IsValid s _ (get_changes-Alike s) v
step-IsValid timer s v = Alike-IsValid s _ (handle_message-Alike s) v

-- Whatever updates arrive and whatever flows come and go, from a valid state every table keeps one
-- entry for a destination, and each stored metric stays below the infinite one.
pub run-IsValid : (es : List Event) (s : SimpleDv) → IsValid s → IsValid (run es s)
unfolding run
run-IsValid [] s v = v
run-IsValid (e ∷ es) s v = run-IsValid es (step e s) (step-IsValid e s v)
