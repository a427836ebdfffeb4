-- ===== src/Routing/Distance/Changes.antt =====
-- Which changes src/policies/DIF/Routing/SimpleRouting/SimpleDV/SimpleDV.cc collects: one for a
-- destination, and only for the QoS of the call.
use Prim.Native.String.{String}
use rinasim.Base.{
  ℕ, List, [], ◌∷◌, ◌≡◌, refl, arith, string_key, pair_key, at_key, put, insert_new, erase, IsMap,
  put-IsMap, All,
}
use rinasim.Efcp.Pdu.{Address}
use rinasim.Routing.{EntType, QosPaddr, Entries2Next}
use rinasim.Routing.Distance.{
  SimpleDv, RtEntry, RoutingUpdate, report, set_table, schedule_update, report_merged, merge_update,
  no_entry, table_of, unreachable, via, process_entry, process_entries, process_foreign,
  process_update, insert_entry, insert_flow,
}

abbrev pub IsOf : String → QosPaddr × EntType → Type 0
IsOf q c = c.0.0 ≡ q

pub record IsCollected (q : String) (c : Entries2Next) : Type 0 where
  pub single : IsMap c
  pub of_qos : All (IsOf q) c

erase-of :
    (q : String) (k : QosPaddr) (c : Entries2Next) → All (IsOf q) c → All (IsOf q) (erase k c)
unfolding erase
erase-of q k [] h = h
erase-of q k (x ∷ c) h = ground (arith, erase-of q k c h.1, h.0)

insert_new-of :
    (q d : String) (et : EntType) (c : Entries2Next)
    → All (IsOf q) c
    → All (IsOf q) (insert_new (q, d) et c)
unfolding insert_new
insert_new-of q d et [] h = (refl, h)
insert_new-of q d et (x ∷ c) h = ground (arith, insert_new-of q d et c h.1, h.0)

put-IsCollected :
    (q d : String) (et : EntType) (c : Entries2Next)
    → IsCollected q c
    → IsCollected q (put (q, d) et c)
unfolding put
put-IsCollected q d et c h = record {
  single = put-IsMap (q, d) et c h.single;
  of_qos = insert_new-of q d et (erase (q, d) c) (erase-of q (q, d) c h.of_qos);
}

process_entry-IsCollected :
    (q src : String) (e : RtEntry) (s : SimpleDv)
    → IsCollected q s.changes
    → IsCollected q (process_entry q src e s).changes
unfolding process_entry report_merged report set_table
process_entry-IsCollected q src e s h =
    let m = merge_update src e.metric (at_key no_entry e.addr (table_of q s)) in
    ground (
      arith,
      h,
      put-IsCollected q e.addr (unreachable s.inf_metric) s.changes h,
      put-IsCollected q e.addr (via src m.entry.metric) s.changes h,
    )

process_entries-IsCollected :
    (q src : String) (es : List RtEntry) (s : SimpleDv)
    → IsCollected q s.changes
    → IsCollected q (process_entries q src es s).changes
unfolding process_entries
process_entries-IsCollected q src [] s h = h
process_entries-IsCollected q src (e ∷ es) s h =
    process_entries-IsCollected q src es (process_entry q src e s)
      (process_entry-IsCollected q src e s h)

pub process_update-IsCollected :
    (up : RoutingUpdate) (s : SimpleDv)
    → IsCollected up.qos s.changes
    → IsCollected up.qos (process_update up s).0.changes
unfolding process_update process_foreign schedule_update
process_update-IsCollected up s h =
    ground (arith, h, process_entries-IsCollected up.qos up.src up.entries s h)

pub insert_flow-IsCollected :
    (addr : Address) (dst q : String) (metric : ℕ) (s : SimpleDv)
    → IsCollected q s.changes
    → IsCollected q (insert_flow addr dst q metric s).changes
unfolding insert_flow insert_entry report set_table schedule_update
insert_flow-IsCollected addr dst q metric s h = put-IsCollected q dst _ s.changes h

pub empty-IsCollected : (q : String) → IsCollected q []
unfolding IsMap
empty-IsCollected q = record { single = tt; of_qos = tt }
