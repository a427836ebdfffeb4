-- ===== src/Routing/Distance/Hops.antt =====
-- Where the next hops of src/policies/DIF/Routing/SimpleRouting/SimpleDV/SimpleDV.cc come from.
use Prim.Native.String.{String}
use rinasim.Base.{
  ℕ, ◌≤◌, ◌≢◌, ◌⊎◌, inl, inr, Option, none, some, List, [], ◌∷◌, ◌≡◌, sym, subst, arith, string_key,
  or_default, Bool-cases,
}
use rinasim.Efcp.Pdu.{Address}
use rinasim.Routing.Distance.{
  SimpleDv, RtEntry, RoutingUpdate, uint16_max, no_entry, merge_update, merge_flow, kept,
  with_metric, moved, process_entry, process_entries, process_update, process_foreign,
  schedule_update, insert_flow, table_of,
}
use rinasim.Routing.Distance.Routes.{
  route, finite, relaxed, flowed, route-process_entry, route-insert_flow,
}
use rinasim.Routing.Distance.Invariant.{inf-process_entry}
use rinasim.Routing.Distance.Relax.{next_hop}

-- Each next hop of the QoS has the property.
unfoldable pub HopsAre : (String → Type 0) → String → SimpleDv → Type 0
HopsAre P q s = (d hop : String) → next_hop (route q d s) ≡ some hop → P hop

hop-relaxed :
    (inf : ℕ) (src : String) (metric : ℕ) (o : Option RtEntry) (hop : String)
    → inf ≤ uint16_max
    → src ≢ ""
    → next_hop (relaxed inf src metric o) ≡ some hop
    → (hop ≡ src) ⊎ (next_hop o ≡ some hop)
unfolding relaxed finite merge_update or_default no_entry kept with_metric moved next_hop
hop-relaxed inf src metric none hop h k a = ground (arith, string_key.same_iff "" src, k, a)
hop-relaxed inf src metric (some e) hop h k a = ground (arith, string_key.same_iff e.addr src, a)

hop-process_entry :
    (j d q src : String) (e : RtEntry) (s : SimpleDv) (hop : String)
    → s.inf_metric ≤ uint16_max
    → src ≢ ""
    → next_hop (route j d (process_entry q src e s)) ≡ some hop
    → (hop ≡ src) ⊎ (next_hop (route j d s) ≡ some hop)
hop-process_entry j d q src e s hop i n a = ground (
  arith,
  a,
  route-process_entry j d q src e s,
  hop-relaxed s.inf_metric src e.metric (route j d s) hop i n,
)

process_entries-HopsAre :
    (P : String → Type 0) (j q src : String) (es : List RtEntry) (s : SimpleDv)
    → s.inf_metric ≤ uint16_max
    → src ≢ ""
    → P src
    → HopsAre P j s
    → HopsAre P j (process_entries q src es s)
unfolding process_entries HopsAre
process_entries-HopsAre P j q src [] s i n p h = h
process_entries-HopsAre P j q src (e ∷ es) s i n p h =
    process_entries-HopsAre P j q src es (process_entry q src e s)
      (ground (arith, i, inf-process_entry q src e s)) n p
      (λ d hop a. elim (hop-process_entry j d q src e s hop i n a) [
        | inl of_src ↦ subst P (sym of_src) p
        | inr old ↦ h d hop old
      ])

-- A next hop after an update is the sender, or was a next hop before.
pub process_update-HopsAre :
    (P : String → Type 0) (j : String) (up : RoutingUpdate) (s : SimpleDv)
    → s.inf_metric ≤ uint16_max
    → up.src ≢ ""
    → P up.src
    → HopsAre P j s
    → HopsAre P j (process_update up s).0
unfolding HopsAre process_update process_foreign schedule_update route table_of
process_update-HopsAre P j up s i n p h d hop a =
    let all = process_entries-HopsAre P j up.qos up.src up.entries s i n p h in
    elim (Bool-cases (string_key.same up.src s.my_addr)) [
      | inl own ↦ h d hop (ground (arith, a, own))
      | inr other ↦ all d hop (ground (arith, a, other))
    ]

hop-flowed :
    (inf : ℕ) (dst : String) (metric : ℕ) (o : Option RtEntry) (hop : String)
    → inf ≤ uint16_max
    → dst ≢ ""
    → next_hop (flowed inf dst metric o) ≡ some hop
    → (hop ≡ dst) ⊎ (next_hop o ≡ some hop)
unfolding flowed finite merge_flow or_default no_entry kept with_metric moved next_hop
hop-flowed inf dst metric none hop h k a = ground (arith, string_key.same_iff "" dst, k, a)
hop-flowed inf dst metric (some e) hop h k a = ground (arith, string_key.same_iff e.addr dst, a)

-- A next hop after a flow has come is the flow's end, or was a next hop before.
pub insert_flow-HopsAre :
    (P : String → Type 0) (j q dst : String) (addr : Address) (metric : ℕ) (s : SimpleDv)
    → s.inf_metric ≤ uint16_max
    → dst ≢ ""
    → P dst
    → HopsAre P j s
    → HopsAre P j (insert_flow addr dst q metric s)
unfolding HopsAre
insert_flow-HopsAre P j q dst addr metric s i n p h d hop a =
    let source : (hop ≡ dst) ⊎ (next_hop (route j d s) ≡ some hop) = ground (
      arith,
      a,
      route-insert_flow j d q dst addr metric s,
      hop-flowed s.inf_metric dst metric (route j d s) hop i n,
    ) in
    elim source [ inl of_dst ↦ subst P (sym of_dst) p | inr old ↦ h d hop old ]
