-- ===== src/Routing/Distance/Relax.antt =====
-- What an update from a neighbour does to the distances of
-- src/policies/DIF/Routing/SimpleRouting/SimpleDV/SimpleDV.cc.
use Prim.Native.String.{String}
use rinasim.Base.{
  ℕ, ◌+◌, ◌≤◌, ◌<◌, ◌≢◌, inl, inr, Bool, false, Option, none, some, List, [], ◌∷◌, ◌++◌, append-nil,
  Option-cases, ◌≡◌, refl, arith, leb, if◌then◌else◌, string_key, lookup, or_default, IsMap,
}
use rinasim.Efcp.Pdu.{Address}
use rinasim.Routing.Distance.{
  SimpleDv, RtEntry, Table, RoutingUpdate, uint16_max, u16, no_entry, table_of, merge_update, kept,
  with_metric, moved, process_entry, process_entries, process_update, process_foreign,
  schedule_update, offered, update_to,
}
use rinasim.Routing.Distance.Routes.{route, finite, relaxed, route-process_entry}
use rinasim.Routing.Distance.Invariant.{IsValid, inf-process_entry}

-- The distance that a route stands for; no route is infinitely far.
unfoldable pub distance : ℕ → Option RtEntry → ℕ
distance inf none = inf
distance inf (some e) = e.metric

unfoldable pub next_hop : Option RtEntry → Option String
next_hop none = none
next_hop (some e) = some e.addr

unfoldable pub least : ℕ → ℕ → ℕ
least a b = if leb a b then a else b

unfoldable pub goes_via : String → Option RtEntry → Bool
goes_via src none = false
goes_via src (some e) = string_key.same e.addr src

-- The step of the Bellman-Ford algorithm: a route over the sender follows what it offers, another
-- one gives way to something shorter.
unfoldable pub bellman : ℕ → String → ℕ → Option RtEntry → ℕ
bellman inf src metric o =
    if goes_via src o then least metric inf else least metric (distance inf o)

distance-relaxed :
    (inf : ℕ) (src : String) (metric : ℕ) (o : Option RtEntry)
    → inf ≤ uint16_max
    → distance inf o ≤ inf
    → distance inf (relaxed inf src metric o) ≡ bellman inf src metric o
unfolding distance relaxed bellman finite merge_update or_default no_entry kept with_metric moved
    least goes_via
distance-relaxed inf src metric none h k = ground arith
distance-relaxed inf src metric (some e) h k = ground arith

-- The metrics that an update offers for a destination.
unfoldable pub metrics_of : String → List RtEntry → List ℕ
metrics_of d [] = []
metrics_of d (e ∷ es) =
    let rest = metrics_of d es in if string_key.same d e.addr then e.metric ∷ rest else rest

unfoldable pub relaxed_all : ℕ → String → List ℕ → Option RtEntry → Option RtEntry
relaxed_all inf src [] o = o
relaxed_all inf src (m ∷ ms) o = relaxed_all inf src ms (relaxed inf src m o)

route-process_entries :
    (j d q src : String) (es : List RtEntry) (s : SimpleDv)
    → route j d (process_entries q src es s) ≡ (
        if string_key.same j q
        then (if string_key.same d s.my_addr
            then route j d s
            else relaxed_all s.inf_metric src (metrics_of d es) (route j d s))
        else route j d s)
unfolding process_entries relaxed_all metrics_of
route-process_entries j d q src [] s = ground arith
route-process_entries j d q src (e ∷ es) s = ground (
  arith,
  route-process_entries j d q src es (process_entry q src e s),
  route-process_entry j d q src e s,
  inf-process_entry q src e s,
  string_key.same_iff d e.addr,
)

-- After an update from another process, with a destination that is not the receiver, its route
-- stands for the step on each metric that the update offers for it.
route-process_update :
    (j d : String) (up : RoutingUpdate) (s : SimpleDv)
    → up.src ≢ s.my_addr
    → d ≢ s.my_addr
    → route j d (process_update up s).0 ≡ (
        if string_key.same j up.qos
        then relaxed_all s.inf_metric up.src (metrics_of d up.entries) (route j d s)
        else route j d s)
unfolding process_update process_foreign schedule_update route table_of
route-process_update j d up s n k = ground (
  arith,
  route-process_entries j d up.qos up.src up.entries s,
  string_key.same_iff up.src s.my_addr,
  string_key.same_iff d s.my_addr,
  n,
  k,
)

metrics_of-append :
    (d : String) (xs ys : List RtEntry)
    → metrics_of d (xs ++ ys) ≡ metrics_of d xs ++ metrics_of d ys
unfolding metrics_of
metrics_of-append d [] ys = refl
metrics_of-append d (x ∷ xs) ys = ground (arith, metrics_of-append d xs ys)

unfoldable pub offer : ℕ → Option RtEntry → List ℕ
offer cost none = []
offer cost (some e) = u16 (e.metric + cost) ∷ []

metrics_of-offered :
    (d : String) (cost : ℕ) (t : Table)
    → IsMap t
    → metrics_of d (offered cost t) ≡ offer cost (lookup d t)
unfolding metrics_of offered offer lookup IsMap
metrics_of-offered d cost [] h = refl
metrics_of-offered d cost ((k, e) ∷ t) h =
    ground (arith, metrics_of-offered d cost t h.1, string_key.same_iff d k)

-- The distance after a neighbour that is `cost` away has offered its own route.
unfoldable pub exchanged : ℕ → String → ℕ → Option RtEntry → Option RtEntry → ℕ
exchanged inf src cost none mine = distance inf mine
exchanged inf src cost (some e) mine = bellman inf src (e.metric + cost) mine

metrics_of-update_to :
    (d q : String) (n : Address) (cost : ℕ) (a : SimpleDv)
    → IsValid a
    → d ≢ a.my_addr
    → metrics_of d (update_to a q n cost).entries ≡ offer cost (route q d a)
unfolding update_to metrics_of route
metrics_of-update_to d q n cost a v k =
    let own : RtEntry = record { addr = a.my_addr; metric = cost } in
    let t = table_of q a in
    ground (
      arith,
      metrics_of-append d (offered cost t) (own ∷ []),
      metrics_of-offered d cost t (v.tables q),
      append-nil (offer cost (lookup d t)),
      string_key.same_iff d a.my_addr,
      k,
    )

offered_small :
    (inf cost : ℕ) (e : RtEntry)
    → inf + cost ≤ uint16_max
    → e.metric < inf
    → u16 (e.metric + cost) ≡ e.metric + cost
unfolding u16
offered_small inf cost e h k = omega arith

distance-valid :
    (q d : String) (s : SimpleDv) → IsValid s → distance s.inf_metric (route q d s) ≤ s.inf_metric
unfolding distance
distance-valid q d s v = elim (Option-cases (route q d s)) [
  | inl n ↦ ground (arith, n)
  | inr e ↦ ground (arith, e.1, v.metrics q d e.0 e.1)
]

-- Two processes with valid tables: after the receiver has handled the update that the sender makes
-- for it over a link of this cost, its distance to any third process is the Bellman-Ford step on
-- the sender's distance plus the cost, and stays as it was where the sender has no route. The sums
-- of metrics must fit 16 bits.
pub process_update-update_to :
    (q d : String) (n : Address) (cost : ℕ) (a b : SimpleDv)
    → IsValid a
    → IsValid b
    → a.my_addr ≢ b.my_addr
    → d ≢ a.my_addr
    → d ≢ b.my_addr
    → a.inf_metric + cost ≤ uint16_max
    → distance b.inf_metric (route q d (process_update (update_to a q n cost) b).0)
      ≡ exchanged b.inf_metric a.my_addr cost (route q d a) (route q d b)
unfolding relaxed_all offer exchanged update_to
process_update-update_to q d n cost a b v w ab da db small =
    let up = update_to a q n cost in
    let r = route-process_update q d up b ab db in
    let m = metrics_of-update_to d q n cost a v da in
    let same = (string_key.same_iff q q).1 refl in
    elim (Option-cases (route q d a)) [
      | inl none_a ↦ ground (arith, r, m, same, none_a)
      | inr e ↦ ground (
        arith,
        r,
        m,
        same,
        e.1,
        offered_small a.inf_metric cost e.0 small (v.metrics q d e.0 e.1),
        distance-relaxed b.inf_metric a.my_addr (e.0.metric + cost) (route q d b) w.short_inf
            (distance-valid q d b w),
      )
    ]
