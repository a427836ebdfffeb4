-- ===== src/Forwarding/Generator/InStep.antt =====
-- The MiniTable that src/policies/DIF/RA/PDUFG/SimpleGenerator/SimpleGenerator.cc fills follows the
-- routes of the distance vector policy.
use Prim.Native.String.{String}
use rinasim.Base.{
  ℕ, Bool, true, false, not, ◌≢◌, inl, inr, Option, none, some, [], ◌∷◌, ◌≡◌, refl, sym, subst,
  arith, if◌then◌else◌, string_key, number_key, pair_key, Map, Set, member, lookup, at_key,
  or_default, is_empty, IsMap, lookup-put, lookup-erase, All, Option-cases, if_both,
}
use rinasim.Routing.{EntType, Entries2Next}
use rinasim.Routing.Distance.{SimpleDv, RoutingUpdate, get_changes, process_update, table_of}
use rinasim.Routing.Distance.Routes.{route}
use rinasim.Routing.Distance.Invariant.{IsValid, Event, step, step-IsValid}
use rinasim.Routing.Distance.Relax.{next_hop}
use rinasim.Routing.Distance.Reported.{
  View, Agrees, shown, taken_over, first_hop, process_update-Agrees,
}
use rinasim.Routing.Distance.Changes.{
  IsOf, IsCollected, process_update-IsCollected, empty-IsCollected,
}
use rinasim.Routing.Distance.Hops.{HopsAre, process_update-HopsAre}
use rinasim.Forwarding.{RmtPort}
use rinasim.Forwarding.MiniTable.{FwdTable, insert, remove}
use rinasim.Forwarding.Generator.{
  SimpleGenerator, first_name, first_of, port_to, set_port, apply_changes, routing_updated,
  receive_update,
}

abbrev pub Neighbours : Type 0
Neighbours = Map String (Set RmtPort)

unfoldable pub has_port : Neighbours → String → Bool
has_port nb hop = not (is_empty (at_key [] hop nb))

-- A named neighbour with a port.
abbrev pub IsLinked : Neighbours → String → Type 0
IsLinked nb hop = (hop ≢ "") × (has_port nb hop ≡ true)

-- A forwarding entry is right for a next hop: it is a port of that neighbour.
unfoldable pub is_right : Neighbours → Option String → Option RmtPort → Bool
is_right nb none none = true
is_right nb none (some p) = false
is_right nb (some hop) none = false
is_right nb (some hop) (some p) = member p (at_key [] hop nb)

unfoldable pub hop_to : String → SimpleGenerator → Option String
hop_to d g = next_hop (route "" d g.rt)

pub record IsInStep (g : SimpleGenerator) : Type 0 where
  pub valid : IsValid g.rt
  pub drained : g.rt.changes ≡ []
  pub linked : HopsAre (IsLinked g.neighbours) "" g.rt
  pub right : (d : String) → is_right g.neighbours (hop_to d g) (lookup d g.fwd) ≡ true

-- The port that the changes leave for a destination.
unfoldable pub changed_port : Neighbours → Option EntType → Option RmtPort → Option RmtPort
changed_port nb none old = old
changed_port nb (some et) old = port_to nb et

lookup-set_port :
    (d k : String) (o : Option RmtPort) (fwd : FwdTable)
    → lookup d (set_port k o fwd) ≡ (if string_key.same d k then o else lookup d fwd)
unfolding set_port insert remove
lookup-set_port d k none fwd = lookup-erase d k fwd
lookup-set_port d k (some p) fwd = lookup-put d k p fwd

lookup-apply_changes :
    (nb : Neighbours) (d q : String) (cs : Entries2Next) (fwd : FwdTable)
    → IsMap cs
    → All (IsOf q) cs
    → lookup d (apply_changes nb cs fwd) ≡ changed_port nb (lookup (q, d) cs) (lookup d fwd)
unfolding apply_changes changed_port lookup IsMap
lookup-apply_changes nb d q [] fwd h k = refl
lookup-apply_changes nb d q (((r, x), et) ∷ cs) fwd h k = ground (
  arith,
  k.0,
  h.0,
  lookup-apply_changes nb d q cs (set_port x (port_to nb et) fwd) h.1 k.1,
  lookup-set_port d x (port_to nb et) fwd,
  string_key.same_iff d x,
  string_key.same_iff q q,
)

pub first-member :
    (ports : Set RmtPort)
    → is_empty ports ≡ false
    → (p : RmtPort) × ((first_of (some ports) ≡ some p) × (member p ports ≡ true))
unfolding first_of member
first-member [] h = ground arith
first-member (p ∷ ports) h = (p, (refl, ground arith))

pub is_right-first :
    (nb : Neighbours) (hop : String)
    → has_port nb hop ≡ true
    → is_right nb (some hop) (first_of (lookup hop nb)) ≡ true
unfolding has_port is_right first_of at_key or_default member
is_right-first nb hop h = elim (Option-cases (lookup hop nb)) [
  | inl n ↦ ground (arith, h, n)
  | inr s ↦ ground (arith, h, s.1, first-member s.0)
]

port_to-right :
    (nb : Neighbours) (m : Option ℕ) (nh : Set String) (hop : Option String)
    → first_hop (record { metric = m; nh = nh }) ≡ hop
    → ((x : String) → hop ≡ some x → IsLinked nb x)
    → is_right nb hop (port_to nb (record { metric = m; nh = nh })) ≡ true
unfolding first_hop port_to first_name is_right
port_to-right nb m [] hop h l = ground (arith, h)
port_to-right nb m (x ∷ nh) hop h l =
    let linked = l x (sym h) in
    ground (arith, h, linked.0, string_key.same_iff x "", is_right-first nb x linked.1)

changed_port-right :
    (nb : Neighbours) (c : Option EntType) (before hop : Option String) (old : Option RmtPort)
    → taken_over before c ≡ hop
    → ((x : String) → hop ≡ some x → IsLinked nb x)
    → is_right nb before old ≡ true
    → is_right nb hop (changed_port nb c old) ≡ true
unfolding taken_over changed_port
changed_port-right nb none before hop old h l r = ground (arith, h, r)
changed_port-right nb (some et) before hop old h l r = port_to-right nb et.metric et.nh hop h l

-- The routing has been updated, and the generator takes the changes over.
pub routing_updated-IsInStep :
    (view : View) (g : SimpleGenerator)
    → IsValid g.rt
    → Agrees view g.rt
    → IsCollected "" g.rt.changes
    → HopsAre (IsLinked g.neighbours) "" g.rt
    → ((d : String) → is_right g.neighbours (view ("", d)) (lookup d g.fwd) ≡ true)
    → IsInStep (routing_updated g)
unfolding routing_updated get_changes hop_to route table_of Agrees shown HopsAre step
routing_updated-IsInStep view g v a c l r = record {
  valid = step-IsValid Event.taken g.rt v;
  drained = refl;
  linked = l;
  right = λ d. ground (
    arith,
    lookup-apply_changes g.neighbours d "" g.rt.changes g.fwd c.single c.of_qos,
    changed_port-right g.neighbours (lookup ("", d) g.rt.changes) (view ("", d))
        (next_hop (route "" d g.rt)) (lookup d g.fwd) (a "" d) (l d) (r d),
  );
}

unfoldable pub hops : SimpleDv → View
hops s k = next_hop (route k.0 k.1 s)

pub hops-Agrees : (s : SimpleDv) → s.changes ≡ [] → Agrees (hops s) s
unfolding Agrees shown hops taken_over lookup
hops-Agrees s h q d = ground (arith, h)

pub drained-IsCollected : (q : String) (s : SimpleDv) → s.changes ≡ [] → IsCollected q s.changes
drained-IsCollected q s h = subst (IsCollected q) (sym h) (empty-IsCollected q)

-- An update that asks for nothing leaves no change behind.
untold :
    (up : RoutingUpdate) (s : SimpleDv)
    → s.changes ≡ []
    → (process_update up s).1 ≡ false
    → (process_update up s).0.changes ≡ []
unfolding process_update
untold up s h k = ground (arith, h, k)

agreed :
    (view : View) (s : SimpleDv)
    → Agrees view s
    → s.changes ≡ []
    → (d : String) → view ("", d) ≡ next_hop (route "" d s)
unfolding Agrees shown taken_over lookup
agreed view s a h d = ground (arith, a "" d, h)

-- Where the forwarding table is in step with the routes, an update for the QoS of the generator, from
-- a named process to which some flow leads, leaves it in step: a destination has an entry exactly
-- where it has a route, and the entry is a port of the next hop.
pub receive_update-IsInStep :
    (up : RoutingUpdate) (g : SimpleGenerator)
    → IsInStep g
    → up.qos ≡ ""
    → IsLinked g.neighbours up.src
    → IsInStep (receive_update up g)
unfolding receive_update step hops hop_to
receive_update-IsInStep up g s q n =
    let t = (process_update up g.rt).0 in
    let h : SimpleGenerator = record g { rt = t } in
    let v = step-IsValid (Event.update up) g.rt s.valid in
    let a = process_update-Agrees (hops g.rt) up g.rt s.valid n.0 (hops-Agrees g.rt s.drained) in
    let l =
      process_update-HopsAre (IsLinked g.neighbours) "" up g.rt s.valid.short_inf n.0 n s.linked in
    let c =
      subst (λ r. IsCollected r t.changes) q
        (process_update-IsCollected up g.rt (drained-IsCollected up.qos g.rt s.drained)) in
    if_both IsInStep (process_update up g.rt).1 (routing_updated h) h
      (λ told. routing_updated-IsInStep (hops g.rt) h v a c l s.right)
      (λ quiet. record {
        valid = v;
        drained = untold up g.rt s.drained quiet;
        linked = l;
        right = λ d.
            ground (arith, agreed (hops g.rt) t a (untold up g.rt s.drained quiet) d, s.right d);
      })
