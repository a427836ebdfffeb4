-- ===== src/Forwarding/Generator/Inserted.antt =====
-- A new flow in src/policies/DIF/RA/PDUFG/SimpleGenerator/SimpleGenerator.cc.
use Prim.Native.String.{String}
use rinasim.Base.{
  true, false, ◌≢◌, ◌⊎◌, inl, inr, Option, none, some, [], ◌∷◌, ◌≡◌, refl, arith, if◌then◌else◌,
  string_key, number_key, Set, add, lookup, put, at_key, or_default, is_empty, length, ◌==◌,
  lookup-put, member-add, if_both,
}
use rinasim.Efcp.Pdu.{Address}
use rinasim.Routing.Distance.{insert_flow}
use rinasim.Routing.Distance.Invariant.{Event, step, step-IsValid}
use rinasim.Routing.Distance.Reported.{IsNews, insert_flow-Agrees}
use rinasim.Routing.Distance.Changes.{insert_flow-IsCollected}
use rinasim.Routing.Distance.Hops.{HopsAre, insert_flow-HopsAre}
use rinasim.Forwarding.{RmtPort}
use rinasim.Forwarding.Generator.{SimpleGenerator, inserted_flow, routing_updated}
use rinasim.Forwarding.Generator.InStep.{
  Neighbours, has_port, IsLinked, is_right, hop_to, IsInStep, hops, hops-Agrees,
  drained-IsCollected, routing_updated-IsInStep,
}

unfoldable pub ports_to : String → RmtPort → Neighbours → Set RmtPort
ports_to dst port nb = add port (at_key [] dst nb)

unfoldable pub with_port : String → RmtPort → Neighbours → Neighbours
with_port dst port nb = put dst (ports_to dst port nb) nb

not_empty_add : (port : RmtPort) (ports : Set RmtPort) → is_empty (add port ports) ≡ false
unfolding add
not_empty_add port [] = refl
not_empty_add port (p ∷ ports) = ground arith

at-with_port :
    (hop dst : String) (port : RmtPort) (nb : Neighbours)
    → at_key [] hop (with_port dst port nb)
      ≡ (if string_key.same hop dst then add port (at_key [] hop nb) else at_key [] hop nb)
unfolding with_port ports_to at_key or_default
at-with_port hop dst port nb =
    ground (arith, lookup-put hop dst (add port (at_key [] dst nb)) nb, string_key.same_iff hop dst)

IsLinked-with_port :
    (hop dst : String) (port : RmtPort) (nb : Neighbours)
    → IsLinked nb hop
    → IsLinked (with_port dst port nb) hop
unfolding has_port
IsLinked-with_port hop dst port nb h =
    (h.0, ground (arith, h.1, at-with_port hop dst port nb, not_empty_add port (at_key [] hop nb)))

with_port-IsLinked :
    (dst : String) (port : RmtPort) (nb : Neighbours)
    → dst ≢ ""
    → IsLinked (with_port dst port nb) dst
unfolding has_port
with_port-IsLinked dst port nb n = (
  n,
  ground (
    arith,
    at-with_port dst dst port nb,
    not_empty_add port (at_key [] dst nb),
    (string_key.same_iff dst dst).1 refl,
  ),
)

-- A forwarding entry that was right stays right when a neighbour gets one more port.
right-with_port :
    (dst : String) (port : RmtPort) (nb : Neighbours) (hop : Option String) (old : Option RmtPort)
    → is_right nb hop old ≡ true
    → is_right (with_port dst port nb) hop old ≡ true
unfolding is_right
right-with_port dst port nb none none h = h
right-with_port dst port nb none (some p) h = h
right-with_port dst port nb (some hop) none h = h
right-with_port dst port nb (some hop) (some p) h =
    ground (arith, h, at-with_port hop dst port nb, member-add p port (at_key [] hop nb))

-- A new flow leaves the forwarding table in step with the routes where it is not the neighbour's
-- first port, or where it is and brings news: the neighbour is named, the metric 1 is finite and no
-- worse than that of the route to the neighbour, and that route does not go over the neighbour
-- already.
pub inserted_flow-IsInStep :
    (addr : Address) (port : RmtPort) (g : SimpleGenerator)
    → IsInStep g
    → ((length (ports_to addr.ipc_address port g.neighbours) == 1) ≡ false)
      ⊎ IsNews g.rt addr.ipc_address "" 1
    → IsInStep (inserted_flow addr port g)
unfolding inserted_flow step hops hop_to HopsAre with_port ports_to
inserted_flow-IsInStep addr port g s news =
    let dst = addr.ipc_address in
    let nb = with_port dst port g.neighbours in
    let h : SimpleGenerator = record g { neighbours = nb } in
    let rt = insert_flow addr dst "" 1 g.rt in
    let right = λ (d : String).
      right-with_port dst port g.neighbours (hop_to d g) (lookup d g.fwd) (s.right d) in
    let linked : HopsAre (IsLinked nb) "" g.rt =
      λ d hop a. IsLinked-with_port hop dst port g.neighbours (s.linked d hop a) in
    let later : IsInStep h = record {
      valid = s.valid;
      drained = s.drained;
      linked = linked;
      right = right;
    } in
    if_both IsInStep (length (ports_to dst port g.neighbours) == 1)
      (routing_updated (record h { rt = rt })) h
      (λ first. elim news [
        | inl more ↦ ground (arith, first, more)
        | inr n ↦
            routing_updated-IsInStep (hops g.rt) (record h { rt = rt })
              (step-IsValid (Event.inserted addr dst "" 1) g.rt s.valid)
              (insert_flow-Agrees (hops g.rt) addr dst "" 1 g.rt s.valid n
                (hops-Agrees g.rt s.drained))
              (insert_flow-IsCollected addr dst "" 1 g.rt (drained-IsCollected "" g.rt s.drained))
              (insert_flow-HopsAre (IsLinked nb) "" "" dst addr 1 g.rt s.valid.short_inf n.named
                (with_port-IsLinked dst port g.neighbours n.named) linked)
              right
      ])
      (λ more. later)
