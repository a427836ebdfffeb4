-- ===== src/Forwarding/SimpleTable/Laws.antt =====
-- src/policies/DIF/RMT/PDUForwarding/SimpleTable/SimpleTable.cc against the promise of a table.
use Prim.Native.String.{String}
use rinasim.Base.{
  true, none, some, List, [], ◌∷◌, ◌≡◌, ◌≢◌, refl, ◌∙◌, if◌then◌else◌, arith, string_key, lookup,
  put, erase, at_key, or_default, is_empty, lookup-put, lookup-erase,
}
use rinasim.Efcp.Pdu.{Address}
use rinasim.Forwarding.{RmtPort, val_mgmtqosid, any_qos}
use rinasim.Forwarding.Spec.{Call, Ports, set_at, replay, replay-same}
use rinasim.Forwarding.MiniTable.{found}
use rinasim.Forwarding.SimpleTable.{
  FwdTable, Qos2Port, lookup_address, insert, remove, port_of, or_else, chosen, first_port,
}

unfoldable pub reads : FwdTable → Ports
reads table a q = lookup q (at_key [] a table)

unfoldable pub step : Call → FwdTable → FwdTable
step (Call.insert addr qos port) t = insert addr qos port t
step (Call.remove addr qos) t = remove addr qos t
step (Call.look_up dst qos) t = (lookup_address dst qos t).1

unfoldable pub run : List Call → FwdTable → FwdTable
run [] t = t
run (c ∷ cs) t = run cs (step c t)

empty_reads : (q : String) (t : Qos2Port) → is_empty t ≡ true → lookup q t ≡ none
unfolding lookup
empty_reads q [] h = refl
empty_reads q (x ∷ t) h = ground arith

reads-insert :
    (a q addr qos : String) (port : RmtPort) (t : FwdTable)
    → reads (insert addr qos port t) a q ≡ set_at addr qos (some port) (reads t) a q
unfolding reads insert set_at at_key or_default
reads-insert a q addr qos port t = ground (
  arith,
  lookup-put a addr (put qos port (at_key [] addr t)) t,
  lookup-put q qos port (at_key [] addr t),
  string_key.same_iff a addr,
)

reads-remove :
    (a q addr qos : String) (t : FwdTable)
    → reads (remove addr qos t) a q ≡ set_at addr qos none (reads t) a q
unfolding reads remove set_at at_key or_default lookup
reads-remove a q addr qos t =
    let u = erase qos (at_key [] addr t) in
    ground (
      arith,
      lookup-put a addr u t,
      lookup-erase a addr t,
      lookup-erase q qos (at_key [] addr t),
      empty_reads q u,
      string_key.same_iff a addr,
    )

reads-lookup_address :
    (a q : String) (dst : Address) (qos : String) (t : FwdTable)
    → reads (lookup_address dst qos t).1 a q ≡ reads t a q
unfolding reads lookup_address at_key or_default
reads-lookup_address a q dst qos t = ground (
  arith,
  lookup-put a dst.ipc_address (at_key [] dst.ipc_address t) t,
  string_key.same_iff a dst.ipc_address,
)

-- Any sequence of calls leaves a table that reads as the replay of the calls on the function that
-- it read as before.
pub reads-run :
    (cs : List Call) (t : FwdTable) (a q : String) → reads (run cs t) a q ≡ replay cs (reads t) a q
unfolding run step replay
reads-run [] t a q = refl
reads-run (Call.insert addr qos port ∷ cs) t a q =
    reads-run cs (insert addr qos port t) a q
    ∙ replay-same cs _ _ (λ b r. reads-insert b r addr qos port t) a q
reads-run (Call.remove addr qos ∷ cs) t a q =
    reads-run cs (remove addr qos t) a q
    ∙ replay-same cs _ _ (λ b r. reads-remove b r addr qos t) a q
reads-run (Call.look_up dst qos ∷ cs) t a q =
    reads-run cs (lookup_address dst qos t).1 a q
    ∙ replay-same cs _ _ (λ b r. reads-lookup_address b r dst qos t) a q

-- After any calls on an empty table, a lookup answers with the port that the calls leave for the
-- destination and the QoS; or else, for the management QoS alone, with the first port of the table's
-- entry for the destination; or else with the port that the calls leave for any QoS, or with none.
pub lookup_address-run :
    (cs : List Call) (dst : Address) (qos : String)
    → (lookup_address dst qos (run cs [])).0
      ≡ found (
          or_else
            (or_else (replay cs (λ a q. none) dst.ipc_address qos) (
              if string_key.same qos val_mgmtqosid
              then first_port (at_key [] dst.ipc_address (run cs []))
              else none))
            (replay cs (λ a q. none) dst.ipc_address any_qos))
unfolding lookup_address port_of chosen or_else reads at_key or_default lookup
lookup_address-run cs dst qos =
    ground (arith, reads-run cs [] dst.ipc_address qos, reads-run cs [] dst.ipc_address any_qos)

some_first : (q : String) (p : RmtPort) (t : Qos2Port) → lookup q t ≡ some p → first_port t ≢ none
unfolding lookup first_port
some_first q p [] h = ground arith
some_first q p (x ∷ t) h = ground arith

-- The management flow is never without a port where some QoS has one to the destination.
pub lookup_address-management :
    (t : FwdTable) (dst : Address) (q : String) (p : RmtPort)
    → reads t dst.ipc_address q ≡ some p
    → (lookup_address dst val_mgmtqosid t).0 ≢ []
unfolding lookup_address port_of chosen or_else reads found
lookup_address-management t dst q p h = ground (
  arith,
  h,
  some_first q p (at_key [] dst.ipc_address t) h,
  (string_key.same_iff val_mgmtqosid val_mgmtqosid).1 refl,
)
