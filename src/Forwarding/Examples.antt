-- ===== src/Forwarding/Examples.antt =====
-- The theorems on the forwarding tables and their generator at concrete data.
use rinasim.Base.{
  inr, false, if◌then◌else◌, none, List, [], ◌∷◌, ◌≡◌, refl, arith, string_key, number_key,
  pair_key, add, IsMap, lookup, put, insert_new, erase, at_key, or_default,
}
use rinasim.Efcp.Pdu.{Address}
use rinasim.Routing.Distance.{RoutingUpdate, table_of}
use rinasim.Routing.Distance.Routes.{route}
use rinasim.Routing.Distance.Invariant.{IsValid}
use rinasim.Routing.Distance.Relax.{next_hop, distance}
use rinasim.Routing.Distance.Reported.{IsNews}
use rinasim.Routing.Distance.Hops.{HopsAre}
use rinasim.Forwarding.{val_mgmtqosid, any_qos}
use rinasim.Forwarding.Spec.{Call, replay}
use rinasim.Forwarding.MiniTable.{found}
use rinasim.Forwarding.SimpleTable.{lookup_address, or_else, first_port}
use rinasim.Forwarding.SimpleTable.Laws.{run, lookup_address-run}
use rinasim.Forwarding.Generator.{SimpleGenerator, receive_update, inserted_flow, routing_updated}
use rinasim.Forwarding.Generator.InStep.{
  IsInStep, IsLinked, has_port, is_right, hop_to, receive_update-IsInStep,
}
use rinasim.Forwarding.Generator.Inserted.{inserted_flow-IsInStep}

abbrev far : Address
far = record { ipc_address = "far"; dif_name = "net" }

abbrev calls : List Call
calls =
    Call.insert "far" "gold" 1
    ∷ Call.insert "far" any_qos 2
    ∷ Call.look_up far "gold"
    ∷ Call.remove "far" "gold"
    ∷ []

lookup_address-run_example :
    (lookup_address far val_mgmtqosid (run calls [])).0
    ≡ found (
        or_else
          (or_else (replay calls (λ a q. none) "far" val_mgmtqosid) (
            if string_key.same val_mgmtqosid val_mgmtqosid
            then first_port (at_key [] "far" (run calls []))
            else none))
          (replay calls (λ a q. none) "far" any_qos))
lookup_address-run_example = lookup_address-run calls far val_mgmtqosid

abbrev empty : SimpleGenerator
empty = record {
  neighbours = [];
  fwd = [];
  rt = record {
    inf_metric = 100;
    my_addr = "here";
    neig = [];
    table = [];
    changes = [];
    scheduled_update = false;
  };
}

empty-IsValid : IsValid empty.rt
unfolding table_of at_key or_default lookup IsMap route
empty-IsValid = record {
  tables = λ q. tt;
  metrics = λ q d e h. ground (arith, h);
  short_inf = omega arith;
}

empty-IsInStep : IsInStep empty
unfolding hop_to next_hop route table_of at_key or_default lookup is_right HopsAre
empty-IsInStep = record {
  valid = empty-IsValid;
  drained = refl;
  linked = λ d hop h. ground (arith, h);
  right = λ d. refl;
}

far-IsNews : IsNews empty.rt "far" "" 1
unfolding distance next_hop route table_of at_key or_default lookup
far-IsNews = record {
  named = ground (arith, string_key.same_iff "far" "");
  finite_metric = omega arith;
  no_worse = omega arith;
  another_hop = ground arith;
}

inserted_flow-IsInStep_example : IsInStep (inserted_flow far 7 empty)
inserted_flow-IsInStep_example = inserted_flow-IsInStep far 7 empty empty-IsInStep (inr far-IsNews)

abbrev update_from_far : RoutingUpdate
update_from_far = record {
  destination = record { ipc_address = "here"; dif_name = "net" };
  src = "far";
  qos = "";
  entries = (record { addr = "farther"; metric = 4 }) ∷ [];
}

far-IsLinked : IsLinked (inserted_flow far 7 empty).neighbours "far"
unfolding has_port inserted_flow routing_updated at_key or_default lookup put insert_new erase add
far-IsLinked = (ground (arith, string_key.same_iff "far" ""), refl)

receive_update-IsInStep_example :
    IsInStep (receive_update update_from_far (inserted_flow far 7 empty))
receive_update-IsInStep_example =
    receive_update-IsInStep update_from_far (inserted_flow far 7 empty)
      (inserted_flow-IsInStep far 7 empty empty-IsInStep (inr far-IsNews)) refl far-IsLinked
