-- ===== src/Forwarding/Spec.antt =====
-- What a table of src/policies/DIF/RMT/PDUForwarding promises: a function from a destination and a
-- QoS to a port, which the calls change at one place.
use Prim.Native.String.{String}
use rinasim.Base.{◌&&◌, Option, none, some, List, [], ◌∷◌, string_key, if◌then◌else◌, ◌≡◌, arith}
use rinasim.Efcp.Pdu.{Address}
use rinasim.Forwarding.{RmtPort}

pub data Call : Type 0 where
  insert : String → String → RmtPort → Call
  remove : String → String → Call
  look_up : Address → String → Call

abbrev pub Ports : Type 0
Ports = String → String → Option RmtPort

unfoldable pub set_at : String → String → Option RmtPort → Ports → Ports
set_at addr qos port f a q = if string_key.same a addr && string_key.same q qos then port else f a q

unfoldable pub replay : List Call → Ports → Ports
replay [] f = f
replay (insert addr qos port ∷ calls) f = replay calls (set_at addr qos (some port) f)
replay (remove addr qos ∷ calls) f = replay calls (set_at addr qos none f)
replay (look_up dst qos ∷ calls) f = replay calls f

pub replay-same :
    (cs : List Call) (f g : Ports)
    → ((a q : String) → f a q ≡ g a q)
    → (a q : String) → replay cs f a q ≡ replay cs g a q
unfolding replay set_at
replay-same [] f g h a q = h a q
replay-same (insert addr qos port ∷ cs) f g h a q =
    replay-same cs (set_at addr qos (some port) f) (set_at addr qos (some port) g)
      (λ b r. ground (arith, h b r)) a q
replay-same (remove addr qos ∷ cs) f g h a q =
    replay-same cs (set_at addr qos none f) (set_at addr qos none g) (λ b r. ground (arith, h b r))
      a q
replay-same (look_up dst qos ∷ cs) f g h a q = replay-same cs f g h a q
