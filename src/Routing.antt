-- ===== src/Routing.antt =====
-- src/policies/DIF/Routing: the routing policies. Here, what they share with the generators of
-- forwarding entries, as src/policies/DIF/Routing/SimpleRouting/IntSimpleRouting.h and
-- src/Common/Address.cc declare it.
use Prim.Native.String.{String}
use rinasim.Base.{ℕ, ◌≡◌, ◌&&◌, Bool, true, Option, arith, Key, Map, Set, string_key, pair_key}
use mathlib.Core.Logic.{◌↔◌}
use rinasim.Efcp.Pdu.{Address}
pub mod Distance
pub mod LinkState
mod Examples

abbrev address_same : Address → Address → Bool
address_same a b =
    string_key.same a.ipc_address b.ipc_address && string_key.same a.dif_name b.dif_name

abbrev address_before : Address → Address → Bool
address_before a b =
    (pair_key {A = String} {B = String}).before (a.ipc_address, a.dif_name)
      (b.ipc_address, b.dif_name)

pub address_same_iff : (a b : Address) → (address_same a b ≡ true) ↔ (a ≡ b)
address_same_iff a b = ground (
  arith,
  string_key.same_iff a.ipc_address b.ipc_address,
  string_key.same_iff a.dif_name b.dif_name,
)

instance abbrev pub address_key : Key Address
address_key = record { same = address_same; same_iff = address_same_iff; before = address_before }

-- The metric is none as long as nothing has assigned it: `entType` has no constructor.
pub record EntType : Type 0 where
  pub metric : Option ℕ
  pub nh : Set String

abbrev pub QosPaddr : Type 0
QosPaddr = String × String

abbrev pub Entries2Next : Type 0
Entries2Next = Map QosPaddr EntType
