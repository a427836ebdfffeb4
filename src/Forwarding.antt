-- ===== src/Forwarding.antt =====
-- src/policies/DIF/RMT/PDUForwarding and src/policies/DIF/RA/PDUFG: the forwarding tables and the
-- generators that fill them. A port is known by its place in memory, a number.
use Prim.Native.String.{String}
use rinasim.Base.{ℕ, List, Map}
mod MiniTable
mod Spec
mod SimpleTable
mod QosTable
mod Generator
mod Examples

abbrev pub RmtPort : Type 0
RmtPort = ℕ

-- src/src/Common/QoSCube.cc: the QoS of the management flow.
abbrev pub val_mgmtqosid : String
val_mgmtqosid = "MGMT-QoSCube"

-- SimpleTable.h.
abbrev pub any_qos : String
any_qos = "*"
