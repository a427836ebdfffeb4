-- ===== src/Forwarding/SimpleTable.antt =====
-- src/policies/DIF/RMT/PDUForwarding/SimpleTable/SimpleTable.cc: a port for each destination and
-- QoS, with an entry for any QoS.
use Prim.Native.String.{String}
use rinasim.Base.{
  Bool, true, false, ◌&&◌, not, Option, none, some, List, [], ◌∷◌, Key, string_key, Map, lookup,
  put, erase, at_key, is_empty, if◌then◌else◌,
}
use rinasim.Efcp.Pdu.{Address}
use rinasim.Forwarding.{RmtPort, val_mgmtqosid, any_qos}
use rinasim.Forwarding.MiniTable.{found}
pub mod Laws

abbrev pub Qos2Port : Type 0
Qos2Port = Map String RmtPort

abbrev pub FwdTable : Type 0
FwdTable = Map String Qos2Port

-- `t->begin()->second`.
unfoldable pub first_port : Qos2Port → Option RmtPort
first_port [] = none
first_port ((q, p) ∷ t) = some p

unfoldable pub or_else : Option RmtPort → Option RmtPort → Option RmtPort
or_else none o = o
or_else (some p) o = some p

-- The port of the QoS; for the management QoS any port will do.
unfoldable pub chosen : String → Qos2Port → Option RmtPort
chosen qos t =
    or_else (lookup qos t) (if string_key.same qos val_mgmtqosid then first_port t else none)

unfoldable pub port_of : String → Qos2Port → Option RmtPort
port_of qos t = or_else (chosen qos t) (lookup any_qos t)

-- `table[dst]` makes an empty entry where there is none.
unfoldable pub lookup_address : Address → String → FwdTable → List RmtPort × FwdTable
lookup_address dst qos table =
    let t = at_key [] dst.ipc_address table in (found (port_of qos t), put dst.ipc_address t table)

unfoldable pub insert : String → String → RmtPort → FwdTable → FwdTable
insert addr qos port table = put addr (put qos port (at_key [] addr table)) table

unfoldable pub remove : String → String → FwdTable → FwdTable
remove addr qos table =
    let t = erase qos (at_key [] addr table) in
    if is_empty t then erase addr table else put addr t table

unfoldable pub insert_any : String → RmtPort → FwdTable → FwdTable
insert_any addr port table = insert addr any_qos port table

unfoldable pub remove_any : String → FwdTable → FwdTable
remove_any addr table = remove addr any_qos table
