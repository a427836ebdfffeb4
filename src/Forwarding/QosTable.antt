-- ===== src/Forwarding/QosTable.antt =====
-- src/policies/DIF/RMT/PDUForwarding/QoSTable/QoSTable.cc: a table of destinations for each QoS.
use Prim.Native.String.{String}
use rinasim.Base.{
  ◌&&◌, List, [], ◌∷◌, string_key, Map, lookup, put, erase, at_key, is_empty, if◌then◌else◌,
}
use rinasim.Efcp.Pdu.{Address}
use rinasim.Forwarding.{RmtPort, val_mgmtqosid}
use rinasim.Forwarding.MiniTable.{FwdTable, found}

abbrev pub QosFwdTable : Type 0
QosFwdTable = Map String FwdTable

unfoldable pub lookup_int : String → String → QosFwdTable → List RmtPort
lookup_int dst qos table = found (lookup dst (at_key [] qos table))

-- The loop of `lookup`: the first QoS that has a port for the destination.
unfoldable pub first_found : String → QosFwdTable → List RmtPort
first_found dst [] = []
first_found dst ((q, t) ∷ ts) =
    let rest = first_found dst ts in
    let here = found (lookup dst t) in if is_empty here then rest else here

-- `table[qos]` makes an empty table where there is none.
unfoldable pub touched : String → QosFwdTable → QosFwdTable
touched qos table = put qos (at_key [] qos table) table

unfoldable pub lookup_address : Address → String → QosFwdTable → List RmtPort × QosFwdTable
lookup_address dst qos table =
    let u = touched qos table in
    let ret = lookup_int dst.ipc_address qos u in
    if is_empty ret && string_key.same qos val_mgmtqosid
    then (first_found dst.ipc_address u, u)
    else (ret, u)

unfoldable pub insert : String → String → RmtPort → QosFwdTable → QosFwdTable
insert addr qos port table = put qos (put addr port (at_key [] qos table)) table

unfoldable pub remove : String → String → QosFwdTable → QosFwdTable
remove addr qos table =
    let t = erase addr (at_key [] qos table) in
    if is_empty t then erase qos table else put qos t table

unfoldable pub clean : QosFwdTable → QosFwdTable
clean table = []
