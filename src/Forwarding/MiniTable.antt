-- ===== src/Forwarding/MiniTable.antt =====
-- src/policies/DIF/RMT/PDUForwarding/MiniTable/MiniTable.cc: a port for each destination.
use Prim.Native.String.{String}
use rinasim.Base.{Option, none, some, List, [], ◌∷◌, string_key, Map, lookup, put, erase}
use rinasim.Efcp.Pdu.{Address}
use rinasim.Forwarding.{RmtPort}

abbrev pub FwdTable : Type 0
FwdTable = Map String RmtPort

unfoldable pub found : Option RmtPort → List RmtPort
found none = []
found (some p) = p ∷ []

unfoldable pub lookup_address : Address → String → FwdTable → List RmtPort
lookup_address dst qos table = found (lookup dst.ipc_address table)

unfoldable pub insert : String → RmtPort → FwdTable → FwdTable
insert addr port table = put addr port table

unfoldable pub remove : String → FwdTable → FwdTable
remove addr table = erase addr table

unfoldable pub insert_address : Address → RmtPort → FwdTable → FwdTable
insert_address addr port table = insert addr.ipc_address port table

unfoldable pub remove_address : Address → FwdTable → FwdTable
remove_address addr table = remove addr.ipc_address table

unfoldable pub clean : FwdTable → FwdTable
clean table = []
