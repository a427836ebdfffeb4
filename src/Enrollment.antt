-- ===== src/Enrollment.antt =====
-- src/DIF/Enrollment: the state table, src/DIF/Enrollment/EnrollmentStateTable.cc and
-- EnrollmentStateTableEntry.cc, and what two processes send each other, as
-- src/DAF/CDAP/CDAPMessage.msg and src/DIF/Enrollment/EnrollmentObj.cc declare it.
use Prim.Native.String.{String, ◌++◌ as join}
use rinasim.Base.{
  ℕ, ◌+◌, Bool, true, false, Option, none, some, List, [], ◌∷◌, ◌++◌, string_key, if◌then◌else◌,
  Result, ok, err, null_entry,
}
use rinasim.Efcp.Pdu.{Address}
pub mod Connect
pub mod Enroll
pub mod Exchange
pub mod Invariant
mod Examples

pub data ConStatus : Type 0 where
  con_error con_nil con_flowpending con_connectpending con_authenticating con_established
        con_releasing :
      ConStatus

pub data EnrollStatus : Type 0 where
  enroll_error enroll_nil enroll_wait_start_enrollment enroll_wait_start_response_enrollment
        enroll_wait_stop_enrollment enroll_wait_stop_response_enrollment enroll_wait_read_response
        enroll_wait_start_operation enroll_creating_obj enroll_enrolled :
      EnrollStatus

-- `naming_t`, and `APNamingInfo`, which it is filled from.
pub record Naming : Type 0 where
  pub ap_name : String
  pub ap_inst : String
  pub ae_name : String
  pub ae_inst : String

pub record MgmtFlow : Type 0 where
  pub src_apni : Naming
  pub dst_apni : Naming
  pub src_addr : Address
  pub dst_addr : Address

-- `Address::getApname`.
unfoldable pub apname : Address → String
apname a = join a.ipc_address (join "_" a.dif_name)

pub record Entry : Type 0 where
  pub flow : MgmtFlow
  pub con_status : ConStatus
  pub enroll_status : EnrollStatus
  pub connect_retries : ℕ
  pub immediate_enrollment : Bool
  pub is_initiator : Bool

-- The constructor with a status; the flag that it leaves unset is taken to be false.
unfoldable pub new_entry : MgmtFlow → ConStatus → Bool → Entry
new_entry flow status initiator = record {
  flow = flow;
  con_status = status;
  enroll_status = enroll_nil;
  connect_retries = 0;
  immediate_enrollment = false;
  is_initiator = initiator;
}

abbrev pub auth_none : ℕ
auth_none = 0

abbrev pub auth_passwd : ℕ
auth_passwd = 1

abbrev pub gpb : ℕ
gpb = 8

abbrev pub m_connect : ℕ
m_connect = 1

abbrev pub m_connect_r : ℕ
m_connect_r = 2

pub record AuthValue : Type 0 where
  pub auth_name : String
  pub auth_password : String
  pub auth_other : String

pub record Auth : Type 0 where
  pub auth_type : ℕ
  pub auth_value : AuthValue

pub record ConnectMsg : Type 0 where
  pub auth : Auth
  pub abs_syntax : ℕ
  pub op_code : ℕ
  pub dst : Naming
  pub src : Naming
  pub dst_addr : Address

-- The flag that the constructor leaves unset is taken to be false.
pub record EnrollmentObj : Type 0 where
  pub src_addr : Address
  pub dst_addr : Address
  pub address : String
  pub immediate : Bool

pub data Message : Type 0 where
  connect : ConnectMsg → Message
  -- The flag is the result: R_SUCCESS or R_FAIL.
  connect_r : Bool → ConnectMsg → Message
  start_enrollment : EnrollmentObj → Message
  start_enrollment_r : EnrollmentObj → Message
  stop_enrollment : EnrollmentObj → Message
  stop_enrollment_r : EnrollmentObj → Message

pub record Config : Type 0 where
  pub auth : Auth
  pub max_con_retries : ℕ

-- The module, with the address that the RIB daemon keeps for the process, what it has sent, and
-- the flows whose enrolment it has signalled as finished.
pub record Enrollment : Type 0 where
  pub config : Config
  pub my_address : Address
  pub state_table : List Entry
  pub sent : List Message
  pub finished : List MgmtFlow

unfoldable pub insert : Entry → Enrollment → Enrollment
insert e s = record s { state_table = s.state_table ++ (e ∷ []) }

unfoldable pub is_for : String → Entry → Bool
is_for apn e = string_key.same (apname e.flow.dst_addr) apn

unfoldable pub find_entry_by_dst_apn : String → List Entry → Option Entry
find_entry_by_dst_apn apn [] = none
find_entry_by_dst_apn apn (e ∷ es) =
    let rest = find_entry_by_dst_apn apn es in if is_for apn e then some e else rest

-- The entry that a handler holds a pointer to is written back.
unfoldable pub write_entry : String → Entry → List Entry → List Entry
write_entry apn new [] = []
write_entry apn new (e ∷ es) =
    let rest = write_entry apn new es in if is_for apn e then new ∷ es else e ∷ rest

-- What a handler does with its entry.
pub record Effect : Type 0 where
  pub entry : Entry
  pub messages : List Message
  pub done : List MgmtFlow

unfoldable pub quiet : Entry → Effect
quiet e = record { entry = e; messages = []; done = [] }

unfoldable pub says : Entry → Message → Effect
says e m = record { entry = e; messages = m ∷ []; done = [] }

unfoldable pub apply_effect : String → Effect → Enrollment → Enrollment
apply_effect apn x s = record s {
  state_table = write_entry apn x.entry s.state_table;
  sent = s.sent ++ x.messages;
  finished = s.finished ++ x.done;
}

-- A handler finds its entry by the name of the sender; it does not look whether there is one.
unfoldable pub on_entry : String → (Entry → Effect) → Enrollment → Result Enrollment
on_entry apn handler s = elim (find_entry_by_dst_apn apn s.state_table) [
  | none ↦ err null_entry
  | some e ↦ ok (apply_effect apn (handler e) s)
]
