-- ===== src/Enrollment/Enroll.antt =====
-- src/DIF/Enrollment/Enrollment.cc: the enrolment after the connection, on both sides.
use rinasim.Base.{Bool, true, false, not, none, some, [], ◌∷◌, if◌then◌else◌, Result}
use rinasim.Efcp.Pdu.{Address}
use rinasim.Enrollment.{
  EnrollStatus, enroll_wait_start_enrollment, enroll_wait_start_response_enrollment,
  enroll_wait_stop_enrollment, enroll_wait_stop_response_enrollment, enroll_wait_read_response,
  enroll_wait_start_operation, enroll_enrolled, MgmtFlow, apname, Entry, EnrollmentObj, Message,
  start_enrollment, start_enrollment_r, stop_enrollment, stop_enrollment_r, Enrollment,
  find_entry_by_dst_apn, Effect, quiet, says, on_entry,
}

abbrev pub waits_start_response : EnrollStatus → Bool
waits_start_response enroll_wait_start_response_enrollment = true
waits_start_response _ = false

abbrev pub waits_stop : EnrollStatus → Bool
waits_stop enroll_wait_stop_enrollment = true
waits_stop _ = false

abbrev pub waits_start : EnrollStatus → Bool
waits_start enroll_wait_start_enrollment = true
waits_start _ = false

abbrev pub waits_stop_response : EnrollStatus → Bool
waits_stop_response enroll_wait_stop_response_enrollment = true
waits_stop_response _ = false

unfoldable pub new_obj : MgmtFlow → EnrollmentObj
new_obj f = record { src_addr = f.src_addr; dst_addr = f.dst_addr; address = ""; immediate = false }

-- `startEnrollment`: the process asks for the address that it has.
unfoldable pub start_enrollment_of : Address → Entry → Effect
start_enrollment_of mine e =
    says (record e { enroll_status = enroll_wait_start_response_enrollment })
      (start_enrollment (record (new_obj e.flow) { address = mine.ipc_address }))

unfoldable pub start_response : Entry → Effect
start_response e =
    if not (waits_start_response e.enroll_status)
    then quiet e
    else quiet (record e { enroll_status = enroll_wait_stop_enrollment })

-- The address that the process takes.
unfoldable pub assigned : EnrollmentObj → Entry → Address → Address
assigned obj e mine =
    if not (waits_start_response e.enroll_status)
    then mine
    else record mine { ipc_address = obj.address }

unfoldable pub assign_address : EnrollmentObj → Enrollment → Enrollment
assign_address obj s = elim (find_entry_by_dst_apn (apname obj.src_addr) s.state_table) [
  | none ↦ s
  | some e ↦ record s { my_address = assigned obj e s.my_address }
]

unfoldable pub receive_start_enrollment_response : EnrollmentObj → Enrollment → Result Enrollment
receive_start_enrollment_response obj s =
    on_entry (apname obj.src_addr) start_response (assign_address obj s)

unfoldable pub process_stop_enrollment_response : Entry → Effect
process_stop_enrollment_response e =
    if e.immediate_enrollment
    then record {
      entry = record e { enroll_status = enroll_enrolled };
      messages = stop_enrollment_r (new_obj e.flow) ∷ [];
      done = e.flow ∷ [];
    }
    else says (record e { enroll_status = enroll_wait_start_operation })
        (stop_enrollment_r (new_obj e.flow))

unfoldable pub stop_request : EnrollmentObj → Entry → Effect
stop_request obj e =
    if not (waits_stop e.enroll_status)
    then quiet e
    else process_stop_enrollment_response (record e {
      immediate_enrollment = obj.immediate;
      enroll_status = enroll_wait_read_response;
    })

unfoldable pub receive_stop_enrollment_request : EnrollmentObj → Enrollment → Result Enrollment
receive_stop_enrollment_request obj s = on_entry (apname obj.src_addr) (stop_request obj) s

-- The member answers, and then ends the enrolment at once.
unfoldable pub process_stop_enrollment_immediate : Message → Entry → Effect
process_stop_enrollment_immediate answer e = record {
  entry = record e {
    immediate_enrollment = true;
    enroll_status = enroll_wait_stop_response_enrollment;
  };
  messages = answer ∷ stop_enrollment (record (new_obj e.flow) { immediate = true }) ∷ [];
  done = [];
}

unfoldable pub start_request : EnrollmentObj → Entry → Effect
start_request obj e =
    if not (waits_start e.enroll_status)
    then quiet e
    else process_stop_enrollment_immediate
        (start_enrollment_r (record (new_obj e.flow) { address = obj.address })) e

unfoldable pub receive_start_enrollment_request : EnrollmentObj → Enrollment → Result Enrollment
receive_start_enrollment_request obj s = on_entry (apname obj.src_addr) (start_request obj) s

unfoldable pub stop_response : Entry → Effect
stop_response e =
    if not (waits_stop_response e.enroll_status)
    then quiet e
    else if e.immediate_enrollment
    then quiet (record e { enroll_status = enroll_enrolled })
    else quiet e

unfoldable pub receive_stop_enrollment_response : EnrollmentObj → Enrollment → Result Enrollment
receive_stop_enrollment_response obj s = on_entry (apname obj.src_addr) stop_response s
