-- ===== src/Enrollment/Invariant.antt =====
-- What holds of every entry of the table of src/DIF/Enrollment/Enrollment.cc, whatever messages
-- arrive.
use Prim.Native.String.{String}
use rinasim.Base.{
  Bool, true, false, ◌||◌, inl, inr, some, List, [], ◌∷◌, ◌≡◌, refl, arith, Result, ok, err, All,
  All-append, Option-cases, string_key,
}
use rinasim.Efcp.Pdu.{Address}
use rinasim.Enrollment.{
  ConStatus, con_connectpending, con_authenticating, con_established, EnrollStatus, enroll_nil,
  MgmtFlow, Entry, new_entry, ConnectMsg, EnrollmentObj, Message, connect, connect_r,
  start_enrollment, start_enrollment_r, stop_enrollment, stop_enrollment_r, Config, Enrollment,
  insert, find_entry_by_dst_apn, write_entry, Effect, quiet, says, apply_effect, on_entry,
}
use rinasim.Enrollment.Connect.{
  start_cace, insert_state_table_entry, process_new_con_req, process_con_res_posi,
  process_con_res_nega, authenticate, connect_request, receive_connect_request, positive_response,
  receive_positive_connect_response, negative_response, receive_negative_connect_response,
}
use rinasim.Enrollment.Enroll.{
  start_enrollment_of, start_response, assign_address, receive_start_enrollment_response,
  process_stop_enrollment_response, stop_request, receive_stop_enrollment_request,
  process_stop_enrollment_immediate, start_request, receive_start_enrollment_request, stop_response,
  receive_stop_enrollment_response,
}
use rinasim.Enrollment.Exchange.{receive}

abbrev pub is_nil : EnrollStatus → Bool
is_nil enroll_nil = true
is_nil _ = false

abbrev pub is_established : ConStatus → Bool
is_established con_established = true
is_established _ = false

-- The enrolment has begun only over an established connection.
abbrev pub IsConnected : Entry → Type 0
IsConnected e = is_nil e.enroll_status || is_established e.con_status ≡ true

pub data Call : Type 0 where
  start : MgmtFlow → Call
  flow_created : MgmtFlow → Call
  received : Message → Call

-- A call that throws leaves the state as it was.
unfoldable pub or_same : Enrollment → Result Enrollment → Enrollment
or_same s (ok t) = t
or_same s (err e) = s

unfoldable pub step : Call → Enrollment → Enrollment
step (start f) s = start_cace f s
step (flow_created f) s = insert_state_table_entry f s
step (received m) s = or_same s (receive m s)

unfoldable pub run : List Call → Enrollment → Enrollment
run [] s = s
run (c ∷ cs) s = run cs (step c s)

unfoldable pub AllConnected : Enrollment → Type 0
AllConnected s = All IsConnected s.state_table

-- A handler that keeps the property of its entry.
Keeps : (Entry → Effect) → Type 0
Keeps h = (e : Entry) → IsConnected e → IsConnected (h e).entry

connect_request-Keeps : (c : Config) (m : ConnectMsg) → Keeps (connect_request c m)
unfolding Keeps connect_request authenticate process_con_res_posi process_con_res_nega says quiet
connect_request-Keeps c m e h = ground (arith, h)

positive_response-Keeps : (a : Address) → Keeps (positive_response a)
unfolding Keeps positive_response start_enrollment_of says quiet
positive_response-Keeps a e h = ground (arith, h)

negative_response-Keeps : (c : Config) → Keeps (negative_response c)
unfolding Keeps negative_response process_new_con_req says quiet
negative_response-Keeps c e h = ground (arith, h)

start_request-Keeps : (o : EnrollmentObj) → Keeps (start_request o)
unfolding Keeps start_request process_stop_enrollment_immediate quiet
start_request-Keeps o e h = ground (arith, h)

start_response-Keeps : Keeps start_response
unfolding Keeps start_response quiet
start_response-Keeps e h = ground (arith, h)

stop_request-Keeps : (o : EnrollmentObj) → Keeps (stop_request o)
unfolding Keeps stop_request process_stop_enrollment_response says quiet
stop_request-Keeps o e h = ground (arith, h)

stop_response-Keeps : Keeps stop_response
unfolding Keeps stop_response quiet
stop_response-Keeps e h = ground (arith, h)

found_IsConnected :
    (apn : String) (es : List Entry) (e : Entry)
    → All IsConnected es
    → find_entry_by_dst_apn apn es ≡ some e
    → IsConnected e
unfolding find_entry_by_dst_apn
found_IsConnected apn [] e h f = ground (arith, f)
found_IsConnected apn (x ∷ es) e h f = ground (arith, f, h.0, found_IsConnected apn es e h.1)

written_IsConnected :
    (apn : String) (new : Entry) (es : List Entry)
    → IsConnected new
    → All IsConnected es
    → All IsConnected (write_entry apn new es)
unfolding write_entry
written_IsConnected apn new [] n h = h
written_IsConnected apn new (x ∷ es) n h =
    ground (arith, n, h.0, h.1, written_IsConnected apn new es n h.1)

on_entry-AllConnected :
    (apn : String) (handler : Entry → Effect) (s : Enrollment)
    → Keeps handler
    → AllConnected s
    → AllConnected (or_same s (on_entry apn handler s))
unfolding on_entry or_same apply_effect AllConnected Keeps
on_entry-AllConnected apn handler s k h =
    elim (Option-cases (find_entry_by_dst_apn apn s.state_table)) [
      | inl n ↦ ground (arith, n, h)
      | inr e ↦ ground (
        arith,
        e.1,
        written_IsConnected apn (handler e.0).entry s.state_table
            (k e.0 (found_IsConnected apn s.state_table e.0 h e.1)) h,
      )
    ]

-- The address of the process is no part of the table.
assigned-AllConnected :
    (apn : String) (obj : EnrollmentObj) (s : Enrollment)
    → AllConnected s
    → AllConnected (or_same s (on_entry apn start_response (assign_address obj s)))
unfolding on_entry or_same apply_effect AllConnected assign_address
assigned-AllConnected apn obj s h =
    ground (arith, h, on_entry-AllConnected apn start_response s start_response-Keeps h)

received-AllConnected :
    (m : Message) (s : Enrollment) → AllConnected s → AllConnected (or_same s (receive m s))
unfolding receive receive_connect_request receive_positive_connect_response
    receive_negative_connect_response receive_start_enrollment_request
    receive_start_enrollment_response receive_stop_enrollment_request
    receive_stop_enrollment_response
received-AllConnected (connect m) s h =
    on_entry-AllConnected _ (connect_request s.config m) s (connect_request-Keeps s.config m) h
received-AllConnected (connect_r true m) s h =
    on_entry-AllConnected _ (positive_response s.my_address) s
      (positive_response-Keeps s.my_address) h
received-AllConnected (connect_r false m) s h =
    on_entry-AllConnected _ (negative_response s.config) s (negative_response-Keeps s.config) h
received-AllConnected (start_enrollment obj) s h =
    on_entry-AllConnected _ (start_request obj) s (start_request-Keeps obj) h
received-AllConnected (start_enrollment_r obj) s h = assigned-AllConnected _ obj s h
received-AllConnected (stop_enrollment obj) s h =
    on_entry-AllConnected _ (stop_request obj) s (stop_request-Keeps obj) h
received-AllConnected (stop_enrollment_r obj) s h =
    on_entry-AllConnected _ stop_response s stop_response-Keeps h

step-AllConnected : (c : Call) (s : Enrollment) → AllConnected s → AllConnected (step c s)
unfolding step start_cace insert_state_table_entry insert new_entry AllConnected
step-AllConnected (start f) s h =
    All-append IsConnected s.state_table (new_entry f con_authenticating true ∷ []) h (refl, tt)
step-AllConnected (flow_created f) s h = ground (
  arith,
  h,
  All-append IsConnected s.state_table (new_entry f con_connectpending false ∷ []) h (refl, tt),
)
step-AllConnected (received m) s h = received-AllConnected m s h

-- Whatever flows come and whatever messages arrive, in any order and for any entry, an entry whose
-- enrolment has begun, or ended, has its connection established, if that held of each at the start.
pub run-AllConnected : (cs : List Call) (s : Enrollment) → AllConnected s → AllConnected (run cs s)
unfolding run
run-AllConnected [] s h = h
run-AllConnected (c ∷ cs) s h = run-AllConnected cs (step c s) (step-AllConnected c s h)
