-- ===== src/Enrollment/Connect.antt =====
-- src/DIF/Enrollment/Enrollment.cc: the common application connection establishment.
use rinasim.Base.{
  ℕ, ◌+◌, Bool, true, false, ◌&&◌, ◌||◌, not, none, some, [], ◌∷◌, ◌++◌, string_key, if◌then◌else◌,
  Result, leb, ◌==◌,
}
use rinasim.Efcp.Pdu.{Address}
use rinasim.Enrollment.{
  ConStatus, con_nil, con_connectpending, con_authenticating, con_established,
  enroll_wait_start_enrollment, Naming, MgmtFlow, apname, Entry, new_entry, auth_none, auth_passwd,
  gpb, m_connect, m_connect_r, Auth, ConnectMsg, connect, connect_r, Config, Enrollment, insert,
  find_entry_by_dst_apn, Effect, quiet, says, on_entry,
}
use rinasim.Enrollment.Enroll.{start_enrollment_of}

abbrev pub is_authenticating : ConStatus → Bool
is_authenticating con_authenticating = true
is_authenticating _ = false

abbrev pub is_connectpending : ConStatus → Bool
is_connectpending con_connectpending = true
is_connectpending _ = false

-- The names of a message: those of the flow, with the names of the addresses.
unfoldable pub name_at : Naming → Address → Naming
name_at n a = record n { ap_name = apname a }

unfoldable pub connect_msg : Auth → ℕ → MgmtFlow → ConnectMsg
connect_msg auth op_code f = record {
  auth = auth;
  abs_syntax = gpb;
  op_code = op_code;
  dst = name_at f.dst_apni f.dst_addr;
  src = name_at f.src_apni f.src_addr;
  dst_addr = f.dst_addr;
}

unfoldable pub start_cace : MgmtFlow → Enrollment → Enrollment
start_cace flow s =
    let t = insert (new_entry flow con_authenticating true) s in
    record t { sent = t.sent ++ (connect (connect_msg s.config.auth m_connect flow) ∷ []) }

unfoldable pub insert_state_table_entry : MgmtFlow → Enrollment → Enrollment
insert_state_table_entry flow s =
    elim (find_entry_by_dst_apn (apname flow.dst_addr) s.state_table) [
      | none ↦ insert (new_entry flow con_connectpending false) s
      | some e ↦ s
    ]

unfoldable pub process_new_con_req : Config → Entry → Effect
process_new_con_req c e =
    says (record e { con_status = con_authenticating })
      (connect (connect_msg c.auth m_connect e.flow))

unfoldable pub process_con_res_posi : ConnectMsg → Entry → Effect
process_con_res_posi m e =
    says (record e { con_status = con_established; enroll_status = enroll_wait_start_enrollment })
      (connect_r true (connect_msg m.auth m_connect_r e.flow))

unfoldable pub process_con_res_nega : ConnectMsg → Entry → Effect
process_con_res_nega m e =
    says (record e { con_status = con_connectpending; connect_retries = e.connect_retries + 1 })
      (connect_r false (connect_msg m.auth m_connect_r e.flow))

-- The test of `authenticate`.
unfoldable pub is_authentic : Auth → Auth → Bool
is_authentic mine theirs =
    theirs.auth_type == mine.auth_type
    && (theirs.auth_type == auth_none
        || theirs.auth_type == auth_passwd
          && string_key.same theirs.auth_value.auth_password mine.auth_value.auth_password)

unfoldable pub authenticate : Config → ConnectMsg → Entry → Effect
authenticate c m e =
    if is_authentic c.auth m.auth then process_con_res_posi m e else process_con_res_nega m e

unfoldable pub connect_request : Config → ConnectMsg → Entry → Effect
connect_request c m e =
    if not (is_connectpending e.con_status)
    then quiet e
    else if not (m.abs_syntax == gpb) || not (m.op_code == m_connect)
    then process_con_res_nega m e
    else authenticate c m (record e { con_status = con_authenticating })

unfoldable pub receive_connect_request : ConnectMsg → Enrollment → Result Enrollment
receive_connect_request m s = on_entry m.src.ap_name (connect_request s.config m) s

unfoldable pub positive_response : Address → Entry → Effect
positive_response mine e =
    if not (is_authenticating e.con_status)
    then quiet e
    else start_enrollment_of mine (record e { con_status = con_established })

unfoldable pub receive_positive_connect_response : ConnectMsg → Enrollment → Result Enrollment
receive_positive_connect_response m s = on_entry m.src.ap_name (positive_response s.my_address) s

unfoldable pub negative_response : Config → Entry → Effect
negative_response c e =
    if not (is_authenticating e.con_status)
    then quiet e
    else if leb c.max_con_retries e.connect_retries
    then quiet (record e { con_status = con_nil })
    else process_new_con_req c
        (record e { con_status = con_connectpending; connect_retries = e.connect_retries + 1 })

unfoldable pub receive_negative_connect_response : ConnectMsg → Enrollment → Result Enrollment
receive_negative_connect_response m s = on_entry m.src.ap_name (negative_response s.config) s
