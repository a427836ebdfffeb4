-- ===== src/Enrollment/Exchange.antt =====
-- src/DIF/Enrollment/EnrollmentListeners.cc, and two processes that hand each other's messages to
-- the handlers of src/DIF/Enrollment/Enrollment.cc, in order.
use rinasim.Base.{
  ℕ, zero, suc, ◌+◌, Bool, true, false, List, [], ◌∷◌, ◌≡◌, refl, arith, string_key, if◌then◌else◌,
  Result, ok, err, ◌>>=◌, ◌∙◌, ◌<◌, inl, inr, Bool-cases, same_refl,
}
use rinasim.Efcp.Pdu.{Address}
use rinasim.Enrollment.{
  ConStatus, con_nil, con_connectpending, con_authenticating, con_established, enroll_nil,
  enroll_enrolled, MgmtFlow, apname, Entry, new_entry, m_connect, Message, connect, connect_r,
  start_enrollment, start_enrollment_r, stop_enrollment, stop_enrollment_r, Config, Enrollment,
  insert, is_for, find_entry_by_dst_apn, write_entry, quiet, says, apply_effect, on_entry,
}
use rinasim.Enrollment.Connect.{
  name_at, connect_msg, start_cace, insert_state_table_entry, process_new_con_req,
  process_con_res_posi, process_con_res_nega, is_authentic, authenticate, connect_request,
  receive_connect_request, positive_response, receive_positive_connect_response, negative_response,
  receive_negative_connect_response,
}
use rinasim.Enrollment.Enroll.{
  new_obj, start_enrollment_of, start_response, assigned, assign_address,
  receive_start_enrollment_response, process_stop_enrollment_response, stop_request,
  receive_stop_enrollment_request, process_stop_enrollment_immediate, start_request,
  receive_start_enrollment_request, stop_response, receive_stop_enrollment_response,
}

-- The listener for each kind of message calls its handler.
unfoldable pub receive : Message → Enrollment → Result Enrollment
receive (connect m) s = receive_connect_request m s
receive (connect_r true m) s = receive_positive_connect_response m s
receive (connect_r false m) s = receive_negative_connect_response m s
receive (start_enrollment obj) s = receive_start_enrollment_request obj s
receive (start_enrollment_r obj) s = receive_start_enrollment_response obj s
receive (stop_enrollment obj) s = receive_stop_enrollment_request obj s
receive (stop_enrollment_r obj) s = receive_stop_enrollment_response obj s

-- The process that joins and the member; what each has sent waits for the other.
pub record Pair : Type 0 where
  pub joiner : Enrollment
  pub member : Enrollment

unfoldable pub with_member : Enrollment → Result Enrollment → Result Pair
with_member j (ok m) = ok (record { joiner = j; member = m })
with_member j (err e) = err e

unfoldable pub with_joiner : Enrollment → Result Enrollment → Result Pair
with_joiner m (ok j) = ok (record { joiner = j; member = m })
with_joiner m (err e) = err e

-- The oldest message is delivered, the joining process's own first.
unfoldable pub deliver_of : List Message → List Message → Pair → Result Pair
deliver_of [] [] p = ok p
deliver_of (m ∷ ms) theirs p = with_member (record p.joiner { sent = ms }) (receive m p.member)
deliver_of [] (m ∷ ms) p = with_joiner (record p.member { sent = ms }) (receive m p.joiner)

unfoldable pub deliver : Pair → Result Pair
deliver p = deliver_of p.joiner.sent p.member.sent p

unfoldable pub converse : ℕ → Pair → Result Pair
converse zero p = ok p
converse (suc n) p = deliver p >>= converse n

-- The member's flow is the joining process's, swapped.
unfoldable pub swapped : MgmtFlow → MgmtFlow
swapped f = record {
  src_apni = f.dst_apni;
  dst_apni = f.src_apni;
  src_addr = f.dst_addr;
  dst_addr = f.src_addr;
}

unfoldable pub started : Config → Address → Enrollment
started c a = record { config = c; my_address = a; state_table = []; sent = []; finished = [] }

-- The management flow is there on both sides.
unfoldable pub opening : Config → Config → Address → Address → MgmtFlow → Pair
opening cj cm aj am f = record {
  joiner = start_cace f (started cj aj);
  member = insert_state_table_entry (swapped f) (started cm am);
}

abbrev enrolled : MgmtFlow → Bool → Entry
enrolled f initiator = record {
  flow = f;
  con_status = con_established;
  enroll_status = enroll_enrolled;
  connect_retries = 0;
  immediate_enrollment = true;
  is_initiator = initiator;
}

unfoldable pub both_enrolled : Config → Config → Address → Address → MgmtFlow → Pair
both_enrolled cj cm aj am f = record {
  joiner = record {
    config = cj;
    my_address = aj;
    state_table = enrolled f true ∷ [];
    sent = [];
    finished = f ∷ [];
  };
  member = record {
    config = cm;
    my_address = am;
    state_table = enrolled (swapped f) false ∷ [];
    sent = [];
    finished = [];
  };
}

-- The connection on both sides after so many refusals.
abbrev refused_entry : MgmtFlow → ConStatus → ℕ → Bool → Entry
refused_entry f status retries initiator = record {
  flow = f;
  con_status = status;
  enroll_status = enroll_nil;
  connect_retries = retries;
  immediate_enrollment = false;
  is_initiator = initiator;
}

unfoldable pub refused :
    ConStatus → ℕ → ℕ → List Message → Config → Config → Address → Address → MgmtFlow → Pair
refused status mine theirs wire cj cm aj am f = record {
  joiner = record {
    config = cj;
    my_address = aj;
    state_table = refused_entry f status mine true ∷ [];
    sent = wire;
    finished = [];
  };
  member = record {
    config = cm;
    my_address = am;
    state_table = refused_entry (swapped f) con_connectpending theirs false ∷ [];
    sent = [];
    finished = [];
  };
}

unfoldable pub asking : ℕ → Config → Config → Address → Address → MgmtFlow → Pair
asking retries cj cm aj am f =
    refused con_authenticating retries retries (connect (connect_msg cj.auth m_connect f) ∷ []) cj
      cm aj am f

-- The joining process has given up, after the last of its retries was refused.
unfoldable pub given_up : Config → Config → Address → Address → MgmtFlow → Pair
given_up cj cm aj am f =
    refused con_nil cj.max_con_retries (cj.max_con_retries + 1) [] cj cm aj am f

-- The messages until then: a request and a refusal for the first try and for each retry.
unfoldable pub turns : ℕ → ℕ
turns zero = 2
turns (suc retries) = suc (suc (turns retries))

converse-authentic :
    (cj cm : Config) (aj am : Address) (f : MgmtFlow)
    → is_authentic cm.auth cj.auth ≡ true
    → converse 6 (opening cj cm aj am f) ≡ ok (both_enrolled cj cm aj am f)
unfolding converse deliver deliver_of with_member with_joiner receive opening started swapped
    both_enrolled insert is_for find_entry_by_dst_apn write_entry quiet says apply_effect on_entry
    new_entry start_cace insert_state_table_entry process_new_con_req process_con_res_posi
    authenticate connect_request receive_connect_request positive_response
    receive_positive_connect_response name_at connect_msg new_obj start_enrollment_of start_response
    assigned assign_address receive_start_enrollment_response process_stop_enrollment_response
    stop_request receive_stop_enrollment_request process_stop_enrollment_immediate start_request
    receive_start_enrollment_request stop_response receive_stop_enrollment_response
converse-authentic cj cm aj am f h =
    ground (arith, h, same_refl (apname f.src_addr), same_refl (apname f.dst_addr))

opening-asking :
    (cj cm : Config) (aj am : Address) (f : MgmtFlow)
    → opening cj cm aj am f ≡ asking 0 cj cm aj am f
unfolding opening asking refused started start_cace insert_state_table_entry insert
    find_entry_by_dst_apn new_entry
opening-asking cj cm aj am f = refl

-- One try and its refusal.
asked_last :
    (cj cm : Config) (aj am : Address) (f : MgmtFlow) (k : ℕ)
    → is_authentic cm.auth cj.auth ≡ false
    → k ≡ cj.max_con_retries
    → converse 2 (asking k cj cm aj am f) ≡ ok (given_up cj cm aj am f)
unfolding converse deliver deliver_of with_member with_joiner receive asking refused given_up
    process_con_res_nega negative_response receive_negative_connect_response swapped insert is_for
    find_entry_by_dst_apn write_entry quiet says apply_effect on_entry new_entry start_cace
    insert_state_table_entry process_new_con_req process_con_res_posi authenticate connect_request
    receive_connect_request positive_response receive_positive_connect_response name_at connect_msg
    new_obj start_enrollment_of start_response assigned assign_address
    receive_start_enrollment_response process_stop_enrollment_response stop_request
    receive_stop_enrollment_request process_stop_enrollment_immediate start_request
    receive_start_enrollment_request stop_response receive_stop_enrollment_response
asked_last cj cm aj am f k h e =
    ground (arith, h, e, same_refl (apname f.src_addr), same_refl (apname f.dst_addr))

asked_again :
    (cj cm : Config) (aj am : Address) (f : MgmtFlow) (k n : ℕ)
    → is_authentic cm.auth cj.auth ≡ false
    → k < cj.max_con_retries
    → converse (suc (suc n)) (asking k cj cm aj am f) ≡ converse n (asking (k + 1) cj cm aj am f)
unfolding converse deliver deliver_of with_member with_joiner receive asking refused
    process_con_res_nega negative_response receive_negative_connect_response swapped insert is_for
    find_entry_by_dst_apn write_entry quiet says apply_effect on_entry new_entry start_cace
    insert_state_table_entry process_new_con_req process_con_res_posi authenticate connect_request
    receive_connect_request positive_response receive_positive_connect_response name_at connect_msg
    new_obj start_enrollment_of start_response assigned assign_address
    receive_start_enrollment_response process_stop_enrollment_response stop_request
    receive_stop_enrollment_request process_stop_enrollment_immediate start_request
    receive_start_enrollment_request stop_response receive_stop_enrollment_response
asked_again cj cm aj am f k n h e =
    ground (arith, h, e, same_refl (apname f.src_addr), same_refl (apname f.dst_addr))

converse-asking :
    (cj cm : Config) (aj am : Address) (f : MgmtFlow) (k r : ℕ)
    → is_authentic cm.auth cj.auth ≡ false
    → k + r ≡ cj.max_con_retries
    → converse (turns r) (asking k cj cm aj am f) ≡ ok (given_up cj cm aj am f)
unfolding turns
converse-asking cj cm aj am f k zero h e = asked_last cj cm aj am f k h (omega arith)
converse-asking cj cm aj am f k (suc r) h e =
    asked_again cj cm aj am f k (turns r) h (omega arith)
    ∙ converse-asking cj cm aj am f (k + 1) r h (omega arith)

-- Two processes with a management flow between them, whose messages arrive in order: where the
-- member finds the authentication of the joining process right, after 6 messages both are enrolled
-- and connected and nothing is on the way; where it does not, after a request and a refusal for the
-- first try and for each of the retries allowed the joining process has given up, and the member
-- waits for a request.
pub converse-opening :
    (cj cm : Config) (aj am : Address) (f : MgmtFlow)
    → converse
        (if is_authentic cm.auth cj.auth then 6 else turns cj.max_con_retries)
        (opening cj cm aj am f)
      ≡ ok (
          if is_authentic cm.auth cj.auth
          then both_enrolled cj cm aj am f
          else given_up cj cm aj am f)
converse-opening cj cm aj am f = elim (Bool-cases (is_authentic cm.auth cj.auth)) [
  | inl good ↦ ground (arith, good, converse-authentic cj cm aj am f good)
  | inr bad ↦ ground (
    arith,
    bad,
    opening-asking cj cm aj am f,
    converse-asking cj cm aj am f 0 cj.max_con_retries bad (omega arith),
  )
]
