-- ===== src/Enrollment/Examples.antt =====
-- The theorems on enrolment at two processes, "a" and "b".
use rinasim.Base.{List, [], ◌∷◌, ◌≡◌, if◌then◌else◌, ok}
use rinasim.Efcp.Pdu.{Address}
use rinasim.Enrollment.{Naming, MgmtFlow, AuthValue, auth_passwd, Config, stop_enrollment_r}
use rinasim.Enrollment.Connect.{is_authentic}
use rinasim.Enrollment.Enroll.{new_obj}
use rinasim.Enrollment.Exchange.{
  opening, converse, turns, both_enrolled, given_up, started, converse-opening,
}
use rinasim.Enrollment.Invariant.{Call, start, received, run, AllConnected, run-AllConnected}

abbrev addr_a : Address
addr_a = record { ipc_address = "a"; dif_name = "net" }

abbrev addr_b : Address
addr_b = record { ipc_address = "b"; dif_name = "net" }

abbrev named : Naming
named = record { ap_name = "mgmt"; ap_inst = "0"; ae_name = "ribd"; ae_inst = "0" }

abbrev a_to_b : MgmtFlow
a_to_b = record { src_apni = named; dst_apni = named; src_addr = addr_a; dst_addr = addr_b }

abbrev with_password : AuthValue → Config
with_password v = record {
  auth = record { auth_type = auth_passwd; auth_value = v };
  max_con_retries = 3;
}

abbrev right : Config
right = with_password (record { auth_name = "a"; auth_password = "secret"; auth_other = "" })

abbrev wrong : Config
wrong = with_password (record { auth_name = "a"; auth_password = "guess"; auth_other = "" })

converse-opening_example :
    converse
      (if is_authentic right.auth wrong.auth then 6 else turns 3)
      (opening wrong right addr_a addr_b a_to_b)
    ≡ ok (
        if is_authentic right.auth wrong.auth
        then both_enrolled wrong right addr_a addr_b a_to_b
        else given_up wrong right addr_a addr_b a_to_b)
converse-opening_example = converse-opening wrong right addr_a addr_b a_to_b

abbrev calls : List Call
calls = start a_to_b ∷ received (stop_enrollment_r (new_obj a_to_b)) ∷ []

started-AllConnected : AllConnected (started right addr_a)
unfolding AllConnected started
started-AllConnected = tt

run-AllConnected_example : AllConnected (run calls (started right addr_a))
run-AllConnected_example = run-AllConnected calls (started right addr_a) started-AllConnected
