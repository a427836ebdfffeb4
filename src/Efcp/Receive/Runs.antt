-- ===== src/Efcp/Receive/Runs.antt =====
-- A receiver from its start on: any sequence of data transfer PDUs and expiries of A timers.
use rinasim.Base.{ℕ, ◌≡◌, List, [], ◌∷◌, Result, ok, ◌>>=◌, All, arith, ◌≤◌, subst, sym, ap}
use rinasim.Efcp.Pdu.{DataPdu}
use rinasim.Efcp.State.{Efcp, QosCube, init_dtp_state}
use rinasim.Efcp.Reassembly.Order.{IsAscendingFrom}
use rinasim.Efcp.Reassembly.Delivery.{HasLengths}
use rinasim.Efcp.Receive.{receive_data, handle_a_timer}
use rinasim.Efcp.Receive.Invariant.{IsOrderly, Settles}
use rinasim.Efcp.Receive.Branches.{IsSound, at_rest}
use rinasim.Efcp.Receive.Calls.{receive_data-Settles, handle_a_timer-Settles}

pub data Event : Type 0 where
  comes_in : DataPdu → Event
  a_timer_expires : ℕ → Event

abbrev pub handle : Event → Efcp → Result Efcp
handle (comes_in p) e = receive_data e p
handle (a_timer_expires n) e = handle_a_timer e n

abbrev pub handle_all : List Event → Efcp → Result Efcp
handle_all [] e = ok e
handle_all (v ∷ vs) e = handle v e >>= λ a. handle_all vs a

abbrev pub IsAllowed : Event → Type 0
IsAllowed (comes_in p) = IsSound p
IsAllowed (a_timer_expires n) = Unit

handle-Settles : (v : Event) (e : Efcp) → IsAllowed v → IsOrderly e → Settles (handle v e)
handle-Settles (comes_in p) e s o = receive_data-Settles e p o s
handle-Settles (a_timer_expires n) e s o = handle_a_timer-Settles e n o

handle_all-orderly :
    (vs : List Event) (e : Efcp) → All IsAllowed vs → IsOrderly e → Settles (handle_all vs e)
handle_all-orderly [] e a o = at_rest e o
handle_all-orderly (v ∷ vs) e a o =
    let first = handle-Settles v e a.0 o in
    rw first.returned (handle_all-orderly vs first.after a.1 first.orderly)

empty-IsOrderly : (e : Efcp) → e.dtp.reassembly_pduq ≡ [] → e.dtp.max_seq_num_rcvd ≡ 0 → IsOrderly e
empty-IsOrderly e q m = record {
  ascending = subst (IsAscendingFrom 0) (sym q) tt;
  below = subst (All (λ p. p.seq_num ≤ e.dtp.max_seq_num_rcvd)) (sym q) tt;
  lengths = subst HasLengths (sym q) tt;
  bounded = omega (arith, m);
}

initial-IsOrderly :
    (e : Efcp) (q : QosCube) (size : ℕ) → e.dtp ≡ init_dtp_state q size → IsOrderly e
unfolding init_dtp_state
initial-IsOrderly e q size h =
    empty-IsOrderly e (ap (λ s. s.reassembly_pduq) h) (ap (λ s. s.max_seq_num_rcvd) h)

-- From the initial state of a connection, for any QoS cube and PDU size, every sequence of data
-- transfer PDUs and of expiries of A timers, in any order and with any repetitions, losses and gaps, is
-- handled to the end without an error, and leaves the reassembly queue in order; the PDUs must have
-- numbers other than the last of the type and fields with lengths.
pub handle_all-Settles :
    (e : Efcp) (q : QosCube) (size : ℕ) (vs : List Event)
    → e.dtp ≡ init_dtp_state q size
    → All IsAllowed vs
    → Settles (handle_all vs e)
handle_all-Settles e q size vs h a = handle_all-orderly vs e a (initial-IsOrderly e q size h)
