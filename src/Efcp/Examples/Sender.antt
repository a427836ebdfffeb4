-- ===== src/Efcp/Examples/Sender.antt =====
-- The theorems on the sender and on service data units at concrete connections.
use rinasim.Base.{◌≡◌, ◌⊎◌, refl, [], ◌∷◌, some, true, false, ok, arith, u32, not, keep}
use rinasim.Efcp.Sdu.{get_size, UserDataField, new_field, get_data}
use rinasim.Efcp.Sdu.Flags.{add_all, total_size}
use rinasim.Efcp.Sdu.Fields.{get_data-add_all}
use rinasim.Efcp.Sdu.Fragments.{fragment_run}
use rinasim.Efcp.State.{first_or, Efcp}
use rinasim.Efcp.Retransmit.{ack_pdu, sender_ack, acks}
use rinasim.Efcp.Retransmit.Acks.{ack_pdu_lem, sender_ack_lem, after_ack}
use rinasim.Efcp.Retransmit.Expiry.{handle_rx_expiry_lem, GivesUp, SendsAgain}
use rinasim.Efcp.Send.{delimit, generate_pdus, generated}
use rinasim.Efcp.Send.Delimit.{delimit_lem}
use rinasim.Efcp.Send.Generate.{Generates, generate_pdus-Generates}
use rinasim.Efcp.Transmit.{try_send_gen_pdus, handle_msg_from_delimiting}
use rinasim.Efcp.Transmit.Accept.{Accepts, handle_msg_from_delimiting-Accepts}
use rinasim.Efcp.Transmit.Window.{Transmits, try_send_gen_pdus-Transmits}
use rinasim.Efcp.Examples.{sdu, pdu, timer, receiver_state, dtcp_state, receiver}

abbrev sender : Efcp
sender = record receiver {
  dtp = record receiver_state { generated_pdus = pdu 1 ∷ pdu 2 ∷ pdu 3 ∷ pdu 4 ∷ [] };
}

abbrev big : Efcp
big = record sender { data_q = sdu 1 2000 ∷ [] }

abbrev paced_sender : Efcp
paced_sender = record sender {
  dtp = record receiver_state { generated_pdus = pdu 1 ∷ []; win_based = false; rate_based = true };
  dtcp = record dtcp_state { max_closed_win_que_len = 1 };
}

abbrev with_data : Efcp
with_data = record sender { data_q = sdu 1 900 ∷ sdu 2 600 ∷ sdu 3 1 ∷ [] }

try_send_gen_pdus-Transmits_example : Transmits sender (try_send_gen_pdus sender generated)
try_send_gen_pdus-Transmits_example = try_send_gen_pdus-Transmits sender refl refl refl

ack_pdu_lem_example :
    ack_pdu sender 2 0
    ≡ ok (record sender {
      dtcp = record dtcp_state {
        rxq = keep (λ t. not (acks 0 2 0 t)) (timer 1 ∷ timer 2 ∷ timer 3 ∷ []);
      };
    })
ack_pdu_lem_example = ack_pdu_lem sender 2 0

sender_ack_lem_example :
    (a : Efcp) × (sender_ack sender 2 ≡ ok a)
    × (a.dtcp.rxq ≡ after_ack 0 2 (timer 1 ∷ timer 2 ∷ timer 3 ∷ []))
    × (a.dtcp.sender_left_win_edge ≡ first_or (after_ack 0 2 (timer 1 ∷ timer 2 ∷ timer 3 ∷ [])) 3)
sender_ack_lem_example = sender_ack_lem sender 2 (omega arith) (omega arith)

handle_rx_expiry_lem_example :
    GivesUp sender (timer 1 ∷ []) (timer 3 ∷ []) (timer 2) refl (refl, tt)
    ⊎ SendsAgain sender (timer 1 ∷ []) (timer 3 ∷ []) (timer 2) refl (refl, tt)
handle_rx_expiry_lem_example =
    handle_rx_expiry_lem sender (timer 1 ∷ []) (timer 3 ∷ []) (timer 2) refl (refl, tt) (refl, tt)

generate_pdus-Generates_example : Generates with_data (generate_pdus with_data)
unfolding get_size
generate_pdus-Generates_example =
    generate_pdus-Generates with_data (omega arith, (omega arith, (omega arith, tt)))

delimit_lem_example :
    delimit sender (sdu 1 3000) ≡ ok (record sender { data_q = fragment_run (sdu 1 3000) 1400 0 3 })
unfolding get_size
delimit_lem_example =
    delimit_lem sender (sdu 1 3000) 3 (omega arith) (omega arith) (omega arith) (omega arith)
      (omega arith)

get_data-add_all_example :
    (u : UserDataField) × (get_data (add_all new_field (sdu 1 900 ∷ sdu 2 600 ∷ []))
      ≡ some (sdu 1 900, u))
    × (u.pdu_data ≡ sdu 2 600 ∷ [])
    × (u.field_size ≡ u32 (total_size (sdu 2 600 ∷ [])))
unfolding get_size
get_data-add_all_example = get_data-add_all (sdu 1 900) (sdu 2 600 ∷ []) (omega arith)

handle_msg_from_delimiting-Accepts_example :
    Accepts with_data (sdu 4 1000) (handle_msg_from_delimiting with_data (sdu 4 1000))
unfolding get_size
handle_msg_from_delimiting-Accepts_example =
    handle_msg_from_delimiting-Accepts with_data (sdu 4 1000) refl refl refl (omega arith)
      (omega arith, (omega arith, (omega arith, (omega arith, tt))))
