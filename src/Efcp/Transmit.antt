-- ===== src/Efcp/Transmit.antt =====
-- `trySendGenPDUs` and `handleMsgFromDelimiting` of src/DIF/EFCP/DTP/DTP.cc.
pub mod Window
pub mod Accept
use rinasim.Base.{
  suc, ◌+◌, List, [], ◌∷◌, ◌++◌, Bool, true, false, ◌||◌, if◌then◌else◌, Result, ok, ◌>>=◌, length,
}
use rinasim.Efcp.Sdu.{Sdu}
use rinasim.Efcp.Pdu.{DataPdu, data_transfer}
use rinasim.Efcp.State.{
  Efcp, set_dtp, set_dtcp, add_timer_op, first_or, update_snd_lwe, is_fc_present, sender_inactivity,
  schedule, cancel,
}
use rinasim.Efcp.Output.{send_to_rmt, push_back_to_rxq}
use rinasim.Efcp.Send.{delimit, generate_pdus, Source, generated, queue_of, closed_len, send_loop}

-- Each PDU goes to the RMT, with retransmission control behind a copy in the retransmission queue.
unfoldable pub post : Bool → List DataPdu → Efcp → Efcp
post rx [] e = e
post rx (p ∷ ps) e =
    post rx ps (send_to_rmt (if rx then push_back_to_rxq e p else e) (data_transfer p))

-- The postable PDUs go out, and the sender's left window edge follows.
unfoldable pub post_all : Efcp → Efcp
unfolding post update_snd_lwe
post_all e =
    let sent = post e.dtp.rx_present e.dtp.postable_pdus e in
    let n = sent.dtp.last_seq_num_sent in
    set_dtcp (set_dtp sent (record sent.dtp { postable_pdus = [] }))
      (update_snd_lwe sent.dtcp (if e.dtp.rx_present then first_or sent.dtcp.rxq n else n))

-- Without flow control every generated PDU is postable.
unfoldable pub post_generated : Efcp → Efcp
post_generated e = set_dtp e (record e.dtp {
  postable_pdus = e.dtp.postable_pdus ++ e.dtp.generated_pdus;
  generated_pdus = [];
})

-- Without DTCP the generated PDUs go out as they are.
unfoldable pub send_generated : Efcp → Efcp
unfolding post
send_generated e =
    let sent = post false e.dtp.generated_pdus e in
    set_dtp sent (record sent.dtp { generated_pdus = [] })

-- `trySendGenPDUs`. Each round of the loop takes a PDU off the two queues or ends the loop.
unfoldable pub try_send_gen_pdus : Efcp → Source → Result Efcp
unfolding post_all post_generated send_generated
try_send_gen_pdus e q =
    if e.dtp.dtcp_present
    then ((if is_fc_present e.dtp
          then send_loop (suc (length e.dtp.generated_pdus + closed_len e)) q e
          else ok (post_generated e))
        >>= λ a. ok (post_all a))
    else ok (send_generated e)

-- `handleMsgFromDelimiting`.
unfoldable pub handle_msg_from_delimiting : Efcp → Sdu → Result Efcp
unfolding try_send_gen_pdus
handle_msg_from_delimiting e s = do
  cut ← delimit (add_timer_op e (cancel sender_inactivity)) s
  made ← generate_pdus cut
  sent ← try_send_gen_pdus made generated
  ok (add_timer_op sent (schedule sender_inactivity))
