-- ===== src/Efcp/Transmit/Window.antt =====
-- What goes out under window-based flow control.
use rinasim.Base.{
  suc, ◌+◌, ◌≡◌, refl, List, [], ◌∷◌, ◌++◌, map, Bool, true, false, ok, arith, ap, sym, ◌∙◌,
  append_assoc, append-nil, keep, Result, length, if◌then◌else◌,
}
use rinasim.Efcp.Pdu.{DataPdu, data_transfer}
use rinasim.Efcp.State.{Efcp, RxTimer}
use rinasim.Efcp.Output.{send_to_rmt, push_back_to_rxq}
use rinasim.Efcp.Send.{generated, send_loop, closed_len}
use rinasim.Efcp.Send.Rounds.{is_open, is_shut}
use rinasim.Efcp.Send.Window.{send_loop-Windowed}
use rinasim.Efcp.Transmit.{post, post_all, try_send_gen_pdus}

-- A fresh timer for each PDU.
abbrev pub fresh_timers : List DataPdu → List RxTimer
fresh_timers [] = []
fresh_timers (p ∷ ps) =
    record { timer_pdu = p; expiry_count = 0; is_scheduled = true } ∷ fresh_timers ps

-- The retransmission queue after `ps` were sent.
abbrev pub rxq_after : Bool → List RxTimer → List DataPdu → List RxTimer
rxq_after rx q ps = if rx then q ++ fresh_timers ps else q

-- The PDUs went out and, with retransmission control, their copies are queued; the other queues of
-- the sender are as they were.
record Posts (rx : Bool) (ps : List DataPdu) (e a : Efcp) : Type 0 where
  south : a.south ≡ e.south ++ map data_transfer ps
  rxq : a.dtcp.rxq ≡ rxq_after rx e.dtcp.rxq ps
  closed : a.dtcp.closed_window_q ≡ e.dtcp.closed_window_q
  generated_same : a.dtp.generated_pdus ≡ e.dtp.generated_pdus

post-Posts : (rx : Bool) (ps : List DataPdu) (e : Efcp) → Posts rx ps e (post rx ps e)
unfolding post send_to_rmt push_back_to_rxq
post-Posts true [] e = record {
  south = sym (append-nil e.south);
  rxq = sym (append-nil e.dtcp.rxq);
  closed = refl;
  generated_same = refl;
}
post-Posts false [] e = record {
  south = sym (append-nil e.south);
  rxq = refl;
  closed = refl;
  generated_same = refl;
}
post-Posts true (p ∷ ps) e =
    let h = post-Posts true ps (send_to_rmt (push_back_to_rxq e p) (data_transfer p)) in
    record {
      south = h.south ∙ append_assoc e.south (_ ∷ []) (map data_transfer ps);
      rxq = h.rxq ∙ append_assoc e.dtcp.rxq (_ ∷ []) (fresh_timers ps);
      closed = h.closed;
      generated_same = h.generated_same;
    }
post-Posts false (p ∷ ps) e =
    let h = post-Posts false ps (send_to_rmt e (data_transfer p)) in
    record {
      south = h.south ∙ append_assoc e.south (_ ∷ []) (map data_transfer ps);
      rxq = h.rxq;
      closed = h.closed;
      generated_same = h.generated_same;
    }

-- A call of `trySendGenPDUs` under window-based flow control: `sent` went out.
pub record Transmits (e : Efcp) (r : Result Efcp) : Type 0 where
  pub after : Efcp
  pub sent : List DataPdu
  pub returned : r ≡ ok after
  pub which :
      sent ≡ e.dtp.postable_pdus ++ keep (is_open e.dtcp.snd_rt_win_edge) e.dtp.generated_pdus
  pub south : after.south ≡ e.south ++ map data_transfer sent
  pub copies : after.dtcp.rxq ≡ rxq_after e.dtp.rx_present e.dtcp.rxq sent
  pub withheld :
      after.dtcp.closed_window_q
      ≡ e.dtcp.closed_window_q ++ keep (is_shut e.dtcp.snd_rt_win_edge) e.dtp.generated_pdus
  pub generated_empty : after.dtp.generated_pdus ≡ []
  pub postable_empty : after.dtp.postable_pdus ≡ []

try_send_run :
    (e a : Efcp)
    → e.dtp.dtcp_present ≡ true
    → e.dtp.win_based ≡ true
    → send_loop (suc (length e.dtp.generated_pdus + closed_len e)) generated e ≡ ok a
    → try_send_gen_pdus e generated ≡ ok (post_all a)
unfolding try_send_gen_pdus
try_send_run e a d w h = ground arith

-- Under window-based flow control alone `trySendGenPDUs` returns. The generated PDUs up to the right
-- window edge go to the RMT in order, behind those that were postable already, with copies in the
-- retransmission queue if retransmission control is on; all the others wait, in order, at the end of
-- the closed window queue; nothing else is left in the sender's queues.
pub try_send_gen_pdus-Transmits :
    (e : Efcp)
    → e.dtp.dtcp_present ≡ true
    → e.dtp.win_based ≡ true
    → e.dtp.rate_based ≡ false
    → Transmits e (try_send_gen_pdus e generated)
unfolding post_all
try_send_gen_pdus-Transmits e d w r =
    let loop =
      send_loop-Windowed (suc (length e.dtp.generated_pdus + closed_len e)) e e.dtp.generated_pdus
        refl (omega arith) w r in
    let a = loop.after in
    let p = post-Posts a.dtp.rx_present a.dtp.postable_pdus a in
    record {
      after = post_all a;
      sent = a.dtp.postable_pdus;
      returned = try_send_run e a d w loop.returned;
      which = loop.posted;
      south = p.south ∙ ap (λ l. l ++ map data_transfer a.dtp.postable_pdus) loop.kept.south;
      copies = ground (arith, p.rxq, loop.kept.rx, loop.kept.rxq);
      withheld = p.closed ∙ loop.withheld;
      generated_empty = p.generated_same ∙ loop.emptied;
      postable_empty = refl;
    }
