-- ===== src/Efcp/Transmit/Accept.antt =====
-- `handleMsgFromDelimiting` of src/DIF/EFCP/DTP/DTP.cc from end to end.
use rinasim.Base.{
  ℕ, zero, suc, ◌≤◌, ◌≡◌, refl, List, [], ◌∷◌, ◌++◌, true, false, Result, ok, arith, ap, ◌∙◌, map,
  keep, Bool-cases, inl, inr, is_empty, subst, length, ge→ltb, All,
}
use rinasim.Efcp.Sdu.{Sdu, get_size}
use rinasim.Efcp.Pdu.{DataPdu, data_transfer}
use rinasim.Efcp.State.{Efcp, add_timer_op, cancel, schedule, sender_inactivity}
use rinasim.Efcp.Reassembly.Delivery.{sdus}
use rinasim.Efcp.Output.{take_seq_num}
use rinasim.Efcp.Send.{delimit, generate_one, generate_loop, generate_pdus, generated}
use rinasim.Efcp.Send.Generate.{generate_pdus-Generates, Numbered, Fits}
use rinasim.Efcp.Send.Rounds.{is_open, is_shut}
use rinasim.Efcp.Transmit.{try_send_gen_pdus, handle_msg_from_delimiting}
use rinasim.Efcp.Transmit.Window.{try_send_gen_pdus-Transmits}

-- What the generation of PDUs leaves alone.
record Leaves (e a : Efcp) : Type 0 where
  dtcp : a.dtcp ≡ e.dtcp
  south : a.south ≡ e.south
  postable : a.dtp.postable_pdus ≡ e.dtp.postable_pdus
  present : a.dtp.dtcp_present ≡ e.dtp.dtcp_present
  win : a.dtp.win_based ≡ e.dtp.win_based
  rate : a.dtp.rate_based ≡ e.dtp.rate_based

one-Leaves : (e : Efcp) → Leaves e (generate_one e)
unfolding generate_one take_seq_num
one-Leaves e = record {
  dtcp = refl;
  south = refl;
  postable = refl;
  present = refl;
  win = refl;
  rate = refl;
}

Leaves-trans : (e a b : Efcp) → Leaves e a → Leaves a b → Leaves e b
Leaves-trans e a b h k = record {
  dtcp = k.dtcp ∙ h.dtcp;
  south = k.south ∙ h.south;
  postable = k.postable ∙ h.postable;
  present = k.present ∙ h.present;
  win = k.win ∙ h.win;
  rate = k.rate ∙ h.rate;
}

Leaves-eq : (e a : Efcp) → ok e ≡ ok a → Leaves e a
Leaves-eq e a h =
    let same : e ≡ a = cc in
    subst (Leaves e) same (record {
      dtcp = refl;
      south = refl;
      postable = refl;
      present = refl;
      win = refl;
      rate = refl;
    })

loop-Leaves : (fuel : ℕ) (e a : Efcp) → generate_loop fuel e ≡ ok a → Leaves e a
unfolding generate_loop
loop-Leaves zero e a h = absurd (ground arith)
loop-Leaves (suc fuel) e a h = elim (Bool-cases (is_empty e.data_q)) [
  | inl x ↦ Leaves-eq e a (ground (arith, h, x))
  | inr x ↦
      Leaves-trans e (generate_one e) a (one-Leaves e)
        (loop-Leaves fuel (generate_one e) a (ground (arith, h, x)))
]

kept : (e a : Efcp) → generate_pdus e ≡ ok a → Leaves e a
unfolding generate_pdus
kept e a h = loop-Leaves (suc (length e.data_q)) e a h

-- What comes of an SDU: the PDUs that carry it, and where they went.
pub record Accepts (e : Efcp) (s : Sdu) (r : Result Efcp) : Type 0 where
  pub after : Efcp
  pub pdus : List DataPdu
  pub returned : r ≡ ok after
  pub payload : sdus pdus ≡ e.data_q ++ s ∷ []
  pub numbered : Numbered e.dtp.next_seq_num_to_send pdus
  pub sent :
      after.south
      ≡ e.south
        ++ map data_transfer (
            e.dtp.postable_pdus
            ++ keep (is_open e.dtcp.snd_rt_win_edge) (e.dtp.generated_pdus ++ pdus))
  pub withheld :
      after.dtcp.closed_window_q
      ≡ e.dtcp.closed_window_q
        ++ keep (is_shut e.dtcp.snd_rt_win_edge) (e.dtp.generated_pdus ++ pdus)

module _ (e : Efcp) (s : Sdu) where
  abbrev queued : Efcp
  queued = record (add_timer_op e (cancel sender_inactivity)) { data_q = e.data_q ++ s ∷ [] }

  runs :
      (g a : Efcp)
      → get_size s ≤ e.dtp.max_flow_pdu_size
      → generate_pdus queued ≡ ok g
      → try_send_gen_pdus g generated ≡ ok a
      → handle_msg_from_delimiting e s ≡ ok (add_timer_op a (schedule sender_inactivity))
  unfolding handle_msg_from_delimiting delimit
  runs g a small made sent =
      ground (arith, ge→ltb e.dtp.max_flow_pdu_size (get_size s) small, made, sent)

-- Under window-based flow control alone, an SDU that the flow's PDU size allows, behind SDUs that fit
-- into PDUs: the call returns, PDUs numbered from the next number on carry the queued SDUs and this
-- one, in order, and of all the generated PDUs those inside the window are sent, behind the postable
-- ones, and those outside wait at the end of the closed window queue.
pub handle_msg_from_delimiting-Accepts :
    (e : Efcp) (s : Sdu)
    → e.dtp.dtcp_present ≡ true
    → e.dtp.win_based ≡ true
    → e.dtp.rate_based ≡ false
    → get_size s ≤ e.dtp.max_flow_pdu_size
    → All Fits (e.data_q ++ s ∷ [])
    → Accepts e s (handle_msg_from_delimiting e s)
handle_msg_from_delimiting-Accepts e s d w r small fits =
    let made = generate_pdus-Generates (queued e s) fits in
    let l = kept (queued e s) made.after made.returned in
    let sent = try_send_gen_pdus-Transmits made.after (l.present ∙ d) (l.win ∙ w) (l.rate ∙ r) in
    record {
      after = add_timer_op sent.after (schedule sender_inactivity);
      pdus = made.pdus;
      returned = runs e s made.after sent.after small made.returned sent.returned;
      payload = made.payload;
      numbered = made.numbered;
      sent =
          sent.south
          ∙ ap (λ q. q ++ map data_transfer sent.sent) l.south
          ∙ ap (λ q. e.south ++ map data_transfer q)
              (sent.which
                ∙ ap
                    (λ q.
                      q
                      ++ keep (is_open made.after.dtcp.snd_rt_win_edge)
                          made.after.dtp.generated_pdus)
                    l.postable
                ∙ ap
                    (λ c.
                      e.dtp.postable_pdus
                      ++ keep (is_open c.snd_rt_win_edge) made.after.dtp.generated_pdus)
                    l.dtcp
                ∙ ap (λ q. e.dtp.postable_pdus ++ keep (is_open e.dtcp.snd_rt_win_edge) q)
                    made.queued);
      withheld =
          sent.withheld
          ∙ ap
              (λ c.
                c.closed_window_q ++ keep (is_shut c.snd_rt_win_edge) made.after.dtp.generated_pdus)
              l.dtcp
          ∙ ap (λ q. e.dtcp.closed_window_q ++ keep (is_shut e.dtcp.snd_rt_win_edge) q) made.queued;
    }
