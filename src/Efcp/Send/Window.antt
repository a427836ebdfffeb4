-- ===== src/Efcp/Send/Window.antt =====
-- The loop of `trySendGenPDUs` over the generated PDUs, under window-based flow control alone.
use rinasim.Base.{
  ℕ, zero, suc, ◌<◌, ◌≡◌, refl, List, [], ◌∷◌, ◌++◌, true, false, ok, Result, arith, length, ap,
  sym, ◌∙◌, append_assoc, append-nil, keep, subst,
}
use rinasim.Efcp.Pdu.{DataPdu}
use rinasim.Efcp.State.{Efcp}
use rinasim.Efcp.Send.{go, generated, send_round, paced, send_loop}
use rinasim.Efcp.Send.Rounds.{is_open, is_shut, Kept, Kept-trans, Progress, next_round}

-- Where the loop ends.
pub record Windowed (e : Efcp) (r : Result Efcp) : Type 0 where
  pub after : Efcp
  pub returned : r ≡ ok after
  pub emptied : after.dtp.generated_pdus ≡ []
  pub posted :
      after.dtp.postable_pdus
      ≡ e.dtp.postable_pdus ++ keep (is_open e.dtcp.snd_rt_win_edge) e.dtp.generated_pdus
  pub withheld :
      after.dtcp.closed_window_q
      ≡ e.dtcp.closed_window_q ++ keep (is_shut e.dtcp.snd_rt_win_edge) e.dtp.generated_pdus
  pub kept : Kept e after

then-Windowed : (e a : Efcp) (r : Result Efcp) → Progress e a → Windowed a r → Windowed e r
then-Windowed e a r g w = record {
  after = w.after;
  returned = w.returned;
  emptied = w.emptied;
  posted =
      w.posted
      ∙ ap (λ l. l ++ keep (is_open a.dtcp.snd_rt_win_edge) a.dtp.generated_pdus) g.postable
      ∙ append_assoc e.dtp.postable_pdus g.moved _
      ∙ ap (λ n. e.dtp.postable_pdus ++ (g.moved ++ keep (is_open n) a.dtp.generated_pdus))
          g.kept.edge
      ∙ ap (λ l. e.dtp.postable_pdus ++ l) (sym g.opens);
  withheld =
      w.withheld
      ∙ ap (λ l. l ++ keep (is_shut a.dtcp.snd_rt_win_edge) a.dtp.generated_pdus) g.closed
      ∙ append_assoc e.dtcp.closed_window_q g.held _
      ∙ ap (λ n. e.dtcp.closed_window_q ++ (g.held ++ keep (is_shut n) a.dtp.generated_pdus))
          g.kept.edge
      ∙ ap (λ l. e.dtcp.closed_window_q ++ l) (sym g.shuts);
  kept = Kept-trans e a w.after g.kept w.kept;
}

loop_next :
    (fuel : ℕ) (e a : Efcp) (p : DataPdu) (ps : List DataPdu)
    → e.dtp.generated_pdus ≡ p ∷ ps
    → send_round generated p e ≡ go a
    → a.dtp.rate_based ≡ false
    → send_loop (suc fuel) generated e ≡ send_loop fuel generated a
unfolding send_loop paced
loop_next fuel e a p ps q s r = ground arith

pub send_loop-Windowed :
    (fuel : ℕ) (e : Efcp) (q : List DataPdu)
    → e.dtp.generated_pdus ≡ q
    → length q < fuel
    → e.dtp.win_based ≡ true
    → e.dtp.rate_based ≡ false
    → Windowed e (send_loop fuel generated e)
unfolding send_loop
send_loop-Windowed zero e q d f w r = absurd (omega arith)
send_loop-Windowed (suc fuel) e [] d f w r = record {
  after = e;
  returned = ground arith;
  emptied = d;
  posted = ground (arith, append-nil e.dtp.postable_pdus);
  withheld = ground (arith, append-nil e.dtcp.closed_window_q);
  kept = ground arith;
}
send_loop-Windowed (suc fuel) e (p ∷ ps) d f w r =
    let (a, s, g) = next_round e p ps d w in
    subst (λ x. Windowed e x) (sym (loop_next fuel e a p ps d s (g.kept.rate ∙ r)))
      (then-Windowed e a _ g (
        send_loop-Windowed fuel a a.dtp.generated_pdus refl (omega (arith, g.shorter, ap length d))
          (g.kept.win ∙ w) (g.kept.rate ∙ r)))
