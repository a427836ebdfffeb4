-- ===== src/Efcp/Send/Rounds.antt =====
-- One round of the loop of `trySendGenPDUs`: what the window lets go, and what waits.
use rinasim.Base.{
  ℕ, ◌<◌, ◌≤◌, ◌≡◌, refl, List, [], ◌∷◌, ◌++◌, Bool, true, false, not, arith, length, ap, sym, ◌∙◌,
  append-nil, leb, Bool-cases, inl, inr, keep, subst, some, ltb, sub32, if◌then◌else◌,
}
use rinasim.Efcp.Pdu.{DataPdu, data_transfer}
use rinasim.Efcp.State.{Efcp, set_dtp, set_dtcp}
use rinasim.Efcp.Output.{notify_stop_sending}
use rinasim.Efcp.Send.{
  has_room, close_if_full, release_generated, open_prefix, past_prefix, tx_control, push_to_closed,
  window_round, go, closed_len, generated, send_round,
}

-- Whether the window with that right edge is open for a PDU, and shut.
abbrev pub is_open : ℕ → DataPdu → Bool
is_open edge p = leb p.seq_num edge

abbrev pub is_shut : ℕ → DataPdu → Bool
is_shut edge p = not (leb p.seq_num edge)

opens_split :
    (edge : ℕ) (q : List DataPdu)
    → keep (is_open edge) q ≡ open_prefix edge q ++ keep (is_open edge) (past_prefix edge q)
unfolding open_prefix past_prefix
opens_split edge [] = refl
opens_split edge (p ∷ q) = ground (arith, opens_split edge q)

shuts_split :
    (edge : ℕ) (q : List DataPdu) → keep (is_shut edge) q ≡ keep (is_shut edge) (past_prefix edge q)
unfolding past_prefix
shuts_split edge [] = refl
shuts_split edge (p ∷ q) = ground (arith, shuts_split edge q)

past_prefix-le : (edge : ℕ) (q : List DataPdu) → length (past_prefix edge q) ≤ length q
unfolding past_prefix
past_prefix-le edge [] = omega arith
past_prefix-le edge (p ∷ q) = ground (arith, past_prefix-le edge q)

-- What the loop reads and leaves alone.
pub record Kept (e a : Efcp) : Type 0 where
  pub edge : a.dtcp.snd_rt_win_edge ≡ e.dtcp.snd_rt_win_edge
  pub win : a.dtp.win_based ≡ e.dtp.win_based
  pub rate : a.dtp.rate_based ≡ e.dtp.rate_based
  pub rx : a.dtp.rx_present ≡ e.dtp.rx_present
  pub south : a.south ≡ e.south
  pub rxq : a.dtcp.rxq ≡ e.dtcp.rxq

-- One round moves some PDUs to the postable ones or to the closed window queue.
pub record Progress (e a : Efcp) : Type 0 where
  pub moved : List DataPdu
  pub held : List DataPdu
  pub postable : a.dtp.postable_pdus ≡ e.dtp.postable_pdus ++ moved
  pub closed : a.dtcp.closed_window_q ≡ e.dtcp.closed_window_q ++ held
  pub opens :
      keep (is_open e.dtcp.snd_rt_win_edge) e.dtp.generated_pdus
      ≡ moved ++ keep (is_open e.dtcp.snd_rt_win_edge) a.dtp.generated_pdus
  pub shuts :
      keep (is_shut e.dtcp.snd_rt_win_edge) e.dtp.generated_pdus
      ≡ held ++ keep (is_shut e.dtcp.snd_rt_win_edge) a.dtp.generated_pdus
  pub shorter : length a.dtp.generated_pdus < length e.dtp.generated_pdus
  pub kept : Kept e a

pub Kept-trans : (e a b : Efcp) → Kept e a → Kept a b → Kept e b
Kept-trans e a b h k = record {
  edge = k.edge ∙ h.edge;
  win = k.win ∙ h.win;
  rate = k.rate ∙ h.rate;
  rx = k.rx ∙ h.rx;
  south = k.south ∙ h.south;
  rxq = k.rxq ∙ h.rxq;
}

either-Kept : (b : Bool) (e x y : Efcp) → Kept e x → Kept e y → Kept e (if b then x else y)
either-Kept true e x y h k = h
either-Kept false e x y h k = k

close_if_full-Kept : (e : Efcp) → Kept e (close_if_full e)
unfolding close_if_full
close_if_full-Kept e =
    either-Kept (has_room e) e e (set_dtcp e (record e.dtcp { closed_window = true }))
      (record { edge = refl; win = refl; rate = refl; rx = refl; south = refl; rxq = refl })
      (record { edge = refl; win = refl; rate = refl; rx = refl; south = refl; rxq = refl })

dtp-either : (b : Bool) (x y : Efcp) → x.dtp ≡ y.dtp → (if b then x else y).dtp ≡ y.dtp
dtp-either true x y h = h
dtp-either false x y h = refl

dtp-close_if_full : (e : Efcp) → (close_if_full e).dtp ≡ e.dtp
unfolding close_if_full
dtp-close_if_full e =
    dtp-either (has_room e) e (set_dtcp e (record e.dtcp { closed_window = true })) refl

held-either :
    (b : Bool) (x y : Efcp)
    → x.dtcp.closed_window_q ≡ y.dtcp.closed_window_q
    → (if b then x else y).dtcp.closed_window_q ≡ y.dtcp.closed_window_q
held-either true x y h = h
held-either false x y h = refl

held-close_if_full : (e : Efcp) → (close_if_full e).dtcp.closed_window_q ≡ e.dtcp.closed_window_q
unfolding close_if_full
held-close_if_full e =
    held-either (has_room e) e (set_dtcp e (record e.dtcp { closed_window = true })) refl

module _ (e : Efcp) (p : DataPdu) (ps : List DataPdu) (queued : e.dtp.generated_pdus ≡ p ∷ ps)
    (windowed : e.dtp.win_based ≡ true) where
  abbrev Next : Type 0
  Next = (a : Efcp) × (send_round generated p e ≡ go a) × Progress e a

  passes :
      leb p.seq_num e.dtcp.snd_rt_win_edge ≡ true
      → past_prefix e.dtcp.snd_rt_win_edge e.dtp.generated_pdus
        ≡ past_prefix e.dtcp.snd_rt_win_edge ps
  unfolding past_prefix
  passes o = ground arith

  -- A PDU past the window: the closed window queue takes it in any case.
  shut_step : Efcp
  unfolding push_to_closed
  shut_step =
      let closed = set_dtcp e (record e.dtcp { closed_window = true }) in
      let erased = set_dtp closed (record e.dtp { generated_pdus = ps }) in
      let refused = set_dtp erased (record erased.dtp { current_pdu = some (data_transfer p) }) in
      if ltb (closed_len e) (sub32 e.dtcp.max_closed_win_que_len 1)
      then push_to_closed erased p
      else notify_stop_sending (push_to_closed refused p)

  abbrev edge : ℕ
  edge = e.dtcp.snd_rt_win_edge

  release-Kept : Kept e (release_generated e)
  unfolding release_generated
  release-Kept = record {
    edge = refl;
    win = refl;
    rate = refl;
    rx = refl;
    south = refl;
    rxq = refl;
  }

  tx-generated : tx_control e ≡ close_if_full (release_generated e)
  unfolding tx_control
  tx-generated = ground arith

  tx-Kept : Kept e (tx_control e)
  tx-Kept =
      subst (Kept e) (sym tx-generated) (
        Kept-trans e (release_generated e) _ release-Kept
          (close_if_full-Kept (release_generated e)))

  generated-tx : (tx_control e).dtp.generated_pdus ≡ past_prefix edge e.dtp.generated_pdus
  unfolding release_generated
  generated-tx =
      ap (λ a. a.dtp.generated_pdus) tx-generated
      ∙ ap (λ s. s.generated_pdus) (dtp-close_if_full (release_generated e))

  postable-tx :
      (tx_control e).dtp.postable_pdus
      ≡ e.dtp.postable_pdus ++ open_prefix edge e.dtp.generated_pdus
  unfolding release_generated
  postable-tx =
      ap (λ a. a.dtp.postable_pdus) tx-generated
      ∙ ap (λ s. s.postable_pdus) (dtp-close_if_full (release_generated e))

  closed-tx : (tx_control e).dtcp.closed_window_q ≡ e.dtcp.closed_window_q
  unfolding release_generated
  closed-tx =
      ap (λ a. a.dtcp.closed_window_q) tx-generated ∙ held-close_if_full (release_generated e)

  open_round : leb p.seq_num edge ≡ true → Next
  unfolding send_round window_round
  open_round o = (
    tx_control e,
    ground arith,
    record {
      moved = open_prefix edge e.dtp.generated_pdus;
      held = [];
      postable = postable-tx;
      closed = closed-tx ∙ sym (append-nil e.dtcp.closed_window_q);
      opens =
          opens_split edge e.dtp.generated_pdus
          ∙ ap (λ q. open_prefix edge e.dtp.generated_pdus ++ keep (is_open edge) q)
              (sym generated-tx);
      shuts = shuts_split edge e.dtp.generated_pdus ∙ ap (keep (is_shut edge)) (sym generated-tx);
      shorter = shorter_queue;
      kept = tx-Kept;
    },
  )
    where
      shorter_queue : length (tx_control e).dtp.generated_pdus < length e.dtp.generated_pdus
      shorter_queue = omega (
        arith,
        ap length generated-tx,
        ap length queued,
        ap length (passes o),
        past_prefix-le edge ps,
      )

  shut_round : leb p.seq_num edge ≡ false → Next
  unfolding send_round window_round shut_step notify_stop_sending
  shut_round o = (
    shut_step,
    ground arith,
    record {
      moved = [];
      held = p ∷ [];
      postable = ground (arith, append-nil e.dtp.postable_pdus);
      closed = ground arith;
      opens = ground arith;
      shuts = ground arith;
      shorter = ground arith;
      kept = ground arith;
    },
  )

pub next_round :
    (e : Efcp) (p : DataPdu) (ps : List DataPdu)
    → e.dtp.generated_pdus ≡ p ∷ ps
    → e.dtp.win_based ≡ true
    → (a : Efcp) × (send_round generated p e ≡ go a) × Progress e a
next_round e p ps q w = elim (Bool-cases (leb p.seq_num e.dtcp.snd_rt_win_edge)) [
  | inl o ↦ open_round e p ps q w o
  | inr o ↦ shut_round e p ps q w o
]
