-- ===== src/Efcp/Retransmit/Expiry.antt =====
-- What the expiry of a retransmission timer does.
use rinasim.Base.{
  ◌+◌, ◌≡◌, ◌≢◌, refl, List, [], ◌∷◌, ◌++◌, true, false, u32, some, ok, All, arith, ◌⊎◌, inl, inr,
  length, Bool-cases, ◌==◌, ap,
}
use rinasim.Efcp.Pdu.{data_transfer}
use rinasim.Efcp.State.{Efcp, RxTimer}
use rinasim.Efcp.Output.{send_to_rmt}
use rinasim.Efcp.Retransmit.Acks.{Lacks, delete_rx_timer-middle}
use rinasim.Efcp.Retransmit.{
  first_unscheduled, count_expiry, schedule_first, cancel_at, expire, rx_timer_expiry,
  handle_rx_expiry, with_rxq,
}

-- Between two events every timer of the queue is scheduled.
abbrev pub AllScheduled : List RxTimer → Type 0
AllScheduled = All λ t. t.is_scheduled ≡ true

abbrev stopped : RxTimer → RxTimer
stopped t = record t { is_scheduled = false }

abbrev pub counted : RxTimer → RxTimer
counted t = record t { expiry_count = u32 (t.expiry_count + 1); is_scheduled = true }

cancel_at-middle :
    (pre post : List RxTimer) (t : RxTimer)
    → cancel_at (length pre) (pre ++ t ∷ post) ≡ pre ++ stopped t ∷ post
unfolding cancel_at
cancel_at-middle [] post t = refl
cancel_at-middle (x ∷ pre) post t = ap (λ l. x ∷ l) (cancel_at-middle pre post t)

first_unscheduled-middle :
    (pre post : List RxTimer) (t : RxTimer)
    → AllScheduled pre
    → first_unscheduled (pre ++ stopped t ∷ post) ≡ some (stopped t)
unfolding first_unscheduled
first_unscheduled-middle [] post t a = refl
first_unscheduled-middle (x ∷ pre) post t a = rw a.0 (first_unscheduled-middle pre post t a.1)

counted_once :
    (pre post : List RxTimer) (t : RxTimer)
    → AllScheduled pre
    → schedule_first (count_expiry (pre ++ stopped t ∷ post)) ≡ pre ++ counted t ∷ post
unfolding schedule_first count_expiry
counted_once [] post t a = refl
counted_once (x ∷ pre) post t a = ground (arith, counted_once pre post t a.1)

-- The expiry of the timer of one PDU, with the other timers running.
module _ (e : Efcp) (pre post : List RxTimer) (t : RxTimer) (queued : e.dtcp.rxq ≡ pre ++ t ∷ post)
    (running : AllScheduled pre) where
  abbrev pub GivesUp : Type 0
  GivesUp =
      (a : Efcp) × (handle_rx_expiry e (length pre) ≡ ok a)
      × (t.expiry_count ≡ u32 (e.dtcp.data_rexmit_max + 1))
      × (a.south ≡ e.south)
      × (a.dtcp.rxq ≡ pre ++ post)

  abbrev pub SendsAgain : Type 0
  SendsAgain =
      (a : Efcp) × (handle_rx_expiry e (length pre) ≡ ok a)
      × (t.expiry_count ≢ u32 (e.dtcp.data_rexmit_max + 1))
      × (a.south ≡ e.south ++ data_transfer t.timer_pdu ∷ [])
      × (a.dtcp.rxq ≡ pre ++ counted t ∷ post)
      × (a.dtcp.rx_sent ≡ u32 (e.dtcp.rx_sent + 1))

  expires :
      handle_rx_expiry e (length pre)
      ≡ ok (expire (with_rxq e (pre ++ stopped t ∷ post)) (stopped t))
  unfolding handle_rx_expiry rx_timer_expiry
  expires =
      rw (queued, cancel_at-middle pre post t)
        (rw (first_unscheduled-middle pre post t running, rx_timer_expiry) refl)

  gives_up :
      (t.expiry_count == u32 (e.dtcp.data_rexmit_max + 1)) ≡ true
      → Lacks t.timer_pdu.seq_num pre
      → GivesUp
  unfolding expire
  gives_up c l = (
    expire (with_rxq e (pre ++ stopped t ∷ post)) (stopped t),
    expires,
    ground arith,
    ground arith,
    ground (arith, delete_rx_timer-middle pre post (stopped t) l),
  )

  sends_again : (t.expiry_count == u32 (e.dtcp.data_rexmit_max + 1)) ≡ false → SendsAgain
  unfolding expire send_to_rmt
  sends_again c = (
    expire (with_rxq e (pre ++ stopped t ∷ post)) (stopped t),
    expires,
    ground arith,
    ground arith,
    ground (arith, counted_once pre post t running),
    ground arith,
  )

  -- A timer that expires, behind timers that run and belong to other numbers: once its count is one
  -- above the allowed number of retransmissions it leaves the queue with its PDU and nothing is sent;
  -- before that its PDU is sent once more, and the timer runs again with its count one higher. The
  -- other timers stay.
  pub handle_rx_expiry_lem : Lacks t.timer_pdu.seq_num pre → GivesUp ⊎ SendsAgain
  handle_rx_expiry_lem l = elim (Bool-cases (t.expiry_count == u32 (e.dtcp.data_rexmit_max + 1))) [
    | inl c ↦ inl (gives_up c l)
    | inr c ↦ inr (sends_again c)
  ]
