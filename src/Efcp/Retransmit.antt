-- ===== src/Efcp/Retransmit.antt =====
-- The retransmission queue: `ackPDU`, `nackPDU`, `handleDTCPRxExpiryTimer` and `scheduleRxTimerExpiry`
-- of src/DIF/EFCP/DTCP/DTCP.cc, `deleteRxTimer` of DTCPState.cc, and the default policies of
-- policies/DIF/EFCP/DTCP/RxTimerExpiry and SenderAck.
pub mod Acks
pub mod Expiry
use rinasim.Base.{
  ℕ, zero, suc, ◌+◌, ◌==◌, List, [], ◌∷◌, Bool, true, false, not, ◌&&◌, ◌||◌, leb, if◌then◌else◌,
  u32, Option, none, some, Result, ok, err, out_of_fuel, no_rx_timer, get_elem?, length, ◌>>=◌,
}
use rinasim.Efcp.Pdu.{data_transfer}
use rinasim.Efcp.State.{Efcp, RxTimer, set_dtcp, update_snd_lwe}
use rinasim.Efcp.Output.{send_to_rmt}

-- `deleteRxTimer`: the first timer of that number.
unfoldable pub delete_rx_timer : ℕ → List RxTimer → List RxTimer
delete_rx_timer n [] = []
delete_rx_timer n (t ∷ ts) =
    let rest = delete_rx_timer n ts in if n == t.timer_pdu.seq_num then ts else t ∷ rest

-- `(seqNum >= startSeqNum || startTrue) && seqNum <= limit`.
abbrev pub in_range : ℕ → Bool → ℕ → RxTimer → Bool
in_range start start_true limit t =
    (leb start t.timer_pdu.seq_num || start_true) && leb t.timer_pdu.seq_num limit

-- The loop of `ackPDU` from an index on, over a queue that its body shortens.
unfoldable pub ack_loop : ℕ → (RxTimer → Bool) → ℕ → List RxTimer → Result (List RxTimer)
ack_loop zero hit i q = err out_of_fuel
ack_loop (suc fuel) hit i q = elim (get_elem? q i) [
  | none ↦ ok q
  | some t ↦ elim (hit t) [
    | true ↦ ack_loop fuel hit i (delete_rx_timer t.timer_pdu.seq_num q)
    | false ↦ ack_loop fuel hit (i + 1) q
  ]
]

-- An end of 0 stands for the default argument: all numbers up to the first argument.
unfoldable pub acks : ℕ → ℕ → ℕ → RxTimer → Bool
acks gap start end = in_range start (end == 0) (u32 ((if end == 0 then start else end) + gap))

unfoldable pub ack_pdu : Efcp → ℕ → ℕ → Result Efcp
unfolding ack_loop acks
ack_pdu e start end = do
  q ← ack_loop (suc (length e.dtcp.rxq)) (acks e.dtp.qos_cube.max_allow_gap start end) 0 e.dtcp.rxq
  ok (set_dtcp e (record e.dtcp { rxq = q }))

-- `SenderAckPolicyBase::defaultAction` on the number that the current PDU acknowledges.
unfoldable pub sender_ack : Efcp → ℕ → Result Efcp
unfolding ack_pdu
sender_ack e n = do a ← ack_pdu e n 0; ok (set_dtcp a (update_snd_lwe a.dtcp (u32 (n + 1))))

first_unscheduled : List RxTimer → Option RxTimer
first_unscheduled [] = none
first_unscheduled (t ∷ ts) = if t.is_scheduled then first_unscheduled ts else some t

-- The first timer that is not scheduled, one expiry later.
count_expiry : List RxTimer → List RxTimer
count_expiry [] = []
count_expiry (t ∷ ts) =
    let rest = count_expiry ts in
    if t.is_scheduled then t ∷ rest else record t { expiry_count = u32 (t.expiry_count + 1) } ∷ ts

-- `scheduleRxTimerExpiry`.
schedule_first : List RxTimer → List RxTimer
schedule_first [] = []
schedule_first (t ∷ ts) =
    let rest = schedule_first ts in
    if t.is_scheduled then t ∷ rest else record t { is_scheduled = true } ∷ ts

-- `cancelEvent` on the timer at an index.
cancel_at : ℕ → List RxTimer → List RxTimer
cancel_at i [] = []
cancel_at zero (t ∷ ts) = record t { is_scheduled = false } ∷ ts
cancel_at (suc i) (t ∷ ts) = t ∷ cancel_at i ts

abbrev with_rxq : Efcp → List RxTimer → Efcp
with_rxq e q = set_dtcp e (record e.dtcp { rxq = q })

-- `RxTimerExpiryPolicyBase::defaultAction` on the timer that it finds.
expire : Efcp → RxTimer → Efcp
expire e t =
    if t.expiry_count == u32 (e.dtcp.data_rexmit_max + 1)
    then with_rxq e (delete_rx_timer t.timer_pdu.seq_num e.dtcp.rxq)
    else let s = send_to_rmt e (data_transfer t.timer_pdu) in
      set_dtcp s (record s.dtcp {
        rx_sent = u32 (s.dtcp.rx_sent + 1);
        rxq = schedule_first (count_expiry s.dtcp.rxq);
      })

rx_timer_expiry : Efcp → Result Efcp
unfolding expire first_unscheduled schedule_first count_expiry
rx_timer_expiry e = elim (first_unscheduled e.dtcp.rxq) [
  | none ↦ err no_rx_timer
  | some t ↦ ok (expire e t)
]

-- `handleDTCPRxExpiryTimer` on the timer at an index.
unfoldable pub handle_rx_expiry : Efcp → ℕ → Result Efcp
unfolding rx_timer_expiry cancel_at
handle_rx_expiry e i = rx_timer_expiry (with_rxq e (cancel_at i e.dtcp.rxq))

-- The loop of `nackPDU`. `last_len` is the length before the loop, which the code never brings up to
-- date.
nack_loop : ℕ → (RxTimer → Bool) → ℕ → ℕ → Efcp → Result Efcp
nack_loop zero hit last_len i e = err out_of_fuel
nack_loop (suc fuel) hit last_len i e = elim (get_elem? e.dtcp.rxq i) [
  | none ↦ ok e
  | some t ↦ elim (hit t) [
    | true ↦ do
      a ← handle_rx_expiry e i
      nack_loop fuel hit last_len (if last_len == length a.dtcp.rxq then i + 1 else i) a
    | false ↦ nack_loop fuel hit last_len (i + 1) e
  ]
]

unfoldable pub nacks : ℕ → ℕ → RxTimer → Bool
nacks start end = in_range start (end == 0) (if end == 0 then start else end)

-- Fuel for a given number of rounds.
unfoldable pub nack_pdu : ℕ → Efcp → ℕ → ℕ → Result Efcp
unfolding nack_loop nacks
nack_pdu fuel e start end = nack_loop fuel (nacks start end) (length e.dtcp.rxq) 0 e
