-- ===== src/Efcp/Retransmit/Acks.antt =====
-- Acknowledgements against the retransmission queue.
use rinasim.Base.{
  ℕ, zero, suc, ◌+◌, ◌==◌, ◌<◌, ◌≡◌, refl, List, [], ◌∷◌, ◌++◌, Bool, true, false, not, ok,
  get_elem?, length, keep, arith, All-append, u32_mod, u32_small, ltb, Bool-cases, inl, inr, All,
  length-append, append_assoc,
}
use rinasim.Efcp.State.{Efcp, RxTimer, first_or, update_snd_lwe}
use rinasim.Efcp.Retransmit.{delete_rx_timer, ack_loop, acks, ack_pdu, sender_ack}

get_elem?-middle :
    (pre post : List RxTimer) → get_elem? (pre ++ post) (length pre) ≡ get_elem? post 0
get_elem?-middle [] post = refl
get_elem?-middle (t ∷ pre) post = get_elem?-middle pre post

-- No timer of the list has the number.
abbrev pub Lacks : ℕ → List RxTimer → Type 0
Lacks n = All λ t. (n == t.timer_pdu.seq_num) ≡ false

pub delete_rx_timer-middle :
    (pre post : List RxTimer) (t : RxTimer)
    → Lacks t.timer_pdu.seq_num pre
    → delete_rx_timer t.timer_pdu.seq_num (pre ++ t ∷ post) ≡ pre ++ post
unfolding delete_rx_timer
delete_rx_timer-middle [] post t l = ground arith
delete_rx_timer-middle (x ∷ pre) post t l = ground (arith, delete_rx_timer-middle pre post t l.1)

-- The test depends on the sequence number alone.
abbrev ByNumber : (RxTimer → Bool) → Type 0
ByNumber hit = (t u : RxTimer) → t.timer_pdu.seq_num ≡ u.timer_pdu.seq_num → hit t ≡ hit u

Lacks-of_miss :
    (hit : RxTimer → Bool) (pre : List RxTimer) (t : RxTimer)
    → ByNumber hit
    → All (λ u. hit u ≡ false) pre
    → hit t ≡ true
    → Lacks t.timer_pdu.seq_num pre
Lacks-of_miss hit [] t b m h = tt
Lacks-of_miss hit (u ∷ pre) t b m h = (ground (arith, b t u), Lacks-of_miss hit pre t b m.1 h)

ack_loop_lem :
    (fuel : ℕ) (hit : RxTimer → Bool) (pre post : List RxTimer)
    → ByNumber hit
    → length post < fuel
    → All (λ u. hit u ≡ false) pre
    → ack_loop fuel hit (length pre) (pre ++ post) ≡ ok (pre ++ keep (λ t. not (hit t)) post)
unfolding ack_loop
ack_loop_lem zero hit pre post b f m = absurd (omega arith)
ack_loop_lem (suc fuel) hit pre [] b f m = rw (get_elem?-middle pre [], ack_loop)
ack_loop_lem (suc fuel) hit pre (t ∷ post) b f m = elim (Bool-cases (hit t)) [
  | inl h ↦
      rw
        (
          get_elem?-middle pre (t ∷ post),
          h,
          delete_rx_timer-middle pre post t (Lacks-of_miss hit pre t b m h),
          ack_loop,
        )
        (ack_loop_lem fuel hit pre post b (omega arith) m)
  | inr h ↦
      rw (get_elem?-middle pre (t ∷ post), h, ack_loop)
        (passed (
          ack_loop_lem fuel hit (pre ++ t ∷ []) post b (omega arith)
            (All-append (λ u. hit u ≡ false) pre (t ∷ []) m (h, tt))))
]
  where
    passed :
        ack_loop fuel hit (length (pre ++ t ∷ [])) ((pre ++ t ∷ []) ++ post)
          ≡ ok ((pre ++ t ∷ []) ++ keep (λ u. not (hit u)) post)
        → ack_loop fuel hit (length pre + 1) (pre ++ t ∷ post)
          ≡ ok (pre ++ t ∷ keep (λ u. not (hit u)) post)
    passed h =
        rw
          (
            length-append pre (t ∷ []),
            append_assoc pre (t ∷ []) post,
            append_assoc pre (t ∷ []) (keep (λ u. not (hit u)) post),
          )
          at h

acks-ByNumber : (gap start end : ℕ) → ByNumber (acks gap start end)
unfolding acks
acks-ByNumber gap start end t u e = rw e

-- `ackPDU` returns, with exactly the timers whose numbers lie outside the acknowledged range left, in
-- their order: the range goes up to the end plus the allowed gap, and from the start unless the end is
-- the default. Nothing but the retransmission queue changes.
pub ack_pdu_lem :
    (e : Efcp) (start end : ℕ)
    → ack_pdu e start end
      ≡ ok (record e {
        dtcp = record (e.dtcp) {
          rxq = keep (λ t. not (acks e.dtp.qos_cube.max_allow_gap start end t)) e.dtcp.rxq;
        };
      })
unfolding ack_pdu
ack_pdu_lem e start end = rw (
    ack_loop_lem (suc (length e.dtcp.rxq)) (acks e.dtp.qos_cube.max_allow_gap start end) []
      e.dtcp.rxq (acks-ByNumber e.dtp.qos_cube.max_allow_gap start end) (omega arith) tt)

-- The numbers that a cumulative acknowledgement of `n` leaves.
abbrev pub after_ack : ℕ → ℕ → List RxTimer → List RxTimer
after_ack gap n = keep λ t. ltb (n + gap) t.timer_pdu.seq_num

keep-cong :
    (p q : RxTimer → Bool)
    → ((t : RxTimer) → p t ≡ q t)
    → (ts : List RxTimer) → keep p ts ≡ keep q ts
keep-cong p q h [] = refl
keep-cong p q h (t ∷ ts) = ground (arith, h t, keep-cong p q h ts)

acks_upto :
    (gap n : ℕ) (t : RxTimer)
    → n + gap < u32_mod
    → not (acks gap n 0 t) ≡ ltb (n + gap) t.timer_pdu.seq_num
unfolding acks
acks_upto gap n t b = ground (arith, u32_small (n + gap) b)

-- The acknowledgement of `n` by the default policy leaves exactly the PDUs above `n` and the allowed
-- gap on the retransmission queue; the sender's left window edge becomes the number of the first of
-- them, or the number after `n` when none is left.
pub sender_ack_lem :
    (e : Efcp) (n : ℕ)
    → n + e.dtp.qos_cube.max_allow_gap < u32_mod
    → n + 1 < u32_mod
    → (a : Efcp) × (sender_ack e n ≡ ok a)
      × (a.dtcp.rxq ≡ after_ack e.dtp.qos_cube.max_allow_gap n e.dtcp.rxq)
      × (a.dtcp.sender_left_win_edge
          ≡ first_or (after_ack e.dtp.qos_cube.max_allow_gap n e.dtcp.rxq) (n + 1))
unfolding sender_ack update_snd_lwe
sender_ack_lem e n b c =
    let left = after_ack e.dtp.qos_cube.max_allow_gap n e.dtcp.rxq in
    let same = keep-cong _ _ (λ t. acks_upto e.dtp.qos_cube.max_allow_gap n t b) e.dtcp.rxq in
    (
      record e {
        dtcp = record (e.dtcp) { rxq = left; sender_left_win_edge = first_or left (n + 1) };
      },
      rw (ack_pdu_lem e n 0, same, u32_small (n + 1) c),
      refl,
      refl,
    )
