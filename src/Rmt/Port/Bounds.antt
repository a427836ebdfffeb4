-- ===== src/Rmt/Port/Bounds.antt =====
-- Arrivals: the counters of waiting PDUs, and the lengths under the policies that drop.
use rinasim.Base.{
  ℕ, ◌+◌, ◌<◌, ◌≡◌, refl, List, [], ◌∷◌, ◌++◌, ◌⊎◌, inl, inr, some, Result, ok, Bool, true, false,
  length, length-append, get_elem?, ltb, leb, arith, Bool-cases, u64, u64_mod, ap, ◌∙◌, sym, subst,
}
use rinasim.Rmt.Queue.{
  RmtPdu, RmtQueue, MaxQPolicy, max_q_base, tail_drop, ecn_marker, enqueue_pdu, drop_last,
  without_last, mark_last, mark_congestion_on_last, run_max_q,
}
use rinasim.Rmt.Port.{
  Direction, input, output, RmtPort, queues_of, add_waiting, process_queues, check_length, put,
  arrive_at, arrive,
}
use rinasim.Rmt.Port.Counts.{total, IsCounted, total-set, process_queues-Serves, Serves}

without_last-append : (l : List RmtPdu) (x : RmtPdu) → without_last (l ++ x ∷ []) ≡ l
unfolding without_last
without_last-append [] x = refl
without_last-append (y ∷ []) x = refl
without_last-append (y ∷ z ∷ l) x = ap (λ r. y ∷ r) (without_last-append (z ∷ l) x)

pub length-mark_last : (l : List RmtPdu) → length (mark_last l) ≡ length l
unfolding mark_last
length-mark_last [] = refl
length-mark_last (x ∷ []) = refl
length-mark_last (x ∷ y ∷ l) = omega (arith, length-mark_last (y ∷ l))

-- What a check does to a queue: its last PDU is to be dropped, or its length is kept.
abbrev pub Outcome : RmtQueue → RmtQueue × Bool → Type 0
Outcome q c = (c.1 ≡ true) × (c.0 ≡ q) ⊎ (c.1 ≡ false) × (length c.0.queue ≡ length q.queue)

run_max_q-Outcome : (m : MaxQPolicy) (q : RmtQueue) → Outcome q (run_max_q m q)
unfolding run_max_q mark_congestion_on_last
run_max_q-Outcome max_q_base q = inr (refl, refl)
run_max_q-Outcome tail_drop q = elim (Bool-cases (leb q.max_q_length (length q.queue))) [
  | inl l ↦ inl (l, refl)
  | inr g ↦ inr (g, refl)
]
run_max_q-Outcome ecn_marker q = elim (Bool-cases (leb q.max_q_length (length q.queue))) [
  | inl l ↦ rw l (inl (refl, refl))
  | inr g ↦ rw g (inr (refl, length-mark_last q.queue))
]

pub check_length-Outcome : (m : MaxQPolicy) (q : RmtQueue) → Outcome q (check_length m q)
unfolding check_length
check_length-Outcome m q = elim (Bool-cases (ltb (length q.queue) q.threshold_q_length)) [
  | inl l ↦ rw l (inr (refl, refl))
  | inr g ↦ rw g (run_max_q-Outcome m q)
]

pub length-drop :
    (q : RmtQueue) (x : RmtPdu) → length (drop_last (enqueue_pdu q x)).queue ≡ length q.queue
unfolding drop_last enqueue_pdu
length-drop q x = ap length (without_last-append q.queue x)

pub length-enqueue :
    (q : RmtQueue) (x : RmtPdu) → length (enqueue_pdu q x).queue ≡ length q.queue + 1
unfolding enqueue_pdu
length-enqueue q x = length-append q.queue (x ∷ [])

-- A queue of the same length, or one longer, takes the place of a queue.
module _ (p : RmtPort) (i : ℕ) (q r : RmtQueue) where
  same_length :
      (d : Direction)
      → get_elem? (queues_of d p) i ≡ some q
      → length r.queue ≡ length q.queue
      → IsCounted d p
      → IsCounted d (put d p i r)
  same_length input g l c = omega (arith, total-set p.input_queues i q r g)
  same_length output g l c = omega (arith, total-set p.output_queues i q r g)

  pub one_longer :
      (d : Direction)
      → get_elem? (queues_of d p) i ≡ some q
      → length r.queue ≡ length q.queue + 1
      → IsCounted d p
      → total (queues_of d p) + 1 < u64_mod
      → IsCounted d (add_waiting d (put d p i r))
        × (total (queues_of d (add_waiting d (put d p i r))) < u64_mod)
  unfolding u64
  one_longer input g l c b = (
    omega (arith, total-set p.input_queues i q r g),
    omega (arith, total-set p.input_queues i q r g),
  )
  one_longer output g l c b = (
    omega (arith, total-set p.output_queues i q r g),
    omega (arith, total-set p.output_queues i q r g),
  )

-- Where an arrival on a port whose counter is right ends.
abbrev pub Arrives : Result RmtPort → Direction → Type 0
Arrives r d = (a : RmtPort) × (r ≡ ok a) × IsCounted d a

served : (d : Direction) (p : RmtPort) → Serves d p → IsCounted d p → Arrives (process_queues d p) d
served d p (inl (w, e)) c = (p, e, c)
served d p (inr (s, (a, e, r, k))) c = (a, e, k)

damaged :
    (m : MaxQPolicy) (d : Direction) (i : ℕ) (x : RmtPdu) (p : RmtPort) (q : RmtQueue)
    → get_elem? (queues_of d p) i ≡ some q
    → IsCounted d p
    → x.has_bit_error ≡ true
    → Arrives (arrive_at m d i q x p) d
unfolding arrive_at
damaged m d i x p q g c h =
    let r = drop_last (enqueue_pdu q x) in
    (put d p i r, rw h refl, same_length p i q r d g (length-drop q x) c)

checked :
    (m : MaxQPolicy) (d : Direction) (i : ℕ) (x : RmtPdu) (p : RmtPort) (q : RmtQueue)
    → get_elem? (queues_of d p) i ≡ some q
    → IsCounted d p
    → total (queues_of d p) + 1 < u64_mod
    → x.has_bit_error ≡ false
    → Outcome (enqueue_pdu q x) (check_length m (enqueue_pdu q x))
    → Arrives (arrive_at m d i q x p) d
unfolding arrive_at
checked m d i x p q g c b h (inl (dropped, same)) =
    let r = drop_last (enqueue_pdu q x) in
    (put d p i r, ground (arith, h, dropped, same), same_length p i q r d g (length-drop q x) c)
checked m d i x p q g c b h (inr (kept, l)) =
    let r = (check_length m (enqueue_pdu q x)).0 in
    let (count, small) = one_longer p i q r d g (l ∙ length-enqueue q x) c b in
    let next = add_waiting d (put d p i r) in
    let runs : arrive_at m d i q x p ≡ process_queues d next = ground (arith, h, kept) in
    subst (λ o. Arrives o d) (sym runs)
      (served d next (process_queues-Serves d next count small) count)

-- A PDU that comes to a queue of a port, with a bit error or not, under each of the three policies on a
-- full queue: the call returns without reaching a `NULL` queue, and the counter of waiting PDUs is the
-- number of queued PDUs again.
pub arrive-Arrives :
    (m : MaxQPolicy) (d : Direction) (i : ℕ) (x : RmtPdu) (p : RmtPort) (q : RmtQueue)
    → get_elem? (queues_of d p) i ≡ some q
    → IsCounted d p
    → total (queues_of d p) + 1 < u64_mod
    → Arrives (arrive m d i x p) d
unfolding arrive
arrive-Arrives m d i x p q g c b =
    rw (g, arrive)
      (elim (Bool-cases x.has_bit_error) [
        | inl h ↦ damaged m d i x p q g c h
        | inr h ↦ checked m d i x p q g c b h (check_length-Outcome m (enqueue_pdu q x))
      ])
