-- ===== src/Rmt/Port/Drops.antt =====
-- The lengths of queues under the policies that drop: policies/DIF/RMT/MaxQueue/TailDrop and ECNMarker.
use rinasim.Base.{
  ℕ, zero, suc, ◌+◌, ◌<◌, ◌≤◌, ◌≡◌, List, [], ◌∷◌, ◌⊎◌, inl, inr, some, ok, All, Bool, true, false,
  length, get_elem?, set, arith, Bool-cases, u64_mod, ap, ◌∙◌, sym, subst,
}
use rinasim.Rmt.Queue.{
  RmtPdu, RmtQueue, MaxQPolicy, max_q_base, tail_drop, ecn_marker, enqueue_pdu, drop_last,
  mark_congestion_on_last, run_max_q,
}
use rinasim.Rmt.Port.{
  Direction, input, output, RmtPort, queues_of, add_waiting, process_queues, check_length, put,
  arrive_at, arrive,
}
use rinasim.Rmt.Port.Counts.{total, IsCounted, process_queues-Serves, Serves}
use rinasim.Rmt.Port.Bounds.{
  Outcome, check_length-Outcome, length-drop, length-enqueue, length-mark_last, one_longer,
}

abbrev pub HasRoom : RmtQueue → Type 0
HasRoom q = length q.queue < q.max_q_length

-- The policies that drop at the maximum length.
abbrev pub drops : MaxQPolicy → Bool
drops max_q_base = false
drops tail_drop = true
drops ecn_marker = true

All-set :
    (P : RmtQueue → Type 0) (qs : List RmtQueue) (i : ℕ) (r : RmtQueue)
    → All P qs
    → P r
    → All P (set qs i r)
All-set P [] i r a h = a
All-set P (q ∷ qs) zero r a h = (h, a.1)
All-set P (q ∷ qs) (suc i) r a h = (a.0, All-set P qs i r a.1 h)

All-get_elem? :
    (P : RmtQueue → Type 0) (qs : List RmtQueue) (i : ℕ) (q : RmtQueue)
    → All P qs
    → get_elem? qs i ≡ some q
    → P q
All-get_elem? P [] i q a g = absurd (ground arith)
All-get_elem? P (x ∷ qs) zero q a g = let e : x ≡ q = cc in subst P e a.0
All-get_elem? P (x ∷ qs) (suc i) q a g = All-get_elem? P qs i q a.1 g

-- A queue that passes the check is shorter than its maximum.
passed-HasRoom :
    (m : MaxQPolicy) (q : RmtQueue)
    → drops m ≡ true
    → q.threshold_q_length ≤ q.max_q_length
    → (check_length m q).1 ≡ false
    → HasRoom (check_length m q).0
unfolding check_length run_max_q mark_congestion_on_last
passed-HasRoom max_q_base q d t k = absurd (ground arith)
passed-HasRoom tail_drop q d t k = ground arith
passed-HasRoom ecn_marker q d t k = ground (arith, length-mark_last q.queue)

-- An arrival replaces its queue by one of the same length, or runs the scheduler on the longer one.
arrival :
    (m : MaxQPolicy) (d : Direction) (i : ℕ) (x : RmtPdu) (p : RmtPort) (q : RmtQueue)
    → get_elem? (queues_of d p) i ≡ some q
    → (arrive m d i x p ≡ ok (put d p i (drop_last (enqueue_pdu q x))))
      ⊎ ((check_length m (enqueue_pdu q x)).1 ≡ false)
        × (arrive m d i x p
            ≡ process_queues d (add_waiting d (put d p i (check_length m (enqueue_pdu q x)).0)))
unfolding arrive arrive_at
arrival m d i x p q g = elim (Bool-cases x.has_bit_error) [
  | inl h ↦ inl (ground (arith, g, h))
  | inr h ↦ elim (check_length-Outcome m (enqueue_pdu q x)) [
    | inl (c, same) ↦ inl (ground (arith, g, h, c, same))
    | inr (c, l) ↦ inr (c, ground (arith, g, h, c))
  ]
]

drop-HasRoom : (q : RmtQueue) (x : RmtPdu) → HasRoom q → HasRoom (drop_last (enqueue_pdu q x))
unfolding drop_last enqueue_pdu
drop-HasRoom q x h = omega (arith, length-drop q x)

Serves-HasRoom :
    (d : Direction) (p : RmtPort)
    → All HasRoom (queues_of d p)
    → Serves d p
    → (a : RmtPort) × (process_queues d p ≡ ok a) × All HasRoom (queues_of d a)
Serves-HasRoom d p h (inl (w, e)) = (p, e, h)
Serves-HasRoom d p h (inr (s, (a, e, r, k))) =
    let room = All-get_elem? HasRoom (queues_of d p) r.position r.served h r.there in
    (
      a,
      e,
      subst (All HasRoom) (sym r.left)
          (All-set HasRoom (queues_of d p) r.position _ h (omega (arith, room, ap length r.first))),
    )

put-HasRoom :
    (d : Direction) (p : RmtPort) (i : ℕ) (r : RmtQueue)
    → All HasRoom (queues_of d p)
    → HasRoom r
    → All HasRoom (queues_of d (put d p i r))
put-HasRoom input p i r h k = All-set HasRoom p.input_queues i r h k
put-HasRoom output p i r h k = All-set HasRoom p.output_queues i r h k

count-HasRoom :
    (d : Direction) (p : RmtPort)
    → All HasRoom (queues_of d p)
    → All HasRoom (queues_of d (add_waiting d p))
count-HasRoom input p h = h
count-HasRoom output p h = h

passed_length :
    (q : RmtQueue) (c : RmtQueue × Bool)
    → c.1 ≡ false
    → Outcome q c
    → length c.0.queue ≡ length q.queue
passed_length q c k (inl (dropped, same)) = absurd (ground arith)
passed_length q c k (inr (kept, l)) = l

-- Where every queue of a direction is shorter than its maximum, an arrival under a policy that drops,
-- at a queue whose threshold is not above its maximum, keeps it so.
pub arrive-HasRoom :
    (m : MaxQPolicy) (d : Direction) (i : ℕ) (x : RmtPdu) (p : RmtPort) (q : RmtQueue)
    → drops m ≡ true
    → get_elem? (queues_of d p) i ≡ some q
    → q.threshold_q_length ≤ q.max_q_length
    → IsCounted d p
    → total (queues_of d p) + 1 < u64_mod
    → All HasRoom (queues_of d p)
    → (a : RmtPort) × (arrive m d i x p ≡ ok a) × All HasRoom (queues_of d a)
unfolding enqueue_pdu
arrive-HasRoom m d i x p q k g t c b h = elim (arrival m d i x p q g) [
  | inl e ↦ (
    put d p i (drop_last (enqueue_pdu q x)),
    e,
    put-HasRoom d p i _ h (drop-HasRoom q x (All-get_elem? HasRoom (queues_of d p) i q h g)),
  )
  | inr (w, e) ↦ rw e (kept w)
]
  where
    kept :
        (check_length m (enqueue_pdu q x)).1 ≡ false
        → (a : RmtPort) × (process_queues d
              (add_waiting d (put d p i (check_length m (enqueue_pdu q x)).0))
            ≡ ok a)
          × All HasRoom (queues_of d a)
    kept w =
        let long = enqueue_pdu q x in
        let r = (check_length m long).0 in
        let l = passed_length long (check_length m long) w (check_length-Outcome m long) in
        let (count, small) = one_longer p i q r d g (l ∙ length-enqueue q x) c b in
        let next = add_waiting d (put d p i r) in
        let room = put-HasRoom d p i r h (passed-HasRoom m long k t w) in
        Serves-HasRoom d next (count-HasRoom d (put d p i r) room)
          (process_queues-Serves d next count small)
