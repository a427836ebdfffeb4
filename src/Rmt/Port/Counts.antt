-- ===== src/Rmt/Port/Counts.antt =====
-- The counters of waiting PDUs.
use rinasim.Base.{
  ℕ, zero, suc, ◌+◌, ◌<◌, ◌≡◌, refl, List, [], ◌∷◌, ◌++◌, ◌⊎◌, inl, inr, none, some, ok, Bool, true,
  false, length, get_elem?, set, ltb, arith, Bool-cases, ◌&&◌, u64, u64_mod, ap, ◌∙◌,
}
use rinasim.Rmt.Queue.{RmtPdu, RmtQueue}
use rinasim.Rmt.Port.{
  Direction, input, output, RmtPort, queues_of, get_waiting, is_ready, get_longest_queue,
  post_queue_departure, release_from, release_pdu, process_queues,
}
use rinasim.Rmt.Port.Longest.{NoLonger, Longest, get_longest_queue_lem}

-- All the PDUs in the queues.
abbrev pub total : List RmtQueue → ℕ
total [] = 0
total (q ∷ qs) = length q.queue + total qs

-- The counter of a direction stands at the number of queued PDUs.
abbrev pub IsCounted : Direction → RmtPort → Type 0
IsCounted d p = get_waiting d p ≡ total (queues_of d p)

empty_total : (qs : List RmtQueue) → NoLonger 0 qs → total qs ≡ 0
empty_total [] h = refl
empty_total (q ∷ qs) h = omega (arith, h.0, empty_total qs h.1)

pub total-set :
    (qs : List RmtQueue) (i : ℕ) (q r : RmtQueue)
    → get_elem? qs i ≡ some q
    → total (set qs i r) + length q.queue ≡ total qs + length r.queue
total-set [] i q r h = absurd (ground arith)
total-set (x ∷ qs) zero q r h = ground arith
total-set (x ∷ qs) (suc i) q r h = omega (arith, total-set qs i q r h)

-- What one release comes to.
pub record Releases (d : Direction) (p : RmtPort) (a : RmtPort) : Type 0 where
  pub position : ℕ
  pub served : RmtQueue
  pub pdu : RmtPdu
  pub rest : List RmtPdu
  pub longest : NoLonger (length served.queue) (queues_of d p)
  pub there : get_elem? (queues_of d p) position ≡ some served
  pub first : served.queue ≡ pdu ∷ rest
  pub left : queues_of d a ≡ set (queues_of d p) position (record served { queue = rest })
  pub out : a.released ≡ p.released ++ (d, pdu) ∷ []
  pub busy : is_ready d a ≡ false

release_step :
    (d : Direction) (p : RmtPort) (i : ℕ) (q : RmtQueue) (x : RmtPdu) (rest : List RmtPdu)
    → get_elem? (queues_of d p) i ≡ some q
    → q.queue ≡ x ∷ rest
    → IsCounted d p
    → total (queues_of d p) < u64_mod
    → IsCounted d (release_from d i q (x ∷ rest) p)
unfolding release_from post_queue_departure u64
release_step input p i q x rest g e c b =
    omega (arith, total-set p.input_queues i q (record q { queue = rest }) g, ap length e)
release_step output p i q x rest g e c b =
    omega (arith, total-set p.output_queues i q (record q { queue = rest }) g, ap length e)

release-Releases :
    (d : Direction) (p : RmtPort) (i : ℕ) (q : RmtQueue) (x : RmtPdu) (rest : List RmtPdu)
    → get_elem? (queues_of d p) i ≡ some q
    → q.queue ≡ x ∷ rest
    → NoLonger (length q.queue) (queues_of d p)
    → Releases d p (release_from d i q (x ∷ rest) p)
unfolding release_from post_queue_departure
release-Releases input p i q x rest g e n = record {
  position = i;
  served = q;
  pdu = x;
  rest = rest;
  longest = n;
  there = g;
  first = e;
  left = refl;
  out = refl;
  busy = refl;
}
release-Releases output p i q x rest g e n = record {
  position = i;
  served = q;
  pdu = x;
  rest = rest;
  longest = n;
  there = g;
  first = e;
  left = refl;
  out = refl;
  busy = refl;
}

abbrev pub can_serve : Direction → RmtPort → Bool
can_serve d p = is_ready d p && ltb 0 (total (queues_of d p))

-- How the scheduler ends on a port: one PDU goes, or nothing can.
abbrev pub Serves : Direction → RmtPort → Type 0
Serves d p =
    (can_serve d p ≡ false) × (process_queues d p ≡ ok p)
    ⊎ (can_serve d p ≡ true)
      × ((a : RmtPort) × (process_queues d p ≡ ok a) × Releases d p a × IsCounted d a)

chosen :
    (d : Direction) (p : RmtPort) (q : RmtQueue) (k : ℕ)
    → get_longest_queue d p ≡ some k
    → get_elem? (queues_of d p) k ≡ some q
    → can_serve d p ≡ true
    → IsCounted d p
    → process_queues d p ≡ ok (release_from d k q q.queue p)
unfolding process_queues release_pdu
chosen d p q k l g c n = ground (arith, n, c, l, g)

first_of : (l : List RmtPdu) → 0 < length l → (x : RmtPdu) × (rest : List RmtPdu) × (l ≡ x ∷ rest)
first_of [] h = absurd (omega arith)
first_of (x ∷ rest) h = (x, rest, refl)

idle :
    (d : Direction) (p : RmtPort)
    → IsCounted d p
    → can_serve d p ≡ false
    → process_queues d p ≡ ok p
unfolding process_queues
idle d p c w = ground (arith, c, w)

serves :
    (d : Direction) (p : RmtPort)
    → IsCounted d p
    → total (queues_of d p) < u64_mod
    → can_serve d p ≡ true
    → (get_longest_queue d p ≡ none) × NoLonger 0 (queues_of d p)
      ⊎ Longest 0 0 (get_longest_queue d p) (queues_of d p)
    → (a : RmtPort) × (process_queues d p ≡ ok a) × Releases d p a × IsCounted d a
serves d p c b s (inl (l, fits)) = absurd (ground (arith, empty_total (queues_of d p) fits))
serves d p c b s (inr (k, q, l, g, some_pdu, fits)) =
    let (x, rest, e) = first_of q.queue some_pdu in
    let here : get_longest_queue d p ≡ some k = l ∙ ap some (omega arith) in
    (
      release_from d k q (x ∷ rest) p,
      chosen d p q k here g s c ∙ ap (λ l. ok (release_from d k q l p)) e,
      release-Releases d p k q x rest g e fits,
      release_step d p k q x rest g e c b,
    )

-- A scheduler run on a port whose counter is right never calls a `NULL` queue: when the port is ready
-- and some PDU is queued, the first PDU of a longest queue leaves, the port is busy, and the counter is
-- right again; otherwise nothing changes.
pub process_queues-Serves :
    (d : Direction) (p : RmtPort) → IsCounted d p → total (queues_of d p) < u64_mod → Serves d p
process_queues-Serves d p c b = elim (Bool-cases (can_serve d p)) [
  | inl s ↦ inr (s, serves d p c b s (get_longest_queue_lem d p))
  | inr w ↦ inl (w, idle d p c w)
]
