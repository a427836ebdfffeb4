-- ===== src/Rmt/Port/Longest.antt =====
-- `getLongestQueue`.
use rinasim.Base.{
  ℕ, suc, ◌+◌, ◌<◌, ◌≤◌, ◌≡◌, refl, List, [], ◌∷◌, ◌⊎◌, inl, inr, Option, none, some, All, length,
  get_elem?, ltb, arith, ap, ◌∙◌, Bool-cases, ltb→lt, ltb→ge,
}
use rinasim.Rmt.Queue.{RmtQueue}
use rinasim.Rmt.Port.{Direction, RmtPort, queues_of, longest_from, get_longest_queue}

-- No queue is longer.
abbrev pub NoLonger : ℕ → List RmtQueue → Type 0
NoLonger n = All λ q. length q.queue ≤ n

-- The position, counted from `i`, of a longest queue that is longer than `n`.
abbrev pub Longest : ℕ → ℕ → Option ℕ → List RmtQueue → Type 0
Longest n i r qs =
    (k : ℕ) × (q : RmtQueue) × (r ≡ some (i + k))
    × (get_elem? qs k ≡ some q)
    × (n < length q.queue)
    × NoLonger (length q.queue) qs

-- What the rest of the loop finds, seen from the queue before.
module _ (n i : ℕ) (q : RmtQueue) (qs : List RmtQueue) where
  later :
      (m : ℕ) (r : Option ℕ)
      → length q.queue ≤ m
      → n ≤ m
      → Longest m (i + 1) r qs
      → Longest n i r (q ∷ qs)
  later m r h l (k, x, e, g, longer, fits) =
      (suc k, x, e ∙ ap some (omega arith), g, omega arith, (omega arith, fits))

  from_longer :
      (r : Option ℕ)
      → n < length q.queue
      → (r ≡ some i) × NoLonger (length q.queue) qs ⊎ Longest (length q.queue) (i + 1) r qs
      → Longest n i r (q ∷ qs)
  from_longer r h (inl (e, fits)) = (0, q, e ∙ ap some (omega arith), refl, h, (omega arith, fits))
  from_longer r h (inr l) = later (length q.queue) r (omega arith) (omega arith) l

  from_other :
      (r s : Option ℕ)
      → length q.queue ≤ n
      → (s ≡ r) × NoLonger n qs ⊎ Longest n (i + 1) s qs
      → (s ≡ r) × NoLonger n (q ∷ qs) ⊎ Longest n i s (q ∷ qs)
  from_other r s h (inl (e, fits)) = inl (e, (h, fits))
  from_other r s h (inr l) = inr (later n s h (omega arith) l)

longest_from_finds :
    (n i : ℕ) (r : Option ℕ) (qs : List RmtQueue)
    → (longest_from n i r qs ≡ r) × NoLonger n qs ⊎ Longest n i (longest_from n i r qs) qs
unfolding longest_from
longest_from_finds n i r [] = inl (refl, tt)
longest_from_finds n i r (q ∷ qs) = elim (Bool-cases (ltb n (length q.queue))) [
  | inl l ↦
      rw (l, longest_from)
        (inr (
          from_longer n i q qs _ (ltb→lt n (length q.queue) l)
            (longest_from_finds (length q.queue) (i + 1) (some i) qs)))
  | inr g ↦
      rw (g, longest_from)
        (from_other n i q qs r _ (ltb→ge n (length q.queue) g) (longest_from_finds n (i + 1) r qs))
]

-- The queue found is a longest one and not empty; none is found only if all are empty.
pub get_longest_queue_lem :
    (d : Direction) (p : RmtPort)
    → (get_longest_queue d p ≡ none) × NoLonger 0 (queues_of d p)
      ⊎ Longest 0 0 (get_longest_queue d p) (queues_of d p)
unfolding get_longest_queue
get_longest_queue_lem d p = longest_from_finds 0 0 none (queues_of d p)
