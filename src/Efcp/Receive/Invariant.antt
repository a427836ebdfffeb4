-- ===== src/Efcp/Receive/Invariant.antt =====
-- What holds of the receiver between two PDUs, and how an insertion and a delivery keep it.
use rinasim.Base.{
  ℕ, ◌+◌, ◌<◌, ◌≤◌, ◌≡◌, refl, List, [], ◌∷◌, ◌++◌, false, Result, ok, arith, All, All-right, sym,
  subst, Bool-cases, inl, inr, ltb, u32_mod,
}
use rinasim.Efcp.Sdu.{sdu_no_length}
use rinasim.Efcp.Pdu.{DataPdu, has_flag}
use rinasim.Efcp.State.{Efcp, set_dtp}
use rinasim.Efcp.Reassembly.{add_pdu_to_reassembly_q, is_duplicate, delimit_from_rmt}
use rinasim.Efcp.Reassembly.Order.{
  IsAscendingFrom, ordered_insert, add_to_queue-ordered, ordered_insert-IsAscendingFrom,
}
use rinasim.Efcp.Reassembly.Delivery.{HasLengths, delimit_from_rmt-Delimited}
use rinasim.Efcp.Receive.{queue_pdu}
use rinasim.Efcp.Receive.Frame.{Same}

-- The reassembly queue: numbers rise strictly and are not above the largest received, and the flags
-- of every field say that lengths are there; the largest received is not the last number.
pub record IsOrderly (e : Efcp) : Type 0 where
  pub ascending : IsAscendingFrom 0 e.dtp.reassembly_pduq
  pub below : All (λ p. p.seq_num ≤ e.dtp.max_seq_num_rcvd) e.dtp.reassembly_pduq
  pub lengths : HasLengths e.dtp.reassembly_pduq
  pub bounded : e.dtp.max_seq_num_rcvd + 1 < u32_mod

-- How a call ends: it returns, and the queue is in order again.
pub record Settles (r : Result Efcp) : Type 0 where
  pub after : Efcp
  pub returned : r ≡ ok after
  pub orderly : IsOrderly after

ascending-right :
    (lo : ℕ) (xs ys : List DataPdu) → IsAscendingFrom lo (xs ++ ys) → IsAscendingFrom 0 ys
ascending-right lo [] [] a = tt
ascending-right lo [] (y ∷ ys) a = (omega arith, a.1)
ascending-right lo (x ∷ xs) ys a = ascending-right (x.seq_num + 1) xs ys a.1

pub delimit-Settles : (e : Efcp) → IsOrderly e → Settles (delimit_from_rmt e)
delimit-Settles e o =
    let d = delimit_from_rmt-Delimited e o.lengths in
    let back = λ (P : DataPdu → Type 0) (h : All P e.dtp.reassembly_pduq).
      subst (All P) (sym d.queued) (All-right P d.front d.back (subst (All P) d.split h)) in
    record {
      after = d.after;
      returned = d.returned;
      orderly = record {
        ascending =
            subst (IsAscendingFrom 0) (sym d.queued)
              (ascending-right 0 d.front d.back (subst (IsAscendingFrom 0) d.split o.ascending));
        below =
            subst (λ n. All (λ p. p.seq_num ≤ n) d.after.dtp.reassembly_pduq) (sym d.largest)
              (back _ o.below);
        lengths = back _ o.lengths;
        bounded = subst (λ n. n + 1 < u32_mod) (sym d.largest) o.bounded;
      };
    }

pub Same-IsOrderly : (e a : Efcp) → Same e a → IsOrderly e → IsOrderly a
Same-IsOrderly e a h o = record {
  ascending = subst (IsAscendingFrom 0) (sym h.queue) o.ascending;
  below =
      subst (λ n. All (λ p. p.seq_num ≤ n) a.dtp.reassembly_pduq) (sym h.largest)
        (subst (All (λ p. p.seq_num ≤ e.dtp.max_seq_num_rcvd)) (sym h.queue) o.below);
  lengths = subst HasLengths (sym h.queue) o.lengths;
  bounded = subst (λ n. n + 1 < u32_mod) (sym h.largest) o.bounded;
}

pub All-ordered_insert :
    (P : DataPdu → Type 0) (p : DataPdu) (q : List DataPdu)
    → P p
    → All P q
    → All P (ordered_insert p q)
All-ordered_insert P p [] h a = (h, tt)
All-ordered_insert P p (x ∷ q) h a = elim (Bool-cases (ltb p.seq_num x.seq_num)) [
  | inl l ↦ rw l (h, a)
  | inr g ↦ rw g (a.0, All-ordered_insert P p q h a.1)
]

-- Above every queued number there is no duplicate.
pub not_queued :
    (q : List DataPdu) (m n : ℕ) → All (λ p. p.seq_num ≤ m) q → m < n → is_duplicate q n ≡ false
unfolding is_duplicate
not_queued [] m n a h = refl
not_queued (p ∷ q) m n a h = ground (arith, not_queued q m n a.1 h)

abbrev pub with_queue : Efcp → List DataPdu → Efcp
with_queue e q = set_dtp e (record e.dtp { reassembly_pduq = q })

-- A PDU with a new number goes into an orderly queue.
module _ (e : Efcp) (p : DataPdu) (o : IsOrderly e)
    (new : is_duplicate e.dtp.reassembly_pduq p.seq_num ≡ false)
    (flagged : has_flag p.user_data_field.sdu_delimit_flags sdu_no_length ≡ false) where
  abbrev pub inserted : Efcp
  inserted = with_queue e (ordered_insert p e.dtp.reassembly_pduq)

  pub queue_pdu-inserted : queue_pdu e p ≡ ok inserted
  unfolding add_pdu_to_reassembly_q
  queue_pdu-inserted = rw (add_to_queue-ordered 0 e.dtp.reassembly_pduq p o.ascending, new) refl

  pub inserted-IsOrderly : p.seq_num ≤ e.dtp.max_seq_num_rcvd → IsOrderly inserted
  inserted-IsOrderly h = record {
    ascending =
        ordered_insert-IsAscendingFrom 0 e.dtp.reassembly_pduq p o.ascending (omega arith) new;
    below = All-ordered_insert _ p e.dtp.reassembly_pduq h o.below;
    lengths = All-ordered_insert _ p e.dtp.reassembly_pduq flagged o.lengths;
    bounded = o.bounded;
  }
