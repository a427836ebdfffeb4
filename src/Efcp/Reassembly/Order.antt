-- ===== src/Efcp/Reassembly/Order.antt =====
-- What the insertion into the reassembly queue keeps.
use mathlib.Core.List.{Perm}
use mathlib.Core.List.Perm
use rinasim.Base.{
  ℕ, ◌+◌, ◌<◌, ◌≤◌, ◌≡◌, List, [], ◌∷◌, ok, err, same_seq_num, arith, Bool-cases, inl, inr, ltb,
  if◌then◌else◌, true, false, Result, refl, ◌⊎◌, ◌∙◌,
}
use rinasim.Efcp.Pdu.{DataPdu}
use rinasim.Efcp.Reassembly.{insert_loop, add_to_queue, is_duplicate}

-- The sequence numbers rise strictly, and none is below `n`.
abbrev pub IsAscendingFrom : ℕ → List DataPdu → Type 0
IsAscendingFrom n [] = Unit
IsAscendingFrom n (p ∷ ps) = (n ≤ p.seq_num) × IsAscendingFrom (p.seq_num + 1) ps

-- The queue with the PDU put before the first that has a larger number.
abbrev pub ordered_insert : DataPdu → List DataPdu → List DataPdu
ordered_insert p [] = p ∷ []
ordered_insert p (x ∷ xs) =
    let rest = ordered_insert p xs in if ltb p.seq_num x.seq_num then p ∷ x ∷ xs else x ∷ rest

pub is_duplicate_below :
    (lo n : ℕ) (q : List DataPdu) → IsAscendingFrom lo q → n < lo → is_duplicate q n ≡ false
unfolding is_duplicate
is_duplicate_below lo n [] a h = refl
is_duplicate_below lo n (x ∷ xs) a h = ground (arith, is_duplicate_below (x.seq_num + 1) n xs a.1)

abbrev inserted : List DataPdu → DataPdu → Result (List DataPdu)
inserted q p = if is_duplicate q p.seq_num then err same_seq_num else ok (ordered_insert p q)

insert_loop-ordered :
    (lo : ℕ) (x : DataPdu) (q : List DataPdu) (p : DataPdu)
    → IsAscendingFrom lo (x ∷ q)
    → insert_loop (x ∷ q) p ≡ inserted (x ∷ q) p
unfolding insert_loop is_duplicate
insert_loop-ordered lo x [] p a = ground arith
insert_loop-ordered lo x (y ∷ q) p a = ground (
  arith,
  insert_loop-ordered (x.seq_num + 1) y q p a.1,
  is_duplicate_below (x.seq_num + 1) p.seq_num (y ∷ q) a.1,
)

pub add_to_queue-ordered :
    (lo : ℕ) (q : List DataPdu) (p : DataPdu)
    → IsAscendingFrom lo q
    → add_to_queue q p ≡ inserted q p
unfolding add_to_queue is_duplicate
add_to_queue-ordered lo [] p a = refl
add_to_queue-ordered lo (x ∷ q) p a =
    ground
      (arith, insert_loop-ordered lo x q p a, is_duplicate_below (x.seq_num + 1) p.seq_num q a.1)

pub ordered_insert-IsAscendingFrom :
    (lo : ℕ) (q : List DataPdu) (p : DataPdu)
    → IsAscendingFrom lo q
    → lo ≤ p.seq_num
    → is_duplicate q p.seq_num ≡ false
    → IsAscendingFrom lo (ordered_insert p q)
unfolding is_duplicate
ordered_insert-IsAscendingFrom lo [] p a h d = omega arith
ordered_insert-IsAscendingFrom lo (x ∷ q) p a h d =
    ground (arith, ordered_insert-IsAscendingFrom (x.seq_num + 1) q p a.1)

pub ordered_insert-perm : (p : DataPdu) (q : List DataPdu) → Perm (p ∷ q) (ordered_insert p q)
ordered_insert-perm p [] = Perm.refl (p ∷ [])
ordered_insert-perm p (x ∷ q) = elim (Bool-cases (ltb p.seq_num x.seq_num)) [
  | inl e ↦ rw e (Perm.refl (p ∷ x ∷ q))
  | inr e ↦ rw e (Perm.trans (Perm.swap x p q) (Perm.cons x (ordered_insert-perm p q)))
]

-- On a queue whose numbers rise strictly, a PDU with a new number is put in its place: the numbers
-- still rise, and the queue holds what it held and the PDU. A number that is queued already is refused
-- with the error, and nothing else is.
pub add_to_queue_sound :
    (lo : ℕ) (q : List DataPdu) (p : DataPdu)
    → IsAscendingFrom lo q
    → lo ≤ p.seq_num
    → (is_duplicate q p.seq_num ≡ true) × (add_to_queue q p ≡ err same_seq_num)
      ⊎ ((q' : List DataPdu) × (add_to_queue q p ≡ ok q')
          × IsAscendingFrom lo q'
          × Perm (p ∷ q) q'
          × (is_duplicate q p.seq_num ≡ false))
add_to_queue_sound lo q p a h = elim (Bool-cases (is_duplicate q p.seq_num)) [
  | inl d ↦ inl (d, add_to_queue-ordered lo q p a ∙ rw d)
  | inr d ↦ inr (
    ordered_insert p q,
    add_to_queue-ordered lo q p a ∙ rw d,
    ordered_insert-IsAscendingFrom lo q p a h d,
    ordered_insert-perm p q,
    d,
  )
]
