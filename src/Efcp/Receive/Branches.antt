-- ===== src/Efcp/Receive/Branches.antt =====
-- Each case of `handleDataTransferPDUFromRMT` returns and keeps the reassembly queue in order.
use rinasim.Base.{
  ℕ, ◌+◌, ◌<◌, ◌≤◌, ◌≡◌, refl, [], ◌∷◌, Bool, true, false, Result, ok, arith, All, All-weaken, sym,
  subst, u32, u32_mod, u32_small, ◌==◌, leb, ltb, if◌then◌else◌, ◌&&◌, ==→eq, ltb→lt,
}
use rinasim.Efcp.Sdu.{sdu_no_length}
use rinasim.Efcp.Pdu.{DataPdu, has_flag, drf_flag}
use rinasim.Efcp.State.{
  Efcp, set_dtp, set_max_seq_num_rcvd, is_fc_present, add_timer_op, schedule, a_timer,
}
use rinasim.Efcp.Reassembly.{add_pdu_to_reassembly_q, add_to_queue, is_duplicate, delimit_from_rmt}
use rinasim.Efcp.Reassembly.Order.{IsAscendingFrom, ordered_insert-IsAscendingFrom}
use rinasim.Efcp.Reassembly.Delivery.{HasLengths}
use rinasim.Efcp.Receive.{
  set_edge, ecn_policy, sv_update, queue_pdu, new_run, drop_duplicate, into_gap, in_order,
  out_of_order, continue_run, handle_data_transfer_pdu,
}
use rinasim.Efcp.Receive.Frame.{
  Same, Same-refl, Same-trans, sv_update-Same, either-Same, send_ack_flow-Same,
}
use rinasim.Efcp.Receive.Invariant.{
  IsOrderly, Settles, delimit-Settles, Same-IsOrderly, All-ordered_insert, not_queued, with_queue,
  inserted, queue_pdu-inserted, inserted-IsOrderly,
}

-- A PDU that a sender can have built, not the last of its numbers.
pub record IsSound (p : DataPdu) : Type 0 where
  pub flagged : has_flag p.user_data_field.sdu_delimit_flags sdu_no_length ≡ false
  pub in_range : p.seq_num + 1 < u32_mod

settled : (r : Result Efcp) (x : Efcp) → r ≡ delimit_from_rmt x → IsOrderly x → Settles r
settled r x e o = subst (λ y. Settles y) (sym e) (delimit-Settles x o)

drop_duplicate-Same : (e : Efcp) → Same e (drop_duplicate e)
unfolding drop_duplicate
drop_duplicate-Same e =
    let counted = set_dtp e (record e.dtp { drop_dup = u32 (e.dtp.drop_dup + 1) }) in
    Same-trans e counted _ (record { queue = refl; largest = refl; cube = refl; north = refl })
      (send_ack_flow-Same counted 0 false)

into_gap-Settles :
    (e : Efcp) (p : DataPdu)
    → IsOrderly e
    → IsSound p
    → is_duplicate e.dtp.reassembly_pduq p.seq_num ≡ false
    → p.seq_num ≤ e.dtp.max_seq_num_rcvd
    → Settles (into_gap e p)
unfolding into_gap
into_gap-Settles e p o s new h =
    let q = inserted e p o new s.flagged in
    let n = q.dtp.max_seq_num_rcvd in
    let x = if q.dtp.dtcp_present then sv_update q n else set_edge q n in
    settled (into_gap e p) x (rw (queue_pdu-inserted e p o new s.flagged) refl) (
      Same-IsOrderly q x
        (either-Same q.dtp.dtcp_present q _ (set_edge q n) (sv_update-Same q n)
          (record { queue = refl; largest = refl; cube = refl; north = refl }))
        (inserted-IsOrderly e p o new s.flagged h))

abbrev counted : Efcp → Efcp
counted e = set_dtp e (record e.dtp { max_seq_num_rcvd = u32 (e.dtp.max_seq_num_rcvd + 1) })

counted-IsOrderly :
    (e : Efcp) → e.dtp.max_seq_num_rcvd + 1 + 1 < u32_mod → IsOrderly e → IsOrderly (counted e)
counted-IsOrderly e b o = record {
  ascending = o.ascending;
  below =
      All-weaken _ _ (λ x h. omega (arith, u32_small (e.dtp.max_seq_num_rcvd + 1) o.bounded))
        e.dtp.reassembly_pduq o.below;
  lengths = o.lengths;
  bounded = omega (arith, u32_small (e.dtp.max_seq_num_rcvd + 1) o.bounded);
}

in_order-Settles :
    (e : Efcp) (p : DataPdu)
    → IsOrderly e
    → IsSound p
    → p.seq_num ≡ u32 (e.dtp.max_seq_num_rcvd + 1)
    → Settles (in_order e p)
unfolding in_order
in_order-Settles e p o s h =
    let c = counted e in
    let next = u32_small (e.dtp.max_seq_num_rcvd + 1) o.bounded in
    let oc = counted-IsOrderly e (omega (arith, s.in_range, next)) o in
    let new =
      not_queued e.dtp.reassembly_pduq e.dtp.max_seq_num_rcvd p.seq_num o.below
        (omega (arith, next)) in
    let q = inserted c p oc new s.flagged in
    let n = q.dtp.max_seq_num_rcvd in
    let late = add_timer_op (set_edge q (u32 (n + 1))) (schedule (a_timer p.seq_num)) in
    let x = if q.dtp.dtcp_present then sv_update q n else late in
    settled (in_order e p) x (rw (queue_pdu-inserted c p oc new s.flagged) refl) (
      Same-IsOrderly q x
        (either-Same q.dtp.dtcp_present q _ late (sv_update-Same q n)
          (record { queue = refl; largest = refl; cube = refl; north = refl }))
        (inserted-IsOrderly c p oc new s.flagged (omega arith)))

-- The largest number moves up to the PDU's.
abbrev raised : Efcp → ℕ → Efcp
raised e n = set_dtp e (set_max_seq_num_rcvd e.dtp n)

raised-largest :
    (e : Efcp) (n : ℕ)
    → (n ≤ (raised e n).dtp.max_seq_num_rcvd)
      × (e.dtp.max_seq_num_rcvd ≤ (raised e n).dtp.max_seq_num_rcvd)
unfolding set_max_seq_num_rcvd
raised-largest e n = ground arith

raised-bounded :
    (e : Efcp) (n : ℕ)
    → n + 1 < u32_mod
    → e.dtp.max_seq_num_rcvd + 1 < u32_mod
    → (raised e n).dtp.max_seq_num_rcvd + 1 < u32_mod
unfolding set_max_seq_num_rcvd
raised-bounded e n h k = ground arith

raised-IsOrderly :
    (e : Efcp) (n : ℕ)
    → IsAscendingFrom 0 e.dtp.reassembly_pduq
    → All (λ p. p.seq_num ≤ (raised e n).dtp.max_seq_num_rcvd) e.dtp.reassembly_pduq
    → HasLengths e.dtp.reassembly_pduq
    → (raised e n).dtp.max_seq_num_rcvd + 1 < u32_mod
    → IsOrderly (raised e n)
unfolding set_max_seq_num_rcvd
raised-IsOrderly e n a b l m = record { ascending = a; below = b; lengths = l; bounded = m }

out_of_order-Settles :
    (e : Efcp) (p : DataPdu)
    → IsOrderly e
    → IsSound p
    → e.dtp.max_seq_num_rcvd < p.seq_num
    → Settles (out_of_order e p)
unfolding out_of_order
out_of_order-Settles e p o s h =
    let new = not_queued e.dtp.reassembly_pduq e.dtp.max_seq_num_rcvd p.seq_num o.below h in
    let q = inserted e p o new s.flagged in
    let m = raised q p.seq_num in
    let (high, low) = raised-largest q p.seq_num in
    let n = m.dtp.max_seq_num_rcvd in
    let late = add_timer_op m (schedule (a_timer n)) in
    let x = if m.dtp.dtcp_present then sv_update m n else late in
    settled (out_of_order e p) x (rw (queue_pdu-inserted e p o new s.flagged) refl) (
      Same-IsOrderly m x
        (either-Same m.dtp.dtcp_present m _ late (sv_update-Same m n)
          (record { queue = refl; largest = refl; cube = refl; north = refl }))
        (raised-IsOrderly q p.seq_num
          (ordered_insert-IsAscendingFrom 0 e.dtp.reassembly_pduq p o.ascending (omega arith) new)
          (All-ordered_insert _ p e.dtp.reassembly_pduq high
            (All-weaken _ _ (λ y k. omega arith) e.dtp.reassembly_pduq o.below))
          (All-ordered_insert _ p e.dtp.reassembly_pduq s.flagged o.lengths)
          (raised-bounded q p.seq_num s.in_range o.bounded)))

-- The queue of a new run holds its first PDU alone.
abbrev run_start : Efcp → DataPdu → Efcp
run_start d p =
    set_edge (with_queue (raised (with_queue d []) p.seq_num) (p ∷ [])) (u32 (p.seq_num + 1))

run_start-queue_pdu :
    (d : Efcp) (p : DataPdu)
    → queue_pdu (raised (with_queue d []) p.seq_num) p
      ≡ ok (with_queue (raised (with_queue d []) p.seq_num) (p ∷ []))
unfolding add_pdu_to_reassembly_q add_to_queue set_max_seq_num_rcvd
run_start-queue_pdu d p = refl

new_run-Settles : (e : Efcp) (p : DataPdu) → IsOrderly e → IsSound p → Settles (new_run e p)
unfolding new_run
new_run-Settles e p o s =
    let first = delimit-Settles e o in
    let d = first.after in
    let q = run_start d p in
    let x = if q.dtp.dtcp_present then sv_update q p.seq_num else q in
    let (high, _) = raised-largest (with_queue d []) p.seq_num in
    settled (new_run e p) x (rw first.returned (rw (run_start-queue_pdu d p) refl)) (
      Same-IsOrderly q x
        (either-Same q.dtp.dtcp_present q _ q (sv_update-Same q p.seq_num) (Same-refl q))
        (record {
          ascending = (omega arith, tt);
          below = (high, tt);
          lengths = (s.flagged, tt);
          bounded = raised-bounded (with_queue d []) p.seq_num s.in_range first.orderly.bounded;
        }))

ecn-IsOrderly : (e : Efcp) (p : DataPdu) → IsOrderly e → IsOrderly (ecn_policy e p)
unfolding ecn_policy
ecn-IsOrderly e p o =
    Same-IsOrderly e _
      (either-Same (is_fc_present e.dtp) e _ e
        (record { queue = refl; largest = refl; cube = refl; north = refl }) (Same-refl e))
      o

largest-ecn :
    (e : Efcp) (p : DataPdu) → (ecn_policy e p).dtp.max_seq_num_rcvd ≡ e.dtp.max_seq_num_rcvd
unfolding ecn_policy
largest-ecn e p = ground arith

either-Settles :
    (b : Bool) (x y : Result Efcp)
    → (b ≡ true → Settles x)
    → (b ≡ false → Settles y)
    → Settles (if b then x else y)
either-Settles true x y h k = h refl
either-Settles false x y h k = k refl

pub at_rest : (e : Efcp) → IsOrderly e → Settles (ok e)
at_rest e o = record { after = e; returned = refl; orderly = o }

continue_run-Settles :
    (e : Efcp) (p : DataPdu) → IsOrderly e → IsSound p → Settles (continue_run e p)
unfolding continue_run
continue_run-Settles e p o s =
    let dropped = at_rest (drop_duplicate e) (Same-IsOrderly e _ (drop_duplicate-Same e) o) in
    let next = u32_small (e.dtp.max_seq_num_rcvd + 1) o.bounded in
    either-Settles (ltb p.seq_num e.dtp.rcv_left_win_edge) _ _ (λ _. dropped)
      (λ _.
        either-Settles
          (ltb e.dtp.rcv_left_win_edge p.seq_num && leb p.seq_num e.dtp.max_seq_num_rcvd) _ _
          (λ g.
            either-Settles (is_duplicate e.dtp.reassembly_pduq p.seq_num) _ _ (λ _. dropped)
              (λ new. into_gap-Settles e p o s new (ground arith)))
          (λ _.
            either-Settles (p.seq_num == u32 (e.dtp.max_seq_num_rcvd + 1)) _ _
              (λ h. in_order-Settles e p o s (==→eq _ _ h))
              (λ _.
                either-Settles (ltb (u32 (e.dtp.max_seq_num_rcvd + 1)) p.seq_num) _ _
                  (λ h. out_of_order-Settles e p o s (omega (arith, next, ltb→lt _ _ h)))
                  (λ _. at_rest e o))))

-- In whatever state of the windows, a data transfer PDU with a number that is not the last of its type
-- and a field with lengths is handled to the end: the call returns, without the error of a second PDU
-- with a queued number, and the reassembly queue is in order again.
pub handle_data_transfer_pdu-Settles :
    (e : Efcp) (p : DataPdu) → IsOrderly e → IsSound p → Settles (handle_data_transfer_pdu e p)
unfolding handle_data_transfer_pdu
handle_data_transfer_pdu-Settles e p o s =
    let m = ecn-IsOrderly e p o in
    either-Settles (has_flag p.flags drf_flag) _ _ (λ _. new_run-Settles (ecn_policy e p) p m s)
      (λ _. continue_run-Settles (ecn_policy e p) p m s)
