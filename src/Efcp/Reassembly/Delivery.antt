-- ===== src/Efcp/Reassembly/Delivery.antt =====
-- What `delimitFromRMT` hands north, and when it does not come back.
use rinasim.Base.{
  ℕ, zero, suc, ◌<◌, ◌≤◌, ◌≡◌, List, [], ◌∷◌, ◌++◌, arith, true, false, Bool, refl, All, length,
  Result, ok, err, out_of_fuel, ltb, not, ◌&&◌, Bool-cases, ◌⊎◌, inl, inr, ap, append_assoc,
  append-nil, sym, ◌∙◌, subst,
}
use rinasim.Efcp.Sdu.{Sdu, sdu_no_length}
use rinasim.Efcp.Pdu.{DataPdu, has_flag}
use rinasim.Efcp.State.{Efcp}
use rinasim.Efcp.Reassembly.{deliver, set_reassembly, must_wait, delimit_loop, delimit_from_rmt}

-- The SDUs of the PDUs, in order.
abbrev pub sdus : List DataPdu → List Sdu
sdus [] = []
sdus (p ∷ ps) = p.user_data_field.pdu_data ++ sdus ps

-- The flags of every queued PDU say that the lengths are there.
abbrev pub HasLengths : List DataPdu → Type 0
HasLengths = All λ p. has_flag p.user_data_field.sdu_delimit_flags sdu_no_length ≡ false

-- `deliver` adds the SDUs to what went north, and changes nothing else but the number of the last.
abbrev Delivers : List Sdu → Efcp → Efcp → Type 0
Delivers ss e e' =
    (e'.north ≡ e.north ++ ss)
    × (e'.dtp.rcv_left_win_edge ≡ e.dtp.rcv_left_win_edge)
    × (e'.dtp.qos_cube ≡ e.dtp.qos_cube)
    × (e'.south ≡ e.south)
    × (e'.dtp.max_seq_num_rcvd ≡ e.dtp.max_seq_num_rcvd)

deliver-Delivers : (ss : List Sdu) (e : Efcp) → Delivers ss e (deliver ss e)
unfolding deliver
deliver-Delivers [] e = (sym (append-nil e.north), refl, refl, refl, refl)
deliver-Delivers (s ∷ ss) e =
    let ih = deliver-Delivers ss (record e {
      dtp = record (e.dtp) { last_sdu_delivered = s.seq_num };
      north = e.north ++ s ∷ [];
    }) in
    (ih.0 ∙ append_assoc e.north (s ∷ []) ss, ih.1, ih.2, ih.3, ih.4)

-- The first PDU of the list, if there is one, is not below the edge.
abbrev pub StartsAt : ℕ → List DataPdu → Type 0
StartsAt edge [] = Unit
StartsAt edge (p ∷ ps) = edge ≤ p.seq_num

-- With forced order the front lies below the edge and the back starts at or above it; without it
-- nothing is kept.
abbrev pub Placed : Bool → ℕ → List DataPdu → List DataPdu → Type 0
Placed order edge front back =
    (order ≡ true) × All (λ p. p.seq_num < edge) front × StartsAt edge back
    ⊎ (order ≡ false) × (back ≡ [])

-- The outcome of a call on the queue `q`: what left it went north, and what stayed waits for the edge.
pub record Delimited (e : Efcp) (q : List DataPdu) (r : Result Efcp) : Type 0 where
  pub after : Efcp
  pub front : List DataPdu
  pub back : List DataPdu
  pub returned : r ≡ ok after
  pub split : q ≡ front ++ back
  pub handed_north : after.north ≡ e.north ++ sdus front
  pub queued : after.dtp.reassembly_pduq ≡ back
  pub edge : after.dtp.rcv_left_win_edge ≡ e.dtp.rcv_left_win_edge
  pub sent : after.south ≡ e.south
  pub largest : after.dtp.max_seq_num_rcvd ≡ e.dtp.max_seq_num_rcvd
  pub cube : after.dtp.qos_cube ≡ e.dtp.qos_cube
  pub placed : Placed e.dtp.qos_cube.force_order e.dtp.rcv_left_win_edge front back

Placed-next :
    (order : Bool) (edge : ℕ) (p : DataPdu) (front back : List DataPdu)
    → (order && not (ltb p.seq_num edge)) ≡ false
    → Placed order edge front back
    → Placed order edge (p ∷ front) back
Placed-next order edge p front back g (inl (o, f, b)) = inl (o, (ground arith, f), b)
Placed-next order edge p front back g (inr h) = inr h

Placed-all : (order : Bool) (edge : ℕ) → Placed order edge [] []
Placed-all true edge = inl (refl, tt, tt)
Placed-all false edge = inr (refl, refl)

-- A PDU that may go adds its SDUs in front of what the rest of the loop hands over.
goes-Delimited :
    (e : Efcp) (p : DataPdu) (ps : List DataPdu) (r : Result Efcp)
    → must_wait e p ≡ false
    → Delimited (deliver p.user_data_field.pdu_data e) ps r
    → Delimited e (p ∷ ps) r
unfolding must_wait
goes-Delimited e p ps r g d =
    let (north, edge, cube, south, largest) = deliver-Delivers p.user_data_field.pdu_data e in
    record {
      after = d.after;
      front = p ∷ d.front;
      back = d.back;
      returned = d.returned;
      split = ap (λ q. p ∷ q) d.split;
      handed_north =
          d.handed_north
          ∙ ap (λ l. l ++ sdus d.front) north
          ∙ append_assoc e.north p.user_data_field.pdu_data (sdus d.front);
      queued = d.queued;
      edge = d.edge ∙ edge;
      sent = d.sent ∙ south;
      largest = d.largest ∙ largest;
      cube = d.cube ∙ cube;
      placed = Placed-next e.dtp.qos_cube.force_order e.dtp.rcv_left_win_edge p d.front d.back g (
          subst (λ o. Placed o e.dtp.rcv_left_win_edge d.front d.back)
            (ap (λ q. q.force_order) cube)
            (subst
              (λ n.
                Placed (deliver p.user_data_field.pdu_data e).dtp.qos_cube.force_order n d.front
                  d.back)
              edge d.placed));
    }

waits-Delimited :
    (e : Efcp) (p : DataPdu) (ps : List DataPdu)
    → must_wait e p ≡ true
    → Delimited e (p ∷ ps) (ok (set_reassembly e (p ∷ ps)))
unfolding must_wait set_reassembly
waits-Delimited e p ps w = record {
  after = set_reassembly e (p ∷ ps);
  front = [];
  back = p ∷ ps;
  returned = refl;
  split = refl;
  handed_north = sym (append-nil e.north);
  queued = refl;
  edge = refl;
  sent = refl;
  largest = refl;
  cube = refl;
  placed = inl (ground arith, tt, ground arith);
}

delimit_loop-Delimited :
    (fuel : ℕ) (q : List DataPdu) (e : Efcp)
    → length q < fuel
    → HasLengths q
    → Delimited e q (delimit_loop fuel q e)
unfolding delimit_loop
delimit_loop-Delimited zero q e h l = absurd (omega arith)
delimit_loop-Delimited (suc fuel) [] e h l = record {
  after = set_reassembly e [];
  front = [];
  back = [];
  returned = refl;
  split = refl;
  handed_north = sym (append-nil e.north);
  queued = refl;
  edge = refl;
  sent = refl;
  largest = refl;
  cube = refl;
  placed = Placed-all e.dtp.qos_cube.force_order e.dtp.rcv_left_win_edge;
}
delimit_loop-Delimited (suc fuel) (p ∷ ps) e h l = elim (Bool-cases (must_wait e p)) [
  | inl w ↦ rw (w, delimit_loop) (waits-Delimited e p ps w)
  | inr g ↦
      rw (g, l.0, delimit_loop)
        (goes-Delimited e p ps _ g
          (delimit_loop-Delimited fuel ps (deliver p.user_data_field.pdu_data e) (omega arith) l.1))
]

-- If the flags of the queued PDUs say that lengths are present, `delimitFromRMT` returns: the queue
-- splits into a front, whose SDUs go north in order, and a back, which stays queued; the left window
-- edge and what was sent to the RMT are unchanged. With forced order the front lies below the edge
-- and the back starts at or above it; without it nothing is kept.
pub delimit_from_rmt-Delimited :
    (e : Efcp)
    → HasLengths e.dtp.reassembly_pduq
    → Delimited e e.dtp.reassembly_pduq (delimit_from_rmt e)
unfolding delimit_from_rmt
delimit_from_rmt-Delimited e l =
    delimit_loop-Delimited (suc (length e.dtp.reassembly_pduq)) e.dtp.reassembly_pduq e
      (omega arith) l

-- A first PDU that need not wait for the edge, and whose flags say that no lengths are there, keeps
-- the loop from ending: no number of rounds is enough.
delimit_loop_hangs :
    (fuel : ℕ) (p : DataPdu) (ps : List DataPdu) (e : Efcp)
    → must_wait e p ≡ false
    → has_flag p.user_data_field.sdu_delimit_flags sdu_no_length ≡ true
    → delimit_loop fuel (p ∷ ps) e ≡ err out_of_fuel
unfolding delimit_loop
delimit_loop_hangs zero p ps e h f = refl
delimit_loop_hangs (suc fuel) p ps e h f =
    rw (h, f, delimit_loop) (delimit_loop_hangs fuel p ps e h f)
