-- ===== src/Efcp/Reassembly/Edge.antt =====
-- The receiver's left window edge.
use rinasim.Base.{
  ℕ, zero, suc, ◌+◌, ◌<◌, ◌≤◌, ◌≡◌, List, [], ◌∷◌, arith, ◌==◌, ltb, leb, ◌&&◌, if◌then◌else◌, true,
  false, Bool, refl, length, Bool-cases, inl, inr, ltb→lt, ltb→ge, ap, sym, ◌∙◌, u32, u32_mod,
  u32_small, All,
}
use rinasim.Efcp.Pdu.{DataPdu}
use rinasim.Efcp.State.{DtpState}
use rinasim.Efcp.Reassembly.{advance_edge, is_duplicate, update_rcv_lwe}
use rinasim.Efcp.Reassembly.Order.{IsAscendingFrom, is_duplicate_below}

-- No sequence number is the last of its type, so an edge past it does not wrap.
abbrev pub NoWrap : List DataPdu → Type 0
NoWrap = All λ p. p.seq_num + 1 < u32_mod

advance_edge_mono :
    (limit : ℕ) (alone : Bool) (q : List DataPdu) (lwe : ℕ)
    → NoWrap q
    → lwe ≤ advance_edge limit alone q lwe
unfolding advance_edge
advance_edge_mono limit alone [] lwe w = omega arith
advance_edge_mono limit alone (p ∷ q) lwe w = ground (
  arith,
  u32_small (lwe + 1),
  advance_edge_mono limit false q lwe w.1,
  advance_edge_mono limit false q (u32 (lwe + 1)) w.1,
)

-- Whatever is queued, the left window edge does not move back.
update_rcv_lwe_mono :
    (s : DtpState) (n : ℕ)
    → NoWrap s.reassembly_pduq
    → s.rcv_left_win_edge ≤ (update_rcv_lwe s n).rcv_left_win_edge
unfolding update_rcv_lwe
update_rcv_lwe_mono s n w = ground (
  arith,
  advance_edge_mono (u32 (s.last_sdu_delivered + s.qos_cube.max_allow_gap)) true s.reassembly_pduq
      s.rcv_left_win_edge w,
)

abbrev next : ℕ → ℕ → ℕ
next n lwe = if n == lwe then u32 (lwe + 1) else lwe

advance_edge_least :
    (limit : ℕ) (q : List DataPdu) (lo lwe : ℕ)
    → IsAscendingFrom lo q
    → NoWrap q
    → ((n : ℕ) → lwe ≤ n → n < advance_edge limit false q lwe → is_duplicate q n ≡ true)
      × (is_duplicate q (advance_edge limit false q lwe) ≡ false)
unfolding advance_edge is_duplicate
advance_edge_least limit [] lo lwe a w = (λ n h k. absurd (omega arith), refl)
advance_edge_least limit (p ∷ q) lo lwe a w =
    let (filled, missing) =
      advance_edge_least limit q (p.seq_num + 1) (next p.seq_num lwe) a.1 w.1 in
    (
      λ n h k. ground (arith, u32_small (lwe + 1), filled n),
      ground (
        arith,
        missing,
        u32_small (lwe + 1),
        advance_edge_mono limit false q (next p.seq_num lwe) w.1,
        is_duplicate_below (p.seq_num + 1) lwe q a.1,
      ),
    )

advance_edge_near :
    (limit : ℕ) (q : List DataPdu) (lwe : ℕ)
    → NoWrap q
    → advance_edge limit false q lwe ≤ lwe + length q
unfolding advance_edge
advance_edge_near limit [] lwe w = omega arith
advance_edge_near limit (p ∷ q) lwe w = ground (
  arith,
  u32_small (lwe + 1),
  advance_edge_near limit q lwe w.1,
  advance_edge_near limit q (u32 (lwe + 1)) w.1,
)

-- The first number from `n` on that is not queued, among `fuel` of them.
abbrev pub first_missing : ℕ → List DataPdu → ℕ → ℕ
first_missing zero q n = n
first_missing (suc fuel) q n =
    let later = first_missing fuel q (n + 1) in if is_duplicate q n then later else n

first_missing_is :
    (fuel : ℕ) (q : List DataPdu) (n edge : ℕ)
    → n ≤ edge
    → edge ≤ n + fuel
    → ((k : ℕ) → n ≤ k → k < edge → is_duplicate q k ≡ true)
    → is_duplicate q edge ≡ false
    → first_missing fuel q n ≡ edge
first_missing_is zero q n edge a b f m = omega arith
first_missing_is (suc fuel) q n edge a b f m = elim (Bool-cases (ltb n edge)) [
  | inl l ↦ rw (f n (omega arith) (ltb→lt n edge l)) (
      first_missing_is fuel q (n + 1) edge (omega (arith, ltb→lt n edge l)) (omega arith)
        (λ k g h. f k (omega arith) h) m)
  | inr g ↦
      let here : edge ≡ n = omega (arith, ltb→ge n edge g) in
      ground (arith, ap (is_duplicate q) here)
]

-- Whether the first PDU is past the edge with an SDU inside the allowed gap.
abbrev pub is_inside_gap : ℕ → DataPdu → ℕ → Bool
is_inside_gap limit p lwe = ltb lwe p.seq_num && leb p.user_data_field.sdu_seq_num limit

inside_gap :
    (limit : ℕ) (p : DataPdu) (q : List DataPdu) (lwe : ℕ)
    → is_inside_gap limit p lwe ≡ true
    → advance_edge limit true (p ∷ q) lwe ≡ p.seq_num
unfolding advance_edge
inside_gap limit p q lwe h = ground (arith, h)

outside_gap :
    (limit : ℕ) (p : DataPdu) (q : List DataPdu) (lwe : ℕ)
    → is_inside_gap limit p lwe ≡ false
    → advance_edge limit true (p ∷ q) lwe ≡ advance_edge limit false (p ∷ q) lwe
unfolding advance_edge
outside_gap limit p q lwe h = ground (arith, h)

-- With DTCP, on a queue whose numbers rise, none of them the last of its type, the one pass of
-- `updateRcvLWE` moves the left window edge to the first number from it on that is not queued; but
-- where the first PDU is past the edge and its SDU is within the allowed gap of the last delivered
-- one, to the number of that PDU.
pub update_rcv_lwe-first_missing :
    (s : DtpState) (n lo : ℕ) (p : DataPdu) (q : List DataPdu)
    → s.dtcp_present ≡ true
    → s.reassembly_pduq ≡ p ∷ q
    → IsAscendingFrom lo (p ∷ q)
    → NoWrap (p ∷ q)
    → let limit = u32 (s.last_sdu_delivered + s.qos_cube.max_allow_gap) in
      (update_rcv_lwe s n).rcv_left_win_edge ≡ (
        if is_inside_gap limit p s.rcv_left_win_edge
        then p.seq_num
        else first_missing (length (p ∷ q)) (p ∷ q) s.rcv_left_win_edge)
unfolding update_rcv_lwe
update_rcv_lwe-first_missing s n lo p q d r a w =
    let limit = u32 (s.last_sdu_delivered + s.qos_cube.max_allow_gap) in
    let lwe = s.rcv_left_win_edge in
    let (filled, missing) = advance_edge_least limit (p ∷ q) lo lwe a w in
    let reached =
      first_missing_is (length (p ∷ q)) (p ∷ q) lwe (advance_edge limit false (p ∷ q) lwe)
        (advance_edge_mono limit false (p ∷ q) lwe w) (advance_edge_near limit (p ∷ q) lwe w) filled
        missing in
    elim (Bool-cases (is_inside_gap limit p lwe)) [
      | inl h ↦ rw d (rw r (rw h (inside_gap limit p q lwe h)))
      | inr h ↦ rw d (rw r (rw h (outside_gap limit p q lwe h ∙ sym reached)))
    ]
