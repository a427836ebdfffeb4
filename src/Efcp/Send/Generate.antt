-- ===== src/Efcp/Send/Generate.antt =====
-- How `generatePDUsnew` packs the SDUs of the data queue into PDUs.
use rinasim.Base.{
  ℕ, zero, suc, ◌+◌, ◌<◌, ◌≤◌, ◌≡◌, refl, List, [], ◌∷◌, ◌++◌, true, u32, Result, ok, err, le→leb,
  out_of_fuel, All, All-right, arith, length, length-append, ap, sym, ◌∙◌, append_assoc, append-nil,
  subst, u32_small, sub32, sub32_small, leb, Bool-cases, inl, inr, gt→leb,
}
use rinasim.Efcp.Sdu.{Sdu, UserDataField, new_field, add_data, get_size}
use rinasim.Efcp.Sdu.Flags.{add_all, pdu_data-add_data, pdu_data-add_all, field_size-add_data}
use rinasim.Efcp.Pdu.{DataPdu}
use rinasim.Efcp.State.{Efcp}
use rinasim.Efcp.Output.{next_data_pdu}
use rinasim.Efcp.Reassembly.Delivery.{sdus}
use rinasim.Efcp.Send.{fill, generate_one, generate_loop, generate_pdus, max_pdu_size}

-- What `fill` took, and the SDUs that it left.
record Filled (ss : List Sdu) (u : UserDataField) (r : UserDataField × List Sdu) : Type 0 where
  taken : List Sdu
  parts : ss ≡ taken ++ r.1
  field : r.0 ≡ add_all u taken
  bounded : (r.0).field_size ≤ max_pdu_size

room :
    (u : UserDataField) (s : Sdu)
    → u.field_size ≤ max_pdu_size
    → leb (get_size s) (sub32 max_pdu_size u.field_size) ≡ true
    → (add_data u s).field_size ≤ max_pdu_size
room u s b h = ground (
  arith,
  sub32_small max_pdu_size u.field_size,
  field_size-add_data u s,
  u32_small (u.field_size + get_size s),
)

fill-Filled :
    (ss : List Sdu) (u : UserDataField) → u.field_size ≤ max_pdu_size → Filled ss u (fill ss u)
unfolding fill
fill-Filled [] u b = record { taken = []; parts = refl; field = refl; bounded = b }
fill-Filled (s ∷ ss) u b = elim (Bool-cases (leb (get_size s) (sub32 max_pdu_size u.field_size))) [
  | inl fits ↦
      let f = fill-Filled ss (add_data u s) (room u s b fits) in
      rw fits (record {
        taken = s ∷ f.taken;
        parts = ap (λ l. s ∷ l) f.parts;
        field = f.field;
        bounded = f.bounded;
      })
  | inr full ↦ rw full (record { taken = []; parts = refl; field = refl; bounded = b })
]

-- The numbers are consecutive words from `n` on.
abbrev pub Numbered : ℕ → List DataPdu → Type 0
Numbered n [] = Unit
Numbered n (p ∷ ps) = (p.seq_num ≡ n) × Numbered (u32 (n + 1)) ps

abbrev pub Fits : Sdu → Type 0
Fits s = get_size s ≤ max_pdu_size

-- What the generation of PDUs from the data queue comes to.
pub record Generates (e : Efcp) (r : Result Efcp) : Type 0 where
  pub after : Efcp
  pub pdus : List DataPdu
  pub returned : r ≡ ok after
  pub queued : after.dtp.generated_pdus ≡ e.dtp.generated_pdus ++ pdus
  pub emptied : after.data_q ≡ []
  pub payload : sdus pdus ≡ e.data_q
  pub bounded : All (λ p. (p.user_data_field).field_size ≤ max_pdu_size) pdus
  pub numbered : Numbered e.dtp.next_seq_num_to_send pdus

-- One round on a data queue whose first SDU fits.
module _ (e : Efcp) (s : Sdu) (ss : List Sdu) (queued : e.data_q ≡ s ∷ ss) (small : Fits s) where
  abbrev rest : UserDataField × List Sdu
  rest = fill ss (add_data new_field s)

  first_fits : leb (get_size s) (sub32 max_pdu_size (new_field).field_size) ≡ true
  unfolding new_field sub32
  first_fits = le→leb (get_size s) 1500 small

  fill-first : fill e.data_q new_field ≡ rest
  unfolding fill
  fill-first = rw queued (rw first_fits refl)

  taken : Filled ss (add_data new_field s) rest
  unfolding new_field
  taken = fill-Filled ss (add_data new_field s) (room new_field s (omega arith) first_fits)

  carried : (rest.0).pdu_data ≡ s ∷ taken.taken
  unfolding new_field
  carried =
      ap (λ u. u.pdu_data) taken.field
      ∙ pdu_data-add_all (add_data new_field s) taken.taken
      ∙ ap (λ l. l ++ taken.taken) (pdu_data-add_data new_field s)

  left-shorter : length rest.1 ≤ length ss
  left-shorter = omega (arith, ap length taken.parts, length-append taken.taken rest.1)

  round-Generates : (r : Result Efcp) → Generates (generate_one e) r → Generates e r
  unfolding generate_one
  round-Generates r g = record {
    after = g.after;
    pdus = record (next_data_pdu e) { user_data_field = (fill e.data_q new_field).0 } ∷ g.pdus;
    returned = g.returned;
    queued = g.queued ∙ append_assoc e.dtp.generated_pdus (_ ∷ []) g.pdus;
    emptied = g.emptied;
    payload =
        ap (λ u. (u.0).pdu_data ++ sdus g.pdus) fill-first
        ∙ ap (λ l. l ++ sdus g.pdus) carried
        ∙ ap (λ l. s ∷ taken.taken ++ l) (g.payload ∙ ap (λ u. u.1) fill-first)
        ∙ ap (λ l. s ∷ l) (sym taken.parts)
        ∙ sym queued;
    bounded =
        (subst (λ u. (u.0).field_size ≤ max_pdu_size) (sym fill-first) taken.bounded, g.bounded);
    numbered = (refl, g.numbered);
  }

  next_round : (fuel : ℕ) → generate_loop (suc fuel) e ≡ generate_loop fuel (generate_one e)
  unfolding generate_loop
  next_round fuel = ground arith

  left_queue : (generate_one e).data_q ≡ rest.1
  unfolding generate_one
  left_queue = ap (λ u. u.1) fill-first

generate_loop-Generates :
    (fuel : ℕ) (e : Efcp) (q : List Sdu)
    → e.data_q ≡ q
    → length q < fuel
    → All Fits q
    → Generates e (generate_loop fuel e)
unfolding generate_loop
generate_loop-Generates zero e q d f a = absurd (omega arith)
generate_loop-Generates (suc fuel) e [] d f a = record {
  after = e;
  pdus = [];
  returned = ground arith;
  queued = sym (append-nil e.dtp.generated_pdus);
  emptied = d;
  payload = sym d;
  bounded = tt;
  numbered = tt;
}
generate_loop-Generates (suc fuel) e (s ∷ ss) d f a =
    subst (λ r. Generates e r) (sym (next_round e s ss d a.0 fuel))
      (round-Generates e s ss d a.0 _ (
        generate_loop-Generates fuel (generate_one e) (rest e s ss d a.0).1
          (left_queue e s ss d a.0) (omega (arith, left-shorter e s ss d a.0))
          (All-right Fits (taken e s ss d a.0).taken (rest e s ss d a.0).1
            (subst (All Fits) (taken e s ss d a.0).parts a.1))))

-- When every SDU of the data queue fits into a PDU, `generatePDUsnew` returns: the data queue is
-- empty, and behind the generated PDUs stand new ones with consecutive numbers, each with at most
-- `MAX_PDU_SIZE` of data, which together carry the data queue's SDUs in order.
pub generate_pdus-Generates : (e : Efcp) → All Fits e.data_q → Generates e (generate_pdus e)
unfolding generate_pdus
generate_pdus-Generates e a =
    generate_loop-Generates (suc (length e.data_q)) e e.data_q refl (omega arith) a

stays :
    (e : Efcp) (s : Sdu) (ss : List Sdu)
    → e.data_q ≡ s ∷ ss
    → max_pdu_size < get_size s
    → (generate_one e).data_q ≡ s ∷ ss
unfolding generate_one fill new_field sub32
stays e s ss d h = ground (arith, gt→leb (get_size s) 1500 h)

-- A first SDU above `MAX_PDU_SIZE` keeps `generatePDUsnew` from ending, however long it runs.
generate_loop_hangs :
    (fuel : ℕ) (e : Efcp) (s : Sdu) (ss : List Sdu)
    → e.data_q ≡ s ∷ ss
    → max_pdu_size < get_size s
    → generate_loop fuel e ≡ err out_of_fuel
unfolding generate_loop
generate_loop_hangs zero e s ss d h = refl
generate_loop_hangs (suc fuel) e s ss d h =
    ground (arith, generate_loop_hangs fuel (generate_one e) s ss (stays e s ss d h) h)
