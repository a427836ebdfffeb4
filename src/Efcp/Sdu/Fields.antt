-- ===== src/Efcp/Sdu/Fields.antt =====
-- Reading the SDUs of a PDU's field back out, and the numbers that the delimiting module gives.
use rinasim.Base.{ℕ, ◌+◌, ◌≡◌, refl, List, [], ◌∷◌, some, arith, u32, sub32, u32_mod, All, ◌<◌}
use rinasim.Efcp.Sdu.{
  Sdu, sdu_complete_type, get_size, UserDataField, new_field, get_data, Packet, Delimiting,
  process_msg_from_fai,
}
use rinasim.Efcp.Sdu.Flags.{add_all, total_size, pdu_data-add_all, field_size-add_all}

get_data_first :
    (u : UserDataField) (s : Sdu) (ss : List Sdu)
    → u.pdu_data ≡ s ∷ ss
    → get_data u
      ≡ some (s, record u { pdu_data = ss; field_size = sub32 u.field_size (get_size s) })
unfolding get_data
get_data_first u s ss h = rw h refl

size_left :
    (u : UserDataField) (n total : ℕ)
    → u.field_size ≡ u32 (n + total)
    → n < u32_mod
    → sub32 u.field_size n ≡ u32 total
unfolding u32 sub32
size_left u n total h b = omega arith

-- A field filled from empty gives its first SDU back, if that is not larger than a 32-bit word says,
-- with the others left in order and the size of the field counting those alone.
pub get_data-add_all :
    (s : Sdu) (ss : List Sdu)
    → get_size s < u32_mod
    → (u : UserDataField) × (get_data (add_all new_field (s ∷ ss)) ≡ some (s, u))
      × (u.pdu_data ≡ ss)
      × (u.field_size ≡ u32 (total_size ss))
unfolding new_field u32
get_data-add_all s ss b =
    let all = add_all new_field (s ∷ ss) in
    (
      _,
      get_data_first all s ss (pdu_data-add_all new_field (s ∷ ss)),
      refl,
      size_left all (get_size s) (total_size ss)
          (omega (arith, field_size-add_all new_field (s ∷ ss) (omega arith))) b,
    )

-- The packets go through the delimiting module one after the other.
abbrev pub process_all : Delimiting → List Packet → List Sdu
process_all d [] = []
process_all d (m ∷ ms) = let next = process_msg_from_fai d m in next.1 ∷ process_all next.0 ms

-- However many packets come, each SDU is complete and gets the number that the first one got.
pub process_all_same_number :
    (d : Delimiting) (ms : List Packet)
    → All
        (λ s. (s.seq_num ≡ d.next_sdu_seq_num) × (s.data_type ≡ sdu_complete_type))
        (process_all d ms)
unfolding process_msg_from_fai
process_all_same_number d [] = tt
process_all_same_number d (m ∷ ms) = ((refl, refl), process_all_same_number d ms)
