-- ===== src/Efcp/Sdu.antt =====
-- src/Common/SDU.cc, src/DIF/EFCP/DTP/UserDataField.cc and src/DIF/Delimiting/Delimiting.cc: service
-- data units, their fragments, and the field of a PDU that carries them.
pub mod Flags
pub mod Fragments
pub mod Fields
use Prim.Native.Nat.{bit_or}
use rinasim.Base.{
  ℕ, suc, ◌+◌, ◌*◌, ◌==◌, List, [], ◌∷◌, ◌++◌, Option, none, some, Result, ok, err, out_of_fuel,
  if◌then◌else◌, ltb, is_empty, u32, sub32, zero, true, false, ◌>>=◌,
}

-- An application's packet: what the model keeps is who it is and how long.
pub record Packet : Type 0 where
  pub packet_id : ℕ
  pub byte_length : ℕ

pub data DataType : Type 0 where
  unset_type sdu_complete_type sdu_fragment_type : DataType

abbrev pub sdu_frag_first : ℕ
sdu_frag_first = 0x01

abbrev pub sdu_frag_middle : ℕ
sdu_frag_middle = 0x00

abbrev pub sdu_frag_last : ℕ
sdu_frag_last = 0x02

pub record Sdu : Type 0 where
  pub data_type : DataType
  pub size : ℕ
  pub f_size : ℕ
  pub f_offset : ℕ
  pub seq_num : ℕ
  pub f_seq_num : ℕ
  pub frag_type : ℕ
  pub user_data : List Packet

abbrev size_of_type : DataType → Sdu → ℕ
size_of_type sdu_complete_type s = s.size
size_of_type sdu_fragment_type s = s.f_size
size_of_type unset_type s = 0

-- `SDU::getSize`.
unfoldable pub get_size : Sdu → ℕ
get_size s = size_of_type s.data_type s

unfoldable pub new_sdu : Sdu
new_sdu = record {
  data_type = unset_type;
  size = 0;
  f_size = 0;
  f_offset = 0;
  seq_num = 0;
  f_seq_num = 0;
  frag_type = 0;
  user_data = [];
}

unfoldable pub add_user_data : Sdu → Packet → Sdu
add_user_data s m = record s {
  user_data = s.user_data ++ m ∷ [];
  size = u32 (s.size + m.byte_length);
}

-- The delimiting module's counter: `processMsgFromFAI` numbers an SDU by it.
pub record Delimiting : Type 0 where
  pub next_sdu_seq_num : ℕ

unfoldable pub new_delimiting : Delimiting
new_delimiting = record { next_sdu_seq_num = 1 }

-- The SDU that goes to the EFCP instance, and the module afterwards.
unfoldable pub process_msg_from_fai : Delimiting → Packet → Delimiting × Sdu
unfolding add_user_data new_sdu
process_msg_from_fai d m =
    let complete = record new_sdu { data_type = sdu_complete_type } in
    (d, record (add_user_data complete m) { seq_num = d.next_sdu_seq_num })

-- `SDU::setFragment` and `SDU::genFragment`.
set_fragment : Sdu → ℕ → ℕ → ℕ → Sdu
set_fragment s size f_seq f_off = record s {
  f_size = size;
  f_seq_num = f_seq;
  f_offset = f_off;
  data_type = sdu_fragment_type;
  frag_type =
      if f_seq == 0
      then sdu_frag_first
      else if u32 (size + f_off) == s.size
      then sdu_frag_last
      else sdu_frag_middle;
}

pub gen_fragment : Sdu → ℕ → ℕ → ℕ → Sdu
unfolding set_fragment
gen_fragment s size f_seq f_off = set_fragment s size f_seq f_off

-- The loop of `DTP::delimit` from `i` on; the products wrap as the code's do.
pub fragments_from : ℕ → Sdu → ℕ → ℕ → Result (List Sdu)
fragments_from zero s size i = err out_of_fuel
fragments_from (suc fuel) s size i = elim (ltb (u32 (i * size)) (get_size s)) [
  | true ↦ do
    rest ← fragments_from fuel s size (u32 (i + 1))
    ok (gen_fragment s size i (u32 (i * size)) ∷ rest)
  | false ↦ ok []
]

abbrev pub sdu_seq_num_present : ℕ
sdu_seq_num_present = 0x08

abbrev pub sdu_no_length : ℕ
sdu_no_length = 0x04

pub record UserDataField : Type 0 where
  pub pdu_data : List Sdu
  pub field_size : ℕ
  pub sdu_delimit_flags : ℕ
  pub sdu_seq_num : ℕ

unfoldable pub new_field : UserDataField
new_field = record { pdu_data = []; field_size = 0; sdu_delimit_flags = 0; sdu_seq_num = 0 }

-- Only the first SDU sets the field's number.
number_field : UserDataField → Sdu → UserDataField
number_field u s =
    if is_empty u.pdu_data
    then record u {
      sdu_seq_num = s.seq_num;
      sdu_delimit_flags = bit_or u.sdu_delimit_flags sdu_seq_num_present;
    }
    else u

unfoldable pub add_data : UserDataField → Sdu → UserDataField
unfolding number_field
add_data u s =
    let n = number_field u s in
    record n {
      pdu_data = n.pdu_data ++ s ∷ [];
      field_size = u32 (n.field_size + get_size s);
      sdu_delimit_flags = bit_or n.sdu_delimit_flags s.frag_type;
    }

abbrev take_first : UserDataField → List Sdu → Option (Sdu × UserDataField)
take_first u [] = none
take_first u (s ∷ rest) =
    some (s, record u { pdu_data = rest; field_size = sub32 u.field_size (get_size s) })

-- `UserDataField::getData`: the first SDU, which leaves the field.
unfoldable pub get_data : UserDataField → Option (Sdu × UserDataField)
get_data u = take_first u u.pdu_data
