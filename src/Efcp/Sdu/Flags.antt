-- ===== src/Efcp/Sdu/Flags.antt =====
-- What a user data field holds after a run of `UserDataField::addData`.
use Prim.Native.Nat.{bit_and, bit_or}
use rinasim.Base.{
  ℕ, zero, suc, ◌+◌, ◌<◌, ◌≡◌, refl, List, [], ◌∷◌, ◌++◌, Bool, true, false, not, ◌&&◌, ◌||◌, ltb,
  ◌==◌, arith, All, u32, append-nil, append_assoc, sym, ◌∙◌, ap, u32_mod,
}
use rinasim.Efcp.Pdu.{has_flag}
use rinasim.Efcp.Sdu.{
  Sdu, UserDataField, new_field, add_data, number_field, get_size, sdu_no_length,
}

-- A run of `addData`.
abbrev pub add_all : UserDataField → List Sdu → UserDataField
add_all u [] = u
add_all u (s ∷ ss) = add_all (add_data u s) ss

-- The values of the enum `FragmentType`.
abbrev pub HasFragType : Sdu → Type 0
HasFragType s = s.frag_type < 3

abbrev pub total_size : List Sdu → ℕ
total_size [] = 0
total_size (s ∷ ss) = get_size s + total_size ss

abbrev clear_bit : ℕ → Bool
clear_bit f = bit_and f sdu_no_length == 0

-- The test on every number under a bound, from the largest down.
passes_under : (ℕ → Bool) → ℕ → Bool
passes_under test zero = true
passes_under test (suc top) = test top && passes_under test top

passes_at :
    (test : ℕ → Bool) (bound n : ℕ) → n < bound → passes_under test bound ≡ true → test n ≡ true
unfolding passes_under
passes_at test zero n small holds = absurd (omega arith)
passes_at test (suc top) n small holds = ground (arith, passes_at test top n)

-- Adding a bit other than `SDU_NO_LENGTH` to flags without it leaves such flags.
or_row : ℕ → ℕ → Bool
or_row f t =
    not (clear_bit f) || (not (clear_bit t) || (clear_bit (bit_or f t) && ltb (bit_or f t) 16))

or_table : passes_under (λ f. passes_under (or_row f) 16) 16 ≡ true
unfolding passes_under or_row
or_table = refl

or_clear :
    (f t : ℕ)
    → f < 16
    → t < 16
    → clear_bit f ≡ true
    → clear_bit t ≡ true
    → (clear_bit (bit_or f t) ≡ true) × (bit_or f t < 16)
unfolding or_row
or_clear f t h k cf ct =
    let row = passes_at (λ g. passes_under (or_row g) 16) 16 f h or_table in
    ground (arith, passes_at (or_row f) 16 t k row)

frag_clear : (t : ℕ) → t < 3 → clear_bit t ≡ true
frag_clear zero h = refl
frag_clear (suc zero) h = refl
frag_clear (suc (suc zero)) h = refl
frag_clear (suc (suc (suc t))) h = absurd (omega arith)

abbrev IsClear : UserDataField → Type 0
IsClear u = (clear_bit u.sdu_delimit_flags ≡ true) × (u.sdu_delimit_flags < 16)

number_field-IsClear : (u : UserDataField) (s : Sdu) → IsClear u → IsClear (number_field u s)
unfolding number_field
number_field-IsClear u s c = ground (arith, or_clear u.sdu_delimit_flags 8 c.1)

add_data-IsClear :
    (u : UserDataField) (s : Sdu) → IsClear u → HasFragType s → IsClear (add_data u s)
unfolding add_data
add_data-IsClear u s c h =
    let n = number_field-IsClear u s c in
    or_clear (number_field u s).sdu_delimit_flags s.frag_type n.1 (omega arith) n.0
      (frag_clear s.frag_type h)

add_all-IsClear :
    (u : UserDataField) (ss : List Sdu) → IsClear u → All HasFragType ss → IsClear (add_all u ss)
add_all-IsClear u [] c h = c
add_all-IsClear u (s ∷ ss) c h = add_all-IsClear (add_data u s) ss (add_data-IsClear u s c h.0) h.1

pub pdu_data-add_data :
    (u : UserDataField) (s : Sdu) → (add_data u s).pdu_data ≡ u.pdu_data ++ s ∷ []
unfolding add_data number_field
pdu_data-add_data u s = ground arith

pub field_size-add_data :
    (u : UserDataField) (s : Sdu) → (add_data u s).field_size ≡ u32 (u.field_size + get_size s)
unfolding add_data number_field
field_size-add_data u s = ground arith

pub pdu_data-add_all :
    (u : UserDataField) (ss : List Sdu) → (add_all u ss).pdu_data ≡ u.pdu_data ++ ss
pdu_data-add_all u [] = sym (append-nil u.pdu_data)
pdu_data-add_all u (s ∷ ss) =
    pdu_data-add_all (add_data u s) ss
    ∙ ap (λ l. l ++ ss) (pdu_data-add_data u s)
    ∙ append_assoc u.pdu_data (s ∷ []) ss

pub field_size-add_all :
    (u : UserDataField) (ss : List Sdu)
    → u.field_size < u32_mod
    → (add_all u ss).field_size ≡ u32 (u.field_size + total_size ss)
unfolding u32
field_size-add_all u [] h = omega arith
field_size-add_all u (s ∷ ss) h = omega (
  arith,
  field_size-add_data u s,
  field_size-add_all (add_data u s) ss (omega (arith, field_size-add_data u s)),
)

-- A field filled from empty with SDUs of the three fragment types holds them in their order, counts
-- their sizes together as a 32-bit word, and never says that lengths are missing.
add_all_lem :
    (ss : List Sdu)
    → All HasFragType ss
    → ((add_all new_field ss).pdu_data ≡ ss)
      × ((add_all new_field ss).field_size ≡ u32 (total_size ss))
      × (has_flag (add_all new_field ss).sdu_delimit_flags sdu_no_length ≡ false)
unfolding new_field has_flag u32
add_all_lem ss h = (
  pdu_data-add_all new_field ss,
  omega (arith, field_size-add_all new_field ss (omega arith)),
  ap not (add_all-IsClear new_field ss (refl, omega arith) h).0,
)
