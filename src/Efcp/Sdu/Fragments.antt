-- ===== src/Efcp/Sdu/Fragments.antt =====
-- The fragments that `DTP::delimit` cuts an SDU into.
use rinasim.Base.{
  ℕ, zero, suc, ◌+◌, ◌*◌, ◌<◌, ◌≤◌, ◌≡◌, ◌≢◌, List, [], ◌∷◌, ok, arith, All, u32_small, u32_mod,
}
use rinasim.Efcp.Sdu.{Sdu, get_size, fragments_from, gen_fragment, sdu_frag_last}

-- `n` fragments from the `i`-th on, at consecutive multiples of the size.
abbrev pub fragment_run : Sdu → ℕ → ℕ → ℕ → List Sdu
fragment_run s size i zero = []
fragment_run s size i (suc n) = gen_fragment s size i (i * size) ∷ fragment_run s size (i + 1) n

pub le-mul : (i size : ℕ) → 0 < size → i ≤ i * size
le-mul i size p = grind arith

-- The loop gives as many fragments as are needed to cover the SDU, one size apart.
pub fragments_from_lem :
    (fuel n i : ℕ) (s : Sdu) (size : ℕ)
    → n < fuel
    → 0 < size
    → (0 < n → (i + n) * size < get_size s + size)
    → get_size s ≤ (i + n) * size
    → (i + n + 1) * size < u32_mod
    → fragments_from fuel s size i ≡ ok (fragment_run s size i n)
unfolding fragments_from
fragments_from_lem zero n i s size f p a b c = absurd (omega arith)
fragments_from_lem (suc fuel) zero i s size f p a b c =
    ground (arith, u32_small (i * size) (omega arith))
fragments_from_lem (suc fuel) (suc n) i s size f p a b c =
    let below = a (omega arith) in
    ground (
      arith,
      u32_small (i * size) (omega arith),
      u32_small (i + 1) (omega (arith, le-mul (i + 1) size p)),
      fragments_from_lem fuel n (i + 1) s size (omega arith) p (λ _. omega arith) (omega arith)
          (omega arith),
    )

untagged :
    (s : Sdu) (size i : ℕ)
    → s.size ≢ (i + 1) * size
    → (i + 1) * size < u32_mod
    → (gen_fragment s size i (i * size)).frag_type ≢ sdu_frag_last
unfolding gen_fragment
untagged s size i h b = ground (arith, u32_small (size + i * size) (omega arith))

-- An SDU whose size is no multiple of the fragments' has no fragment that is tagged as its last.
last_only_at_end :
    (s : Sdu) (size i n : ℕ)
    → ((k : ℕ) → s.size ≢ k * size)
    → (i + n + 1) * size < u32_mod
    → All (λ f. f.frag_type ≢ sdu_frag_last) (fragment_run s size i n)
unfolding gen_fragment
last_only_at_end s size i zero h b = tt
last_only_at_end s size i (suc n) h b =
    (untagged s size i (h (i + 1)) (omega arith), last_only_at_end s size (i + 1) n h (omega arith))
