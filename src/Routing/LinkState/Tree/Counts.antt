-- ===== src/Routing/LinkState/Tree/Counts.antt =====
-- A round of the loop of constructTree in src/policies/DIF/Routing/SimpleRouting/SimpleLS/SimpleLS.cc
-- leaves fewer nodes to add.
use Prim.Native.String.{String}
use rinasim.Base.{
  ℕ, zero, suc, ◌<◌, ◌≤◌, Bool, true, false, ◌≡◌, refl, ap, List, [], ◌∷◌, is_empty, length, keep,
  All, All-append, All-weaken, string_key, Map, member, ok, arith, Bool-cases, inl, inr, ◌⊎◌,
  same→eq, same_refl,
}
use rinasim.Routing.LinkState.Tree.Steps.{is_new, Waits, take-added, IsSearch, take-IsSearch}
use rinasim.Routing.LinkState.Tree.{
  uint16_max, PsT, TreeNode, Search, take, take_all, note, smallest, round, search_loop,
}

-- The names that are not added yet.
unfoldable pub left_over : List String → Search → ℕ
left_over known s = length (keep (is_new s.added) known)

keep-le :
    (p q : String → Bool) (xs : List String)
    → ((x : String) → q x ≡ true → p x ≡ true)
    → length (keep q xs) ≤ length (keep p xs)
keep-le p q [] h = omega arith
keep-le p q (x ∷ xs) h = ground (arith, h x, keep-le p q xs h)

keep-lt :
    (p q : String → Bool) (a : String) (xs : List String)
    → ((x : String) → q x ≡ true → p x ≡ true)
    → p a ≡ true
    → q a ≡ false
    → member a xs ≡ true
    → length (keep q xs) < length (keep p xs)
unfolding member
keep-lt p q a [] h y n m = ground (arith, m)
keep-lt p q a (x ∷ xs) h y n m = elim (Bool-cases (string_key.same a x)) [
  | inl e ↦ let same = same→eq a x e in ground (arith, y, n, ap p same, ap q same, keep-le p q xs h)
  | inr e ↦ ground (arith, m, e, h x, keep-lt p q a xs h y n)
]

take-new : (a x : String) (s : Search) → is_new (take a s).added x ≡ true → is_new s.added x ≡ true
take-new a x s h = ground (arith, take-added a x s, h)

take-left_over :
    (known : List String) (a : String) (s : Search) → left_over known (take a s) ≤ left_over known s
unfolding left_over
take-left_over known a s =
    keep-le (is_new s.added) (is_new (take a s).added) known (λ x. take-new a x s)

take-fewer :
    (known : List String) (a : String) (s : Search)
    → is_new s.added a ≡ true
    → member a known ≡ true
    → left_over known (take a s) < left_over known s
unfolding left_over
take-fewer known a s n m =
    keep-lt (is_new s.added) (is_new (take a s).added) a known (λ x. take-new a x s) n
      (ground (arith, take-added a a s, same_refl a)) m

take_all-IsSearch :
    (known mins : List String) (s : Search) → IsSearch known s → IsSearch known (take_all mins s)
unfolding take_all
take_all-IsSearch known [] s h = h
take_all-IsSearch known (a ∷ mins) s h =
    take-IsSearch known a (take_all mins s) (take_all-IsSearch known mins s h)

take_all-left_over :
    (known mins : List String) (s : Search) → left_over known (take_all mins s) ≤ left_over known s
unfolding take_all
take_all-left_over known [] s = omega arith
take_all-left_over known (a ∷ mins) s =
    omega (arith, take-left_over known a (take_all mins s), take_all-left_over known mins s)

-- A node to be added, which is new and whose name is counted.
IsFresh : List String → Search → String → Type 0
IsFresh known s a = (is_new s.added a ≡ true) × (member a known ≡ true)

take_all-fewer :
    (known mins : List String) (s : Search)
    → All (IsFresh known s) mins
    → is_empty mins ≡ false
    → left_over known (take_all mins s) < left_over known s
unfolding take_all IsFresh
take_all-fewer known [] s h e = ground (arith, e)
take_all-fewer known (a ∷ []) s h e = take-fewer known a s h.0.0 h.0.1
take_all-fewer known (a ∷ (b ∷ mins)) s h e = omega (
  arith,
  take-left_over known a (take_all (b ∷ mins) s),
  take_all-fewer known (b ∷ mins) s h.1 refl,
)

note_names :
    (P : String → Type 0) (a : String) (m : ℕ) (st : ℕ × List String)
    → P a
    → All P st.1
    → All P (note a m st).1
unfolding note
note_names P a m st p h = ground (arith, p, h, All-append P st.1 (a ∷ []) h (p, tt))

pub smallest_names :
    (P : String → Type 0) (w : Map String PsT) (st : ℕ × List String)
    → All (λ (e : String × PsT). P e.0) w
    → All P st.1
    → All P (smallest w st)
unfolding smallest
smallest_names P [] st h k = k
smallest_names P ((a, ps) ∷ w) st h k =
    smallest_names P w (note a ps.metric st) h.1 (note_names P a ps.metric st h.0 k)

-- There is a smallest one among the metrics so far, or all are as large as they get.
note_some :
    (a : String) (m : ℕ) (st : ℕ × List String)
    → (is_empty st.1 ≡ false) ⊎ (m ≤ st.0)
    → is_empty (note a m st).1 ≡ false
unfolding note
note_some a m (n, []) h = ground (arith, h)
note_some a m (n, (x ∷ xs)) h = ground (arith, h)

smallest_some :
    (w : Map String PsT) (st : ℕ × List String)
    → is_empty st.1 ≡ false
    → is_empty (smallest w st) ≡ false
unfolding smallest
smallest_some [] st h = h
smallest_some ((a, ps) ∷ w) st h =
    smallest_some w (note a ps.metric st) (note_some a ps.metric st (inl h))

first_some :
    (known : List String) (added : Map String TreeNode) (w : Map String PsT)
    → All (Waits known added) w
    → is_empty w ≡ false
    → is_empty (smallest w (uint16_max, [])) ≡ false
unfolding smallest Waits
first_some known added [] h e = ground (arith, e)
first_some known added ((a, ps) ∷ w) h e =
    smallest_some w (note a ps.metric (uint16_max, []))
      (note_some a ps.metric (uint16_max, []) (inr h.0.2))

round-fewer :
    (known : List String) (s : Search)
    → IsSearch known s
    → is_empty s.waiting ≡ false
    → left_over known (round s) < left_over known s
unfolding round Waits IsFresh
round-fewer known s h e =
    take_all-fewer known (smallest s.waiting (uint16_max, [])) s
      (smallest_names (IsFresh known s) s.waiting (uint16_max, [])
        (All-weaken (Waits known s.added) (λ (e : String × PsT). IsFresh known s e.0)
          (λ x w. (w.0, w.1)) s.waiting h.waits)
        tt)
      (first_some known s.added s.waiting h.waits e)

round-IsSearch : (known : List String) (s : Search) → IsSearch known s → IsSearch known (round s)
unfolding round
round-IsSearch known s h = take_all-IsSearch known (smallest s.waiting (uint16_max, [])) s h

-- The loop ends within as many rounds as there are names that are not added.
pub search_loop-ends :
    (known : List String) (n : ℕ) (s : Search)
    → IsSearch known s
    → left_over known s ≤ n
    → (t : Search) × (search_loop n s ≡ ok t) × (is_empty t.waiting ≡ true)
unfolding search_loop
search_loop-ends known zero s h b = elim (Bool-cases (is_empty s.waiting)) [
  | inl e ↦ (s, ground (arith, e), e)
  | inr e ↦ ground (arith, round-fewer known s h e, b)
]
search_loop-ends known (suc n) s h b = elim (Bool-cases (is_empty s.waiting)) [
  | inl e ↦ (s, ground (arith, e), e)
  | inr e ↦
      let r =
        search_loop-ends known n (round s) (round-IsSearch known s h)
          (omega (arith, round-fewer known s h e, b)) in
      (r.0, ground (arith, e, r.1), r.2)
]
