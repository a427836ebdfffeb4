-- ===== src/Routing/LinkState/Tree/Parents.antt =====
-- The rounds of constructTree in src/policies/DIF/Routing/SimpleRouting/SimpleLS/SimpleLS.cc: each
-- node that one takes still waits, so that it has a parent.
use Prim.Native.String.{String}
use rinasim.Base.{
  ℕ, zero, suc, ◌+◌, Bool, true, false, ◌||◌, not, ◌≡◌, refl, subst, none, some, List, [], ◌∷◌,
  ◌++◌, is_empty, All, All-weaken, All-append, string_key, Map, IsMap, lookup, put, at_key,
  or_default, member, arith, Bool-cases, Option-cases, inl, inr, ltb, ◌==◌, lookup-put,
  lookup-erase, same→eq, same_refl, ok,
}
use rinasim.Routing.Distance.{u16}
use rinasim.Routing.LinkState.{LinksSt}
use rinasim.Routing.LinkState.Tree.Steps.{is_new, is_new-put}
use rinasim.Routing.LinkState.Tree.Counts.{smallest_names}
use rinasim.Routing.LinkState.Tree.Ends.{IsPlain}
use rinasim.Routing.LinkState.Tree.Hangs.{
  root, IsHung, wait-IsHung, relax_all-IsHung, settle-IsHung,
}
use rinasim.Routing.LinkState.Tree.{
  uint16_max, PsT, Search, no_ps, links_of, touch, relax, relax_all, settle, take, add_parent,
  take_all, note, smallest, round, search_loop, first_waiting, start,
}

unfoldable is_waiting : Map String PsT → String → Bool
is_waiting w x = elim (lookup x w) [ none ↦ false | some e ↦ true ]

waiting_entry :
    (w : Map String PsT) (x : String) → is_waiting w x ≡ true → (e : PsT) × (lookup x w ≡ some e)
unfolding is_waiting
waiting_entry w x h = elim (Option-cases (lookup x w)) [
  | inl n ↦ absurd (ground (arith, n, h))
  | inr e ↦ e
]

relax-waiting :
    (par d : String) (n : ℕ) (s : Search) (x : String)
    → is_waiting s.waiting x ≡ true
    → is_waiting (relax par d n s).waiting x ≡ true
unfolding relax is_waiting
relax-waiting par d n s x h = elim (Option-cases (lookup d s.added)) [
  | inr e ↦ ground (arith, e.1, h)
  | inl fresh ↦ elim (Option-cases (lookup d s.waiting)) [
    | inl e ↦
        ground
          (arith, fresh, e, h, lookup-put x d (record { p = par ∷ []; metric = u16 n }) s.waiting)
    | inr e ↦ ground (arith, fresh, e.1, h, lookup-put x d (add_parent par (u16 n) e.0) s.waiting)
  ]
]

relax_all-waiting :
    (par : String) (m : ℕ) (links : Map String ℕ) (s : Search) (x : String)
    → is_waiting s.waiting x ≡ true
    → is_waiting (relax_all par m links s).waiting x ≡ true
unfolding relax_all
relax_all-waiting par m [] s x h = h
relax_all-waiting par m ((d, w) ∷ links) s x h =
    relax_all-waiting par m links (relax par d (m + w) s) x (relax-waiting par d (m + w) s x h)

-- To take one node leaves the others waiting.
take-waiting :
    (a : String) (s : Search) (x : String)
    → string_key.same x a ≡ false
    → is_waiting s.waiting x ≡ true
    → is_waiting (take a s).waiting x ≡ true
unfolding take
take-waiting a s x d h =
    let ps = at_key no_ps a s.waiting in
    relax_all-waiting a ps.metric (links_of a s.ls) (settle a ps s) x
      (unfold settle is_waiting in ground (arith, d, h, lookup-erase x a s.waiting))

take-IsHung :
    (my a : String) (s : Search)
    → is_waiting s.waiting a ≡ true
    → IsHung my s
    → IsHung my (take a s)
unfolding take
take-IsHung my a s w h =
    let e = waiting_entry s.waiting a w in
    let ps = at_key no_ps a s.waiting in
    let here : lookup a s.waiting ≡ some ps = unfold at_key or_default in ground (arith, e.1) in
    relax_all-IsHung my a ps.metric (links_of a s.ls) (settle a ps s)
      (unfold settle in
        ground (
          arith,
          same_refl a,
          is_new-put a a (record { node_metric = ps.metric; parents = ps.p }) s.added,
        ))
      (settle-IsHung my a ps s here h)

-- No name stands twice in the list.
abbrev Distinct : List String → Type 0
Distinct [] = Unit
Distinct (x ∷ xs) = (member x xs ≡ false) × Distinct xs

take_all-waiting :
    (mins : List String) (s : Search) (x : String)
    → member x mins ≡ false
    → is_waiting s.waiting x ≡ true
    → is_waiting (take_all mins s).waiting x ≡ true
unfolding take_all member
take_all-waiting [] s x d h = h
take_all-waiting (a ∷ mins) s x d h =
    take-waiting a (take_all mins s) x (ground (arith, d))
      (take_all-waiting mins s x (ground (arith, d)) h)

take_all-IsHung :
    (my : String) (mins : List String) (s : Search)
    → Distinct mins
    → All (λ (x : String). is_waiting s.waiting x ≡ true) mins
    → IsHung my s
    → IsHung my (take_all mins s)
unfolding take_all
take_all-IsHung my [] s d w h = h
take_all-IsHung my (a ∷ mins) s d w h =
    take-IsHung my a (take_all mins s) (take_all-waiting mins s a d.0 w.0)
      (take_all-IsHung my mins s d.1 w.1 h)

member-snoc :
    (x : String) (xs : List String) (a : String)
    → member x (xs ++ (a ∷ [])) ≡ (member x xs || string_key.same x a)
unfolding member
member-snoc x [] a = ground arith
member-snoc x (y ∷ xs) a = ground (arith, member-snoc x xs a)

Distinct-snoc :
    (xs : List String) (a : String)
    → Distinct xs
    → All (λ (x : String). string_key.same x a ≡ false) xs
    → Distinct (xs ++ (a ∷ []))
unfolding member
Distinct-snoc [] a d h = (refl, tt)
Distinct-snoc (x ∷ xs) a d h =
    (ground (arith, member-snoc x xs a, d.0, h.0), Distinct-snoc xs a d.1 h.1)

-- What the search for the smallest has noted does not wait behind it, and stands there once.
record IsNoted (w : Map String PsT) (xs : List String) : Type 0 where
  distinct : Distinct xs
  behind : All (λ (x : String). lookup x w ≡ none) xs

note-IsNoted :
    (a : String) (ps : PsT) (w : Map String PsT) (st : ℕ × List String)
    → lookup a w ≡ none
    → IsNoted ((a, ps) ∷ w) st.1
    → IsNoted w (note a ps.metric st).1
unfolding note
note-IsNoted a ps w (m, xs) n h =
    let differ =
      All-weaken (λ (x : String). lookup x ((a, ps) ∷ w) ≡ none)
        (λ (x : String). string_key.same x a ≡ false) (λ x l. unfold lookup in ground (arith, l)) xs
        h.behind in
    let later =
      All-weaken (λ (x : String). lookup x ((a, ps) ∷ w) ≡ none) (λ (x : String). lookup x w ≡ none)
        (λ x l. unfold lookup in ground (arith, l)) xs h.behind in
    let alone : IsNoted w (a ∷ []) = record {
      distinct = (unfold member in refl, tt);
      behind = (n, tt);
    } in
    let more : IsNoted w (xs ++ (a ∷ [])) = record {
      distinct = Distinct-snoc xs a h.distinct differ;
      behind = All-append (λ (x : String). lookup x w ≡ none) xs (a ∷ []) later (n, tt);
    } in
    let as_before : IsNoted w xs = record { distinct = h.distinct; behind = later } in
    elim (Bool-cases (ltb ps.metric m)) [
      | inl less ↦ subst (IsNoted w) (ground (arith, less)) alone
      | inr l ↦ elim (Bool-cases (ps.metric == m)) [
        | inl e ↦ subst (IsNoted w) (ground (arith, l, e)) more
        | inr e ↦ subst (IsNoted w) (ground (arith, l, e)) as_before
      ]
    ]

smallest-Distinct :
    (w : Map String PsT) (st : ℕ × List String)
    → IsMap w
    → IsNoted w st.1
    → Distinct (smallest w st)
unfolding smallest IsMap
smallest-Distinct [] st k h = h.distinct
smallest-Distinct ((a, ps) ∷ w) st k h =
    smallest-Distinct w (note a ps.metric st) k.1 (note-IsNoted a ps w st k.0 h)

waits_itself : (w : Map String PsT) → All (λ (e : String × PsT). is_waiting w e.0 ≡ true) w
unfolding is_waiting lookup
waits_itself [] = tt
waits_itself ((a, ps) ∷ w) = (
  ground (arith, same_refl a),
  All-weaken (λ (e : String × PsT). is_waiting w e.0 ≡ true)
      (λ (e : String × PsT). is_waiting ((a, ps) ∷ w) e.0 ≡ true)
      (λ e h. unfold is_waiting lookup in ground (arith, h)) w (waits_itself w),
)

round-IsHung : (my : String) (s : Search) → IsHung my s → IsHung my (round s)
unfolding round
round-IsHung my s h =
    take_all-IsHung my (smallest s.waiting (uint16_max, [])) s
      (smallest-Distinct s.waiting (uint16_max, []) h.keyed (record { distinct = tt; behind = tt }))
      (smallest_names (λ x. is_waiting s.waiting x ≡ true) s.waiting (uint16_max, [])
        (waits_itself s.waiting) tt)
      h

pub search_loop-IsHung :
    (my : String) (n : ℕ) (s t : Search) → IsHung my s → search_loop n s ≡ ok t → IsHung my t
unfolding search_loop
search_loop-IsHung my zero s t h e = elim (Bool-cases (is_empty s.waiting)) [
  | inl w ↦ subst (IsHung my) (ground (arith, e, w)) h
  | inr w ↦ ground (arith, e, w)
]
search_loop-IsHung my (suc n) s t h e = elim (Bool-cases (is_empty s.waiting)) [
  | inl w ↦ subst (IsHung my) (ground (arith, e, w)) h
  | inr w ↦ search_loop-IsHung my n (round s) t (round-IsHung my s h) (ground (arith, e, w))
]

first_waiting-IsHung :
    (my : String) (links : Map String ℕ) (s : Search)
    → IsPlain my links
    → ((x : String) → is_new s.added x ≡ not (string_key.same x my))
    → IsHung my s
    → IsHung my (record s { waiting = first_waiting my links s.waiting })
unfolding first_waiting IsPlain
first_waiting-IsHung my [] s p n h = h
first_waiting-IsHung my ((d, m) ∷ links) s p n h =
    let ps : PsT = record { p = my ∷ []; metric = m } in
    first_waiting-IsHung my links (record s { waiting = put d ps s.waiting }) p.1 n
      (wait-IsHung my d ps s (ground (arith, n d, p.0.0))
        (my, unfold member in ground (arith, same_refl my), ground (arith, n my, same_refl my)) h)

-- At the start only the process itself is in the tree, and what its links lead to waits.
pub start-IsHung :
    (my : String) (ls : LinksSt) → IsPlain my (links_of my ls) → IsHung my (start my ls)
unfolding start
start-IsHung my ls p =
    let s : Search = record {
      ls = touch my ls;
      added = (my, record { node_metric = 0; parents = [] }) ∷ [];
      waiting = [];
    } in
    let only : (x : String) → is_new s.added x ≡ not (string_key.same x my) =
      λ x. unfold is_new lookup in ground arith in
    first_waiting-IsHung my (links_of my ls) s p only (record {
      hung = λ x h. root x (same→eq x my (ground (arith, only x, h)));
      pending = λ x e l. unfold lookup in ground (arith, l);
      fresh = λ x e l. unfold lookup in ground (arith, l);
      keyed = unfold IsMap in tt;
    })
