-- ===== src/Routing/LinkState/Tree/Reaches.antt =====
-- What constructTree of src/policies/DIF/Routing/SimpleRouting/SimpleLS/SimpleLS.cc reaches.
use Prim.Native.String.{String}
use rinasim.Base.{
  ℕ, Bool, true, false, ◌||◌, not, ◌≡◌, ap, sym, subst, none, some, [], ◌∷◌, is_empty, length, All,
  All-weaken, string_key, Map, lookup, put, ok, arith, Bool-cases, inl, inr, lookup-put, same→eq,
  same_refl,
}
use rinasim.Routing.LinkState.{LinksSt}
use rinasim.Routing.LinkState.Tree.Ends.{IsPlain, construct_tree-ends}
use rinasim.Routing.LinkState.Tree.Steps.{is_new, links_of-touch}
use rinasim.Routing.LinkState.Tree.{
  PsT, Search, links_of, first_waiting, start, names, construct_tree,
}
use rinasim.Routing.LinkState.Tree.Hangs.{InTree}
use rinasim.Routing.LinkState.Tree.Parents.{search_loop-IsHung, start-IsHung}
use rinasim.Routing.LinkState.Tree.Covers.{covered, Covers, IsSpread, search_loop-IsSpread}

waits_for : String → Map String PsT → Bool
waits_for x w = elim (lookup x w) [ none ↦ false | some e ↦ true ]

first_waiting-kept :
    (my x : String) (links : Map String ℕ) (w : Map String PsT)
    → waits_for x w ≡ true
    → waits_for x (first_waiting my links w) ≡ true
unfolding first_waiting waits_for
first_waiting-kept my x [] w h = h
first_waiting-kept my x ((d, m) ∷ links) w h =
    let ps : PsT = record { p = my ∷ []; metric = m } in
    first_waiting-kept my x links (put d ps w) (ground (arith, h, lookup-put x d ps w))

first_waiting-All :
    (my : String) (links : Map String ℕ) (w : Map String PsT)
    → All (λ (e : String × ℕ). waits_for e.0 (first_waiting my links w) ≡ true) links
unfolding first_waiting
first_waiting-All my [] w = tt
first_waiting-All my ((d, m) ∷ links) w =
    let ps : PsT = record { p = my ∷ []; metric = m } in
    (
      first_waiting-kept my d links (put d ps w)
          (unfold waits_for in ground (arith, lookup-put d d ps w, same_refl d)),
      first_waiting-All my links (put d ps w),
    )

start-Covers : (my : String) (ls : LinksSt) → Covers (start my ls) (links_of my ls)
unfolding Covers start
start-Covers my ls =
    All-weaken (λ (e : String × ℕ). waits_for e.0 (first_waiting my (links_of my ls) []) ≡ true)
      (λ (e : String × ℕ). covered (start my ls) e.0 ≡ true)
      (λ e h. unfold waits_for covered start in ground (arith, h)) (links_of my ls)
      (first_waiting-All my (links_of my ls) [])

start-IsSpread : (my : String) (ls : LinksSt) → IsSpread my ls (start my ls)
unfolding start is_new lookup
start-IsSpread my ls = record {
  root = ground (arith, same_refl my);
  linked = λ x. links_of-touch my x ls;
  spread = λ x n. elim (Bool-cases (string_key.same x my)) [
    | inl e ↦
        subst (Covers (start my ls)) (ap (λ (y : String). links_of y ls) (sym (same→eq x my e)))
          (start-Covers my ls)
    | inr e ↦ ground (arith, n, e)
  ];
}

-- The process itself, and those that a link leads to from one that is reached.
pub data Reach (my : String) (ls : LinksSt) : String → Type 0 where
  itself : (x : String) → x ≡ my → Reach my ls x
  further :
      (x d : String) (w : ℕ) → Reach my ls x → lookup d (links_of x ls) ≡ some w → Reach my ls d

linked_covered :
    (s : Search) (d : String) (w : ℕ) (links : Map String ℕ)
    → Covers s links
    → lookup d links ≡ some w
    → covered s d ≡ true
unfolding Covers lookup
linked_covered s d w [] h e = ground (arith, e)
linked_covered s d w ((k, m) ∷ links) h e = elim (Bool-cases (string_key.same d k)) [
  | inl same ↦ subst (λ (y : String). covered s y ≡ true) (sym (same→eq d k same)) h.0
  | inr other ↦ linked_covered s d w links (unfold Covers in h.1) (ground (arith, e, other))
]

covered-added :
    (s : Search) (d : String)
    → is_empty s.waiting ≡ true
    → covered s d ≡ true
    → is_new s.added d ≡ false
unfolding covered lookup
covered-added s d e h =
    elim (s.waiting)
        as (λ w.
          is_empty w ≡ true
          → (not (is_new s.added d) || elim (lookup d w) [ none ↦ false | some e ↦ true ]) ≡ true
          → is_new s.added d ≡ false) [
            | [] ↦ λ x y. ground (arith, y)
            | p ∷ w ↦ λ x y. ground (arith, x)
          ]
      e h

reached :
    (my : String) (ls : LinksSt) (t : Search)
    → IsSpread my ls t
    → is_empty t.waiting ≡ true
    → (x : String) → Reach my ls x
    → is_new t.added x ≡ false
reached my ls t h e _ (itself x s) = rw s (h.root)
reached my ls t h e _ (further x d w r l) =
    covered-added t d e
      (linked_covered t d w (links_of x ls) (h.spread x (reached my ls t h e x r)) l)

-- Where the process has no link to itself and its metrics have 16 bits, constructTree ends, within as
-- many rounds as the links have names, and each process that links lead to, over any number of
-- others, is in the tree: it is the process itself, or one of the parents that its node has is in the
-- tree.
pub construct_tree-Reach :
    (my : String) (ls : LinksSt)
    → IsPlain my (links_of my ls)
    → (t : Search) × (construct_tree my ls ≡ ok t)
      × ((x : String) → Reach my ls x → InTree my t.added x)
unfolding construct_tree
construct_tree-Reach my ls p =
    let r = construct_tree-ends my ls p in
    let n = length (names ls) in
    let spread = search_loop-IsSpread my ls n (start my ls) r.0 (start-IsSpread my ls) r.1 in
    let h = search_loop-IsHung my n (start my ls) r.0 (start-IsHung my ls p) r.1 in
    (r.0, r.1, λ x reach. h.hung x (reached my ls r.0 spread r.2 x reach))
