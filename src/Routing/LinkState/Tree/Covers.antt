-- ===== src/Routing/LinkState/Tree/Covers.antt =====
-- The links of what is added lead to what is added or waits, in constructTree of
-- src/policies/DIF/Routing/SimpleRouting/SimpleLS/SimpleLS.cc.
use Prim.Native.String.{String}
use rinasim.Base.{
  ℕ, zero, suc, ◌+◌, Bool, true, false, ◌||◌, not, ◌≡◌, ap, sym, subst, ◌∙◌, none, some, List, [],
  ◌∷◌, is_empty, All, All-weaken, string_key, Map, lookup, at_key, ok, arith, Bool-cases,
  Option-cases, inl, inr, lookup-put, lookup-erase, same→eq, same_refl,
}
use rinasim.Routing.Distance.{u16}
use rinasim.Routing.LinkState.{LinksSt}
use rinasim.Routing.LinkState.Tree.Steps.{
  is_new, is_new-put, relax_all-ls, links_of-touch, take-added,
}
use rinasim.Routing.LinkState.Tree.{
  uint16_max, PsT, Search, no_ps, add_parent, links_of, relax, relax_all, settle, take, take_all,
  smallest, round, search_loop,
}

-- A node is in the tree, or waits.
unfoldable pub covered : Search → String → Bool
covered s d = not (is_new s.added d) || elim (lookup d s.waiting) [ none ↦ false | some e ↦ true ]

unfoldable pub Covers : Search → Map String ℕ → Type 0
Covers s links = All (λ (e : String × ℕ). covered s e.0 ≡ true) links

relax-covered :
    (par d x : String) (n : ℕ) (s : Search)
    → covered s x ≡ true
    → covered (relax par d n s) x ≡ true
unfolding relax covered
relax-covered par d x n s h = elim (Option-cases (lookup d s.added)) [
  | inr e ↦ ground (arith, e.1, h)
  | inl fresh ↦ elim (Option-cases (lookup d s.waiting)) [
    | inl e ↦
        let ps : PsT = record { p = par ∷ []; metric = u16 n } in
        ground (arith, fresh, e, h, lookup-put x d ps s.waiting)
    | inr e ↦ ground (arith, fresh, e.1, h, lookup-put x d (add_parent par (u16 n) e.0) s.waiting)
  ]
]

relax_own-covered : (par d : String) (n : ℕ) (s : Search) → covered (relax par d n s) d ≡ true
unfolding relax covered is_new
relax_own-covered par d n s = elim (Option-cases (lookup d s.added)) [
  | inr e ↦ ground (arith, e.1)
  | inl fresh ↦ elim (Option-cases (lookup d s.waiting)) [
    | inl e ↦
        let ps : PsT = record { p = par ∷ []; metric = u16 n } in
        ground (arith, fresh, e, lookup-put d d ps s.waiting, same_refl d)
    | inr e ↦
        ground
          (arith, fresh, e.1, lookup-put d d (add_parent par (u16 n) e.0) s.waiting, same_refl d)
  ]
]

relax_all-covered :
    (par x : String) (m : ℕ) (links : Map String ℕ) (s : Search)
    → covered s x ≡ true
    → covered (relax_all par m links s) x ≡ true
unfolding relax_all
relax_all-covered par x m [] s h = h
relax_all-covered par x m ((d, w) ∷ links) s h =
    relax_all-covered par x m links (relax par d (m + w) s) (relax-covered par d x (m + w) s h)

relax_all-Covers :
    (par : String) (m : ℕ) (links : Map String ℕ) (s : Search)
    → Covers (relax_all par m links s) links
unfolding relax_all Covers
relax_all-Covers par m [] s = tt
relax_all-Covers par m ((d, w) ∷ links) s = (
  relax_all-covered par d m links (relax par d (m + w) s) (relax_own-covered par d (m + w) s),
  unfold Covers in relax_all-Covers par m links (relax par d (m + w) s),
)

settle-covered :
    (a x : String) (ps : PsT) (s : Search) → covered s x ≡ true → covered (settle a ps s) x ≡ true
unfolding settle covered
settle-covered a x ps s h = ground (
  arith,
  h,
  is_new-put a x (record { node_metric = ps.metric; parents = ps.p }) s.added,
  lookup-erase x a s.waiting,
)

take-covered : (a x : String) (s : Search) → covered s x ≡ true → covered (take a s) x ≡ true
unfolding take
take-covered a x s h =
    let ps = at_key no_ps a s.waiting in
    relax_all-covered a x ps.metric (links_of a s.ls) (settle a ps s) (settle-covered a x ps s h)

take-Covers : (a : String) (s : Search) → Covers (take a s) (links_of a s.ls)
unfolding take
take-Covers a s =
    let ps = at_key no_ps a s.waiting in
    relax_all-Covers a ps.metric (links_of a s.ls) (settle a ps s)

take-links_of : (a x : String) (s : Search) → links_of x (take a s).ls ≡ links_of x s.ls
unfolding take settle
take-links_of a x s =
    let ps = at_key no_ps a s.waiting in
    ap (links_of x) (relax_all-ls a ps.metric (links_of a s.ls) (settle a ps s))
    ∙ links_of-touch a x s.ls

-- The links of each node of the tree lead to nodes that are in it or wait.
pub record IsSpread (my : String) (ls : LinksSt) (s : Search) : Type 0 where
  pub root : is_new s.added my ≡ false
  pub linked : (x : String) → links_of x s.ls ≡ links_of x ls
  pub spread : (x : String) → is_new s.added x ≡ false → Covers s (links_of x ls)

take-IsSpread :
    (my a : String) (ls : LinksSt) (s : Search) → IsSpread my ls s → IsSpread my ls (take a s)
unfolding Covers
take-IsSpread my a ls s h = record {
  root = ground (arith, h.root, take-added a my s);
  linked = λ x. take-links_of a x s ∙ h.linked x;
  spread = λ x n. elim (Bool-cases (string_key.same x a)) [
    | inl e ↦
        subst (Covers (take a s))
          (h.linked a ∙ ap (λ (y : String). links_of y ls) (sym (same→eq x a e))) (take-Covers a s)
    | inr e ↦
        All-weaken (λ (l : String × ℕ). covered s l.0 ≡ true)
          (λ (l : String × ℕ). covered (take a s) l.0 ≡ true) (λ l. take-covered a l.0 s)
          (links_of x ls) (h.spread x (ground (arith, n, e, take-added a x s)))
  ];
}

take_all-IsSpread :
    (my : String) (ls : LinksSt) (mins : List String) (s : Search)
    → IsSpread my ls s
    → IsSpread my ls (take_all mins s)
unfolding take_all
take_all-IsSpread my ls [] s h = h
take_all-IsSpread my ls (a ∷ mins) s h =
    take-IsSpread my a ls (take_all mins s) (take_all-IsSpread my ls mins s h)

pub search_loop-IsSpread :
    (my : String) (ls : LinksSt) (n : ℕ) (s t : Search)
    → IsSpread my ls s
    → search_loop n s ≡ ok t
    → IsSpread my ls t
unfolding search_loop round
search_loop-IsSpread my ls zero s t h e = elim (Bool-cases (is_empty s.waiting)) [
  | inl w ↦ subst (IsSpread my ls) (ground (arith, e, w)) h
  | inr w ↦ ground (arith, e, w)
]
search_loop-IsSpread my ls (suc n) s t h e = elim (Bool-cases (is_empty s.waiting)) [
  | inl w ↦ subst (IsSpread my ls) (ground (arith, e, w)) h
  | inr w ↦
      search_loop-IsSpread my ls n (round s) t
        (take_all-IsSpread my ls (smallest s.waiting (uint16_max, [])) s h) (ground (arith, e, w))
]
