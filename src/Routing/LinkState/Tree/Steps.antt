-- ===== src/Routing/LinkState/Tree/Steps.antt =====
-- One node of the search of src/policies/DIF/Routing/SimpleRouting/SimpleLS/SimpleLS.cc.
use Prim.Native.String.{String}
use rinasim.Base.{
  ℕ, ◌+◌, ◌≤◌, Bool, true, false, ◌&&◌, not, ◌≡◌, refl, ap, ◌∙◌, none, some, List, [], ◌∷◌, All,
  string_key, Map, lookup, put, erase, at_key, or_default, member, arith, Bool-cases, Option-cases,
  inl, inr, lookup-put, same→eq, same_refl, insert_new,
}
use rinasim.Routing.Distance.{u16}
use rinasim.Routing.LinkState.{no_links, LinksSt}
use rinasim.Routing.LinkState.Tree.{
  uint16_max, PsT, TreeNode, Search, no_ps, add_parent, links_of, touch, relax, relax_all, settle,
  take,
}

unfoldable pub is_new : Map String TreeNode → String → Bool
is_new added a = elim (lookup a added) [ none ↦ true | some n ↦ false ]

-- What waits is new, has a name that is counted, and a metric of 16 bits.
unfoldable pub Waits : List String → Map String TreeNode → String × PsT → Type 0
Waits known added e =
    (is_new added e.0 ≡ true) × (member e.0 known ≡ true) × (e.1.metric ≤ uint16_max)

AllWait : List String → Search → Type 0
AllWait known s = All (Waits known s.added) s.waiting

module _ (P : String × PsT → Type 0) where
  All-erase : (a : String) (w : Map String PsT) → All P w → All P (erase a w)
  unfolding erase
  All-erase a [] h = h
  All-erase a ((k, v) ∷ w) h = ground (arith, h.0, All-erase a w h.1)

  All-insert_new :
      (a : String) (v : PsT) (w : Map String PsT) → P (a, v) → All P w → All P (insert_new a v w)
  unfolding insert_new
  All-insert_new a v [] p h = (p, h)
  All-insert_new a v ((k, u) ∷ w) p h = ground (arith, p, h.0, h.1, All-insert_new a v w p h.1)

  pub All-put : (a : String) (v : PsT) (w : Map String PsT) → P (a, v) → All P w → All P (put a v w)
  unfolding put
  All-put a v w p h = All-insert_new a v (erase a w) p (All-erase a w h)

  All-lookup :
      (a : String) (v : PsT) (w : Map String PsT) → All P w → lookup a w ≡ some v → P (a, v)
  unfolding lookup
  All-lookup a v [] h e = ground (arith, e)
  All-lookup a v ((k, u) ∷ w) h e = ground (arith, e, h.0, All-lookup a v w h.1, same→eq a k)

add_parent-metric :
    (par : String) (m : ℕ) (ps : PsT)
    → m ≤ uint16_max
    → ps.metric ≤ uint16_max
    → (add_parent par m ps).metric ≤ uint16_max
unfolding add_parent
add_parent-metric par m ps h k = ground (arith, h, k)

u16_small : (n : ℕ) → u16 n ≤ uint16_max
unfolding u16
u16_small n = omega arith

pub relax-added : (par d : String) (n : ℕ) (s : Search) → (relax par d n s).added ≡ s.added
unfolding relax
relax-added par d n s = ground arith

relax-AllWait :
    (known : List String) (par d : String) (n : ℕ) (s : Search)
    → member d known ≡ true
    → AllWait known s
    → AllWait known (relax par d n s)
unfolding relax AllWait Waits is_new
relax-AllWait known par d n s b h = elim (Option-cases (lookup d s.added)) [
  | inr e ↦ ground (arith, e.1, h)
  | inl fresh ↦ elim (Option-cases (lookup d s.waiting)) [
    | inl e ↦
        let ps : PsT = record { p = par ∷ []; metric = u16 n } in
        let new : Waits known s.added (d, ps) = (ground (arith, fresh), b, u16_small n) in
        ground (arith, fresh, e, All-put (Waits known s.added) d ps s.waiting new h)
    | inr e ↦
        let old = All-lookup (Waits known s.added) d e.0 s.waiting h e.1 in
        let ps = add_parent par (u16 n) e.0 in
        let new : Waits known s.added (d, ps) =
          (ground (arith, fresh), b, add_parent-metric par (u16 n) e.0 (u16_small n) old.2) in
        ground (arith, fresh, e.1, h, All-put (Waits known s.added) d ps s.waiting new h)
  ]
]

-- The links that a node has lead to names that are counted.
Leads : List String → Map String ℕ → Type 0
Leads known links = All (λ (e : String × ℕ). member e.0 known ≡ true) links

pub relax_all-added :
    (par : String) (m : ℕ) (links : Map String ℕ) (s : Search)
    → (relax_all par m links s).added ≡ s.added
unfolding relax_all
relax_all-added par m [] s = refl
relax_all-added par m ((d, w) ∷ links) s =
    relax_all-added par m links (relax par d (m + w) s) ∙ relax-added par d (m + w) s

relax-ls : (par d : String) (n : ℕ) (s : Search) → (relax par d n s).ls ≡ s.ls
unfolding relax
relax-ls par d n s = ground arith

pub relax_all-ls :
    (par : String) (m : ℕ) (links : Map String ℕ) (s : Search) → (relax_all par m links s).ls ≡ s.ls
unfolding relax_all
relax_all-ls par m [] s = refl
relax_all-ls par m ((d, w) ∷ links) s =
    relax_all-ls par m links (relax par d (m + w) s) ∙ relax-ls par d (m + w) s

relax_all-AllWait :
    (known : List String) (par : String) (m : ℕ) (links : Map String ℕ) (s : Search)
    → Leads known links
    → AllWait known s
    → AllWait known (relax_all par m links s)
unfolding relax_all Leads
relax_all-AllWait known par m [] s l h = h
relax_all-AllWait known par m ((d, w) ∷ links) s l h =
    relax_all-AllWait known par m links (relax par d (m + w) s) l.1
      (relax-AllWait known par d (m + w) s l.0 h)

pub is_new-put :
    (a b : String) (n : TreeNode) (added : Map String TreeNode)
    → is_new (put a n added) b ≡ (not (string_key.same b a) && is_new added b)
unfolding is_new
is_new-put a b n added = ground (arith, lookup-put b a n added)

-- Once a node is added, it waits no more, and the others still do.
settle-Waits :
    (known : List String) (a : String) (n : TreeNode) (added : Map String TreeNode)
    (w : Map String PsT)
    → All (Waits known added) w
    → All (Waits known (put a n added)) (erase a w)
unfolding erase Waits
settle-Waits known a n added [] h = h
settle-Waits known a n added ((k, v) ∷ w) h = ground (
  arith,
  h.0,
  h.1,
  settle-Waits known a n added w h.1,
  is_new-put a k n added,
  same→eq a k,
  same→eq k a,
  same_refl a,
)

settle-AllWait :
    (known : List String) (a : String) (ps : PsT) (s : Search)
    → AllWait known s
    → AllWait known (settle a ps s)
unfolding settle AllWait
settle-AllWait known a ps s h =
    settle-Waits known a (record { node_metric = ps.metric; parents = ps.p }) s.added s.waiting h

-- `operator[]` changes no links.
pub links_of-touch : (a b : String) (ls : LinksSt) → links_of b (touch a ls) ≡ links_of b ls
unfolding links_of touch at_key or_default
links_of-touch a b ls = elim (Bool-cases (string_key.same b a)) [
  | inl e ↦
      let there = lookup-put b a (or_default no_links (lookup a ls)) ls in
      ground (arith, there, e, ap (λ (x : String). lookup x ls) (same→eq b a e))
  | inr e ↦ ground (arith, lookup-put b a (or_default no_links (lookup a ls)) ls, e)
]

LeadsAll : List String → LinksSt → Type 0
LeadsAll known ls = (a : String) → Leads known (links_of a ls)

take-AllWait :
    (known : List String) (a : String) (s : Search)
    → LeadsAll known s.ls
    → AllWait known s
    → AllWait known (take a s)
unfolding take LeadsAll
take-AllWait known a s l h =
    let ps = at_key no_ps a s.waiting in
    relax_all-AllWait known a ps.metric (links_of a s.ls) (settle a ps s) (l a)
      (settle-AllWait known a ps s h)

pub take-added :
    (a b : String) (s : Search)
    → is_new (take a s).added b ≡ (not (string_key.same b a) && is_new s.added b)
unfolding take settle
take-added a b s =
    let ps = at_key no_ps a s.waiting in
    ap (λ (x : Map String TreeNode). is_new x b)
      (relax_all-added a ps.metric (links_of a s.ls) (settle a ps s))
    ∙ is_new-put a b (record { node_metric = ps.metric; parents = ps.p }) s.added

take-LeadsAll :
    (known : List String) (a : String) (s : Search)
    → LeadsAll known s.ls
    → LeadsAll known (take a s).ls
unfolding LeadsAll take settle
take-LeadsAll known a s l b =
    let ps = at_key no_ps a s.waiting in
    rw (relax_all-ls a ps.metric (links_of a s.ls) (settle a ps s))
      (rw (links_of-touch a b s.ls) (l b))

-- What holds of the search between two nodes.
pub record IsSearch (known : List String) (s : Search) : Type 0 where
  pub waits : All (Waits known s.added) s.waiting
  pub leads : (a : String) → All (λ (e : String × ℕ). member e.0 known ≡ true) (links_of a s.ls)

pub take-IsSearch :
    (known : List String) (a : String) (s : Search) → IsSearch known s → IsSearch known (take a s)
unfolding AllWait LeadsAll Leads
take-IsSearch known a s h = record {
  waits = take-AllWait known a s h.leads h.waits;
  leads = take-LeadsAll known a s h.leads;
}
