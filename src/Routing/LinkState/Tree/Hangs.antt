-- ===== src/Routing/LinkState/Tree/Hangs.antt =====
-- How constructTree of src/policies/DIF/Routing/SimpleRouting/SimpleLS/SimpleLS.cc hangs what it adds
-- below the process.
use Prim.Native.String.{String}
use rinasim.Base.{
  ℕ, ◌+◌, true, false, ◌≡◌, sym, subst, some, [], ◌∷◌, ltb, leb, ◌==◌, string_key, Map, IsMap,
  lookup, put, erase, member, member-add, arith, Bool-cases, Option-cases, inl, inr, lookup-put,
  lookup-erase, erase-IsMap, put-IsMap, same→eq, same_refl,
}
use rinasim.Routing.Distance.{u16}
use rinasim.Routing.LinkState.Tree.Steps.{is_new, is_new-put, relax-added}
use rinasim.Routing.LinkState.Tree.{PsT, TreeNode, Search, add_parent, relax, relax_all, settle}

-- The process is the root; another node is in the tree where one of its parents is.
pub data InTree (my : String) (added : Map String TreeNode) : String → Type 0 where
  root : (x : String) → x ≡ my → InTree my added x
  child :
      (x p : String) (n : TreeNode)
      → lookup x added ≡ some n
      → member p n.parents ≡ true
      → InTree my added p
      → InTree my added x

-- A node that waits has a parent among the added ones.
abbrev pub HasParent : Map String TreeNode → PsT → Type 0
HasParent added e = (p : String) × (member p e.p ≡ true) × (is_new added p ≡ false)

pub record IsHung (my : String) (s : Search) : Type 0 where
  pub hung : (x : String) → is_new s.added x ≡ false → InTree my s.added x
  pub pending : (x : String) (e : PsT) → lookup x s.waiting ≡ some e → HasParent s.added e
  pub fresh : (x : String) (e : PsT) → lookup x s.waiting ≡ some e → is_new s.added x ≡ true
  pub keyed : IsMap s.waiting

other_name :
    (a x : String) (m : TreeNode) (added : Map String TreeNode)
    → is_new added a ≡ true
    → lookup x added ≡ some m
    → string_key.same x a ≡ false
unfolding is_new
other_name a x m added f l = elim (Bool-cases (string_key.same x a)) [
  | inl e ↦
      let here : lookup a added ≡ some m = subst (λ y. lookup y added ≡ some m) (same→eq x a e) l in
      ground (arith, here, f)
  | inr e ↦ e
]

InTree-put :
    (my a : String) (n : TreeNode) (added : Map String TreeNode) (x : String)
    → is_new added a ≡ true
    → InTree my added x
    → InTree my (put a n added) x
InTree-put my a n added x f (root _ e) = root x e
InTree-put my a n added x f (child _ p m l k h) =
    child x p m (ground (arith, l, lookup-put x a n added, other_name a x m added f l)) k
      (InTree-put my a n added p f h)

add_parent-HasParent :
    (added : Map String TreeNode) (par : String) (m : ℕ) (e : PsT)
    → is_new added par ≡ false
    → HasParent added e
    → HasParent added (add_parent par m e)
unfolding add_parent member
add_parent-HasParent added par m e n h = elim (Bool-cases (ltb m e.metric)) [
  | inl less ↦ (par, ground (arith, less, member-add par par [], same_refl par), n)
  | inr more ↦ elim (Bool-cases (e.metric == m)) [
    | inl same ↦ (par, ground (arith, more, same, member-add par par e.p, same_refl par), n)
    | inr other ↦ (h.0, ground (arith, more, other, h.1), h.2)
  ]
]

pub wait-IsHung :
    (my d : String) (ps : PsT) (s : Search)
    → is_new s.added d ≡ true
    → HasParent s.added ps
    → IsHung my s
    → IsHung my (record s { waiting = put d ps s.waiting })
wait-IsHung my d ps s f q h = record {
  hung = h.hung;
  pending = λ x e l. elim (Bool-cases (string_key.same x d)) [
    | inl y ↦
        let same : ps ≡ e = ground (arith, l, y, lookup-put x d ps s.waiting) in
        subst (HasParent s.added) same q
    | inr y ↦ h.pending x e (ground (arith, l, y, lookup-put x d ps s.waiting))
  ];
  fresh = λ x e l. elim (Bool-cases (string_key.same x d)) [
    | inl y ↦ subst (λ (k : String). is_new s.added k ≡ true) (sym (same→eq x d y)) f
    | inr y ↦ h.fresh x e (ground (arith, l, y, lookup-put x d ps s.waiting))
  ];
  keyed = put-IsMap d ps s.waiting h.keyed;
}

relax-IsHung :
    (my par d : String) (n : ℕ) (s : Search)
    → is_new s.added par ≡ false
    → IsHung my s
    → IsHung my (relax par d n s)
unfolding relax is_new member
relax-IsHung my par d n s p h = elim (Option-cases (lookup d s.added)) [
  | inr e ↦ subst (IsHung my) (ground (arith, e.1)) h
  | inl fresh ↦ elim (Option-cases (lookup d s.waiting)) [
    | inl e ↦
        let ps : PsT = record { p = par ∷ []; metric = u16 n } in
        subst (IsHung my) (ground (arith, fresh, e))
          (wait-IsHung my d ps s (ground (arith, fresh)) (par, ground (arith, same_refl par), p) h)
    | inr e ↦
        let ps = add_parent par (u16 n) e.0 in
        let q = add_parent-HasParent s.added par (u16 n) e.0 p (h.pending d e.0 e.1) in
        elim (Bool-cases (leb n e.0.metric)) [
          | inl y ↦
              subst (IsHung my) (ground (arith, fresh, e.1, y))
                (wait-IsHung my d ps s (ground (arith, fresh)) q h)
          | inr y ↦ subst (IsHung my) (ground (arith, fresh, e.1, y)) h
        ]
  ]
]

pub relax_all-IsHung :
    (my par : String) (m : ℕ) (links : Map String ℕ) (s : Search)
    → is_new s.added par ≡ false
    → IsHung my s
    → IsHung my (relax_all par m links s)
unfolding relax_all
relax_all-IsHung my par m [] s p h = h
relax_all-IsHung my par m ((d, w) ∷ links) s p h =
    relax_all-IsHung my par m links (relax par d (m + w) s)
      (subst (λ (t : Map String TreeNode). is_new t par ≡ false) (sym (relax-added par d (m + w) s))
        p)
      (relax-IsHung my par d (m + w) s p h)

pub settle-IsHung :
    (my a : String) (ps : PsT) (s : Search)
    → lookup a s.waiting ≡ some ps
    → IsHung my s
    → IsHung my (settle a ps s)
unfolding settle
settle-IsHung my a ps s w h =
    let n : TreeNode = record { node_metric = ps.metric; parents = ps.p } in
    let f = h.fresh a ps w in
    let q = h.pending a ps w in
    let there : (x : String) (e : PsT)
        → lookup x (erase a s.waiting) ≡ some e
        → lookup x s.waiting ≡ some e =
      λ x e l. ground (arith, l, lookup-erase x a s.waiting) in
    record {
      hung = λ x y. elim (Bool-cases (string_key.same x a)) [
        | inl e ↦
            child x q.0 n (ground (arith, e, lookup-put x a n s.added)) q.1
              (InTree-put my a n s.added q.0 f (h.hung q.0 q.2))
        | inr e ↦
            InTree-put my a n s.added x f
              (h.hung x (ground (arith, y, e, is_new-put a x n s.added)))
      ];
      pending = λ x e l.
          let r = h.pending x e (there x e l) in
          (r.0, r.1, ground (arith, r.2, is_new-put a r.0 n s.added));
      fresh = λ x e l. ground (
        arith,
        h.fresh x e (there x e l),
        is_new-put a x n s.added,
        l,
        lookup-erase x a s.waiting,
      );
      keyed = erase-IsMap a s.waiting h.keyed;
    }
