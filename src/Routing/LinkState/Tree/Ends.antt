-- ===== src/Routing/LinkState/Tree/Ends.antt =====
-- The loop of constructTree in src/policies/DIF/Routing/SimpleRouting/SimpleLS/SimpleLS.cc ends.
use Prim.Native.String.{String}
use rinasim.Base.{
  ℕ, ◌≤◌, true, false, ◌||◌, ◌≡◌, refl, sym, subst, List, [], ◌∷◌, ◌++◌, is_empty, length, All,
  All-weaken, length-keep-le, string_key, Map, lookup, put, at_key, or_default, member, ok, arith,
  Bool-cases, inl, inr, same_refl,
}
use rinasim.Routing.LinkState.{LinksU, no_links, LinksSt}
use rinasim.Routing.LinkState.Tree.Steps.{is_new, Waits, All-put, links_of-touch, IsSearch}
use rinasim.Routing.LinkState.Tree.{
  uint16_max, PsT, TreeNode, Search, links_of, first_waiting, start, keys, names, construct_tree,
}
use rinasim.Routing.LinkState.Tree.Counts.{left_over, search_loop-ends}

member-append :
    (a : String) (xs ys : List String) → member a (xs ++ ys) ≡ (member a xs || member a ys)
unfolding member
member-append a [] ys = refl
member-append a (x ∷ xs) ys = ground (arith, member-append a xs ys)

Leads : List String → Map String ℕ → Type 0
Leads known links = All (λ (e : String × ℕ). member e.0 known ≡ true) links

wider :
    (xs ys : List String) (links : Map String ℕ)
    → ((x : String) → member x xs ≡ true → member x ys ≡ true)
    → Leads xs links
    → Leads ys links
unfolding Leads
wider xs ys links w h =
    All-weaken (λ (e : String × ℕ). member e.0 xs ≡ true) (λ (e : String × ℕ). member e.0 ys ≡ true)
      (λ e m. w e.0 m) links h

keys-Leads : (links : Map String ℕ) → Leads (keys links) links
unfolding keys Leads member
keys-Leads [] = tt
keys-Leads ((d, m) ∷ links) = (
  ground (arith, same_refl d),
  unfold Leads in
      wider (keys links) (d ∷ keys links) links (λ x h. unfold member in ground (arith, h))
        (keys-Leads links),
)

links_of-here :
    (a b : String) (u : LinksU) (ls : LinksSt)
    → string_key.same a b ≡ true
    → links_of a ((b, u) ∷ ls) ≡ u.links
unfolding links_of at_key or_default lookup
links_of-here a b u ls e = ground (arith, e)

links_of-there :
    (a b : String) (u : LinksU) (ls : LinksSt)
    → string_key.same a b ≡ false
    → links_of a ((b, u) ∷ ls) ≡ links_of a ls
unfolding links_of at_key lookup
links_of-there a b u ls e = ground (arith, e)

no_links-Leads : (a : String) → Leads [] (links_of a [])
unfolding links_of at_key or_default lookup no_links Leads
no_links-Leads a = tt

names-Leads : (a : String) (ls : LinksSt) → Leads (names ls) (links_of a ls)
unfolding names
names-Leads a [] = no_links-Leads a
names-Leads a ((b, u) ∷ ls) = elim (Bool-cases (string_key.same a b)) [
  | inl e ↦ subst (Leads (keys u.links ++ names ls)) (sym (links_of-here a b u ls e)) (
      wider (keys u.links) (keys u.links ++ names ls) u.links
        (λ x h. ground (arith, member-append x (keys u.links) (names ls), h)) (keys-Leads u.links))
  | inr e ↦ subst (Leads (keys u.links ++ names ls)) (sym (links_of-there a b u ls e)) (
      wider (names ls) (keys u.links ++ names ls) (links_of a ls)
        (λ x h. ground (arith, member-append x (keys u.links) (names ls), h)) (names-Leads a ls))
]

-- A link of the process to itself would make it wait for itself.
unfoldable pub IsPlain : String → Map String ℕ → Type 0
IsPlain my links =
    All (λ (e : String × ℕ). (string_key.same e.0 my ≡ false) × (e.1 ≤ uint16_max)) links

first_waiting-Waits :
    (known : List String) (my : String) (n : TreeNode) (links : Map String ℕ) (w : Map String PsT)
    → Leads known links
    → IsPlain my links
    → All (Waits known ((my, n) ∷ [])) w
    → All (Waits known ((my, n) ∷ [])) (first_waiting my links w)
unfolding first_waiting Leads IsPlain
first_waiting-Waits known my n [] w l p h = h
first_waiting-Waits known my n ((d, m) ∷ links) w l p h =
    let ps : PsT = record { p = my ∷ []; metric = m } in
    let new : Waits known ((my, n) ∷ []) (d, ps) =
      unfold Waits is_new lookup in (ground (arith, p.0.0), l.0, p.0.1) in
    first_waiting-Waits known my n links (put d ps w) l.1 p.1
      (All-put (Waits known ((my, n) ∷ [])) d ps w new h)

pub start-IsSearch :
    (my : String) (ls : LinksSt) → IsPlain my (links_of my ls) → IsSearch (names ls) (start my ls)
unfolding start Leads
start-IsSearch my ls p = record {
  waits =
      first_waiting-Waits (names ls) my (record { node_metric = 0; parents = [] }) (links_of my ls)
        [] (names-Leads my ls) p tt;
  leads = λ a. subst (Leads (names ls)) (sym (links_of-touch my a ls)) (names-Leads a ls);
}

-- Where the process has no link to itself and its metrics have 16 bits, constructTree ends with
-- nothing left to wait for, within as many rounds as the links have names.
pub construct_tree-ends :
    (my : String) (ls : LinksSt)
    → IsPlain my (links_of my ls)
    → (t : Search) × (construct_tree my ls ≡ ok t) × (is_empty t.waiting ≡ true)
unfolding construct_tree left_over
construct_tree-ends my ls p =
    search_loop-ends (names ls) (length (names ls)) (start my ls) (start-IsSearch my ls p)
      (unfold left_over in length-keep-le (is_new (start my ls).added) (names ls))
