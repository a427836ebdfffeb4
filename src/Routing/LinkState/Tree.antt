-- ===== src/Routing/LinkState/Tree.antt =====
-- src/policies/DIF/Routing/SimpleRouting/SimpleLS/SimpleLS.cc, constructTree: the paths from the
-- process to the others.
use Prim.Native.String.{String}
use rinasim.Base.{
  ℕ, zero, suc, ◌+◌, ◌==◌, Bool, Option, none, some, List, [], ◌∷◌, ◌++◌, ltb, leb, is_empty,
  length, if◌then◌else◌, string_key, Map, lookup, put, erase, at_key, add, Set, Result, ok, err,
  out_of_fuel,
}
use rinasim.Routing.Distance.{u16}
use rinasim.Routing.LinkState.{LinksU, no_links, LinksSt}
pub mod Steps
pub mod Counts
pub mod Ends
pub mod Covers
pub mod Hangs
pub mod Parents
pub mod Reaches

abbrev pub uint16_max : ℕ
uint16_max = 65535

-- `psT`: a node that waits, its metric so far and the nodes before it on the paths of that metric.
pub record PsT : Type 0 where
  pub p : Set String
  pub metric : ℕ

-- A `TreeNode`. Its children are the nodes that have it among their parents.
pub record TreeNode : Type 0 where
  pub node_metric : ℕ
  pub parents : Set String

-- The links, which `operator[]` extends, and the two maps of the search.
pub record Search : Type 0 where
  pub ls : LinksSt
  pub added : Map String TreeNode
  pub waiting : Map String PsT

unfoldable pub no_ps : PsT
no_ps = record { p = []; metric = uint16_max }

unfoldable pub add_parent : String → ℕ → PsT → PsT
add_parent par m ps =
    let q : PsT = if ltb m ps.metric then record { p = []; metric = m } else ps in
    if q.metric == m then record q { p = add par q.p } else q

unfoldable pub links_of : String → LinksSt → Map String ℕ
links_of a ls = (at_key no_links a ls).links

unfoldable pub touch : String → LinksSt → LinksSt
touch a ls = put a (at_key no_links a ls) ls

-- One link of a node that has just been added, with the sum of the metrics.
unfoldable pub relax : String → String → ℕ → Search → Search
relax par d sum s = elim (lookup d s.added) [
  | some n ↦ s
  | none ↦ elim (lookup d s.waiting) [
    | none ↦ record s { waiting = put d (record { p = par ∷ []; metric = u16 sum }) s.waiting }
    | some e ↦
        if leb sum e.metric
        then record s { waiting = put d (add_parent par (u16 sum) e) s.waiting }
        else s
  ]
]

unfoldable pub relax_all : String → ℕ → Map String ℕ → Search → Search
relax_all par m [] s = s
relax_all par m ((d, w) ∷ links) s = relax_all par m links (relax par d (m + w) s)

unfoldable pub settle : String → PsT → Search → Search
settle a ps s = record {
  ls = touch a s.ls;
  added = put a (record { node_metric = ps.metric; parents = ps.p }) s.added;
  waiting = erase a s.waiting;
}

unfoldable pub take : String → Search → Search
take a s =
    let ps = at_key no_ps a s.waiting in relax_all a ps.metric (links_of a s.ls) (settle a ps s)

-- The last of the list comes first.
unfoldable pub take_all : List String → Search → Search
take_all [] s = s
take_all (a ∷ later) s = take a (take_all later s)

unfoldable pub note : String → ℕ → ℕ × List String → ℕ × List String
note a m st =
    let t : ℕ × List String = if ltb m st.0 then (m, []) else st in
    if m == t.0 then (t.0, t.1 ++ (a ∷ [])) else t

-- The nodes of the smallest metric.
unfoldable pub smallest : Map String PsT → ℕ × List String → List String
smallest [] st = st.1
smallest ((a, ps) ∷ w) st = smallest w (note a ps.metric st)

unfoldable pub round : Search → Search
round s = take_all (smallest s.waiting (uint16_max, [])) s

unfoldable pub search_loop : ℕ → Search → Result Search
search_loop zero s = if is_empty s.waiting then ok s else err out_of_fuel
search_loop (suc n) s =
    let rest = search_loop n (round s) in if is_empty s.waiting then ok s else rest

unfoldable pub first_waiting : String → Map String ℕ → Map String PsT → Map String PsT
first_waiting my [] w = w
first_waiting my ((d, m) ∷ links) w =
    first_waiting my links (put d (record { p = my ∷ []; metric = m }) w)

unfoldable pub start : String → LinksSt → Search
start my ls = record {
  ls = touch my ls;
  added = (my, record { node_metric = 0; parents = [] }) ∷ [];
  waiting = first_waiting my (links_of my ls) [];
}

unfoldable pub keys : Map String ℕ → List String
keys [] = []
keys ((d, m) ∷ links) = d ∷ keys links

-- Every node that some link leads to.
unfoldable pub names : LinksSt → List String
names [] = []
names ((a, u) ∷ ls) = keys u.links ++ names ls

unfoldable pub construct_tree : String → LinksSt → Result Search
construct_tree my ls = search_loop (length (names ls)) (start my ls)
