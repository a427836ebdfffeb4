-- ===== src/Routing/LinkState/Examples.antt =====
-- The tree of src/policies/DIF/Routing/SimpleRouting/SimpleLS/SimpleLS.cc over three processes.
use Prim.Native.String.{String}
use rinasim.Base.{[], ◌∷◌, ◌≡◌, refl, arith, ok, lookup, at_key, or_default}
use rinasim.Routing.LinkState.{LinksSt}
use rinasim.Routing.LinkState.Tree.{Search, links_of, construct_tree}
use rinasim.Routing.LinkState.Tree.Ends.{IsPlain}
use rinasim.Routing.LinkState.Tree.Hangs.{InTree}
use rinasim.Routing.LinkState.Tree.Reaches.{Reach, construct_tree-Reach}

abbrev three : LinksSt
three =
    ("a", record { s_id = 1; links = ("b", 1) ∷ ("c", 4) ∷ [] })
    ∷ ("b", record { s_id = 1; links = ("a", 1) ∷ ("c", 1) ∷ [] })
    ∷ []

construct_tree-Reach_example :
    (t : Search) × (construct_tree "a" three ≡ ok t)
    × ((x : String) → Reach "a" three x → InTree "a" t.added x)
unfolding IsPlain links_of at_key or_default lookup
construct_tree-Reach_example =
    construct_tree-Reach "a" three ((refl, omega arith), ((refl, omega arith), tt))
