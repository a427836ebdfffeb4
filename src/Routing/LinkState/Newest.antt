-- ===== src/Routing/LinkState/Newest.antt =====
-- What a process knows of another after it has handled updates in
-- src/policies/DIF/Routing/SimpleRouting/SimpleLS/SimpleLS.cc, in any order.
use Prim.Native.String.{String}
use rinasim.Base.{
  ℕ, ◌&&◌, List, [], ◌∷◌, ◌++◌, ◌≡◌, refl, sym, ap, ◌∙◌, arith, ltb, if◌then◌else◌, string_key, Map,
  put, at_key, or_default, lookup-put, All,
}
use rinasim.Routing.LinkState.{
  LinksU, LinksSt, LinkUpdate, SimpleLs, node_of, set_node, note_change, schedule_update,
  take_entry, take_entries, process_update,
}

unfoldable pub run : List LinkUpdate → SimpleLs → SimpleLs
run [] s = s
run (up ∷ ups) s = run ups (process_update up s).0

-- The versions of a node's links that an update brings, and a list of updates.
unfoldable pub versions_in : String → LinksSt → List LinksU
versions_in node [] = []
versions_in node ((m, u) ∷ entries) =
    let rest = versions_in node entries in if string_key.same node m then u ∷ rest else rest

unfoldable pub versions_of : String → String → List LinkUpdate → List LinksU
versions_of qos node [] = []
versions_of qos node (up ∷ ups) =
    let rest = versions_of qos node ups in
    if string_key.same qos up.qos then versions_in node up.entries ++ rest else rest

unfoldable pub newer : LinksU → LinksU → LinksU
newer a b = if ltb a.s_id b.s_id then b else a

unfoldable pub newest : LinksU → List LinksU → LinksU
newest a [] = a
newest a (b ∷ bs) = newest (newer a b) bs

-- The greatest number among a version's and those of a list.
unfoldable pub greatest : ℕ → List LinksU → ℕ
greatest n [] = n
greatest n (b ∷ bs) = greatest (if ltb n b.s_id then b.s_id else n) bs

node_of-set_node :
    (q n qos node : String) (u : LinksU) (s : SimpleLs)
    → node_of q n (set_node qos node u s)
      ≡ (if string_key.same q qos && string_key.same n node then u else node_of q n s)
unfolding node_of set_node at_key or_default
node_of-set_node q n qos node u s = ground (
  arith,
  lookup-put q qos (put node u (at_key [] qos s.net_state)) s.net_state,
  lookup-put n node u (at_key [] qos s.net_state),
  string_key.same_iff q qos,
)

node_of-take_entry :
    (q n qos node : String) (u : LinksU) (s : SimpleLs)
    → node_of q n (take_entry qos node u s) ≡ (
        if string_key.same q qos && string_key.same n node
        then newer (node_of q n s) u
        else node_of q n s)
unfolding take_entry note_change newer node_of
node_of-take_entry q n qos node u s = ground (
  arith,
  node_of-set_node q n qos node u s,
  node_of-set_node q n qos node (node_of qos node s) s,
  string_key.same_iff q qos,
  string_key.same_iff n node,
)

newest-append : (a : LinksU) (bs cs : List LinksU) → newest a (bs ++ cs) ≡ newest (newest a bs) cs
unfolding newest
newest-append a [] cs = refl
newest-append a (b ∷ bs) cs = newest-append (newer a b) bs cs

node_of-take_entries :
    (q n qos : String) (entries : LinksSt) (s : SimpleLs)
    → node_of q n (take_entries qos entries s) ≡ (
        if string_key.same q qos
        then newest (node_of q n s) (versions_in n entries)
        else node_of q n s)
unfolding take_entries versions_in newest
node_of-take_entries q n qos [] s = ground arith
node_of-take_entries q n qos ((node, u) ∷ entries) s = ground (
  arith,
  node_of-take_entries q n qos entries (take_entry qos node u s),
  node_of-take_entry q n qos node u s,
)

node_of-process_update :
    (q n : String) (up : LinkUpdate) (s : SimpleLs)
    → node_of q n (process_update up s).0 ≡ node_of q n (take_entries up.qos up.entries s)
unfolding process_update schedule_update node_of
node_of-process_update q n up s = ground arith

node_of-run :
    (q n : String) (ups : List LinkUpdate) (s : SimpleLs)
    → node_of q n (run ups s) ≡ newest (node_of q n s) (versions_of q n ups)
unfolding run versions_of newest
node_of-run q n [] s = refl
node_of-run q n (up ∷ ups) s = ground (
  arith,
  node_of-run q n ups (process_update up s).0,
  node_of-process_update q n up s,
  node_of-take_entries q n up.qos up.entries s,
  newest-append (node_of q n s) (versions_in n up.entries) (versions_of q n ups),
)

s_id-newest : (a : LinksU) (bs : List LinksU) → (newest a bs).s_id ≡ greatest a.s_id bs
unfolding newest newer greatest
s_id-newest a [] = refl
s_id-newest a (b ∷ bs) = ground (arith, s_id-newest (newer a b) bs)

-- A version that is one of those that its node has had: the number says which.
abbrev pub IsOf : (ℕ → Map String ℕ) → LinksU → Type 0
IsOf history u = u.links ≡ history u.s_id

newest-IsOf :
    (history : ℕ → Map String ℕ) (a : LinksU) (bs : List LinksU)
    → IsOf history a
    → All (IsOf history) bs
    → IsOf history (newest a bs)
unfolding newest newer
newest-IsOf history a [] h k = h
newest-IsOf history a (b ∷ bs) h k = newest-IsOf history (newer a b) bs (ground (arith, h, k.0)) k.1

same_version :
    (history : ℕ → Map String ℕ) (a b : LinksU)
    → IsOf history a
    → IsOf history b
    → a.s_id ≡ b.s_id
    → a ≡ b
same_version history a b h k e = ground (arith, h, k, e, ap history e)

-- Two processes that have handled any updates, each in its own order, know of a node the version
-- with the greatest number of those that they started from and were sent; where these numbers are
-- the same they know the same links, if every version is one that the node has had under its number.
pub node_of-run_newest :
    (history : ℕ → Map String ℕ) (q n : String) (ups vps : List LinkUpdate) (s t : SimpleLs)
    → IsOf history (node_of q n s)
    → IsOf history (node_of q n t)
    → All (IsOf history) (versions_of q n ups)
    → All (IsOf history) (versions_of q n vps)
    → greatest (node_of q n s).s_id (versions_of q n ups)
      ≡ greatest (node_of q n t).s_id (versions_of q n vps)
    → ((node_of q n (run ups s)).s_id ≡ greatest (node_of q n s).s_id (versions_of q n ups))
      × (node_of q n (run ups s) ≡ node_of q n (run vps t))
node_of-run_newest history q n ups vps s t hs ht hu hv e =
    let a = node_of q n s in
    let b = node_of q n t in
    let us = versions_of q n ups in
    let vs = versions_of q n vps in
    let ids = s_id-newest a us ∙ e ∙ sym (s_id-newest b vs) in
    let same =
      same_version history (newest a us) (newest b vs) (newest-IsOf history a us hs hu)
        (newest-IsOf history b vs ht hv) ids in
    (
      ap (λ (u : LinksU). u.s_id) (node_of-run q n ups s) ∙ s_id-newest a us,
      node_of-run q n ups s ∙ same ∙ sym (node_of-run q n vps t),
    )
