-- ===== src/Base/Maps.antt =====
-- The simulator's `std::map` and `std::set`, kept in the order of their keys.
use Prim.Native.Nat.{ℕ, Ordering}
use Prim.Native.String.{String, compare as string_compare}
use text.Mathlib.Text.{◌==◌ as string_same}
use text.Mathlib.TextEquality.{eq_iff}
use mathlib.Core.Path.{◌≡◌, refl}
use mathlib.Core.Logic.{◌↔◌}
use mathlib.Core.Bool.{Bool, true, false, ◌&&◌, ◌||◌, not}
use mathlib.Core.Option.{Option, none, some}
use mathlib.Core.List.{List, [], ◌∷◌}
use native.Mathlib.Omega.{arith}
use rinasim.Base.Tests.{if◌then◌else◌, ltb, ◌==◌, ==→eq, eq→==}

-- What a key of a map has: an equality, and an order, which only says where a key is put.
pub record Key {ℓ} (K : Type ℓ) : Type ℓ where
  pub same : K → K → Bool
  pub same_iff : (a b : K) → (same a b ≡ true) ↔ (a ≡ b)
  pub before : K → K → Bool

abbrev string_before : String → String → Bool
string_before a b = elim (string_compare a b) [ Ordering.lt ↦ true | _ ↦ false ]

instance abbrev pub string_key : Key String
string_key = record { same = string_same; same_iff = eq_iff; before = string_before }

pub same_number : (a b : ℕ) → ((a == b) ≡ true) ↔ (a ≡ b)
same_number a b = (==→eq a b, eq→== a b)

instance abbrev pub number_key : Key ℕ
number_key = record { same = ◌==◌; same_iff = same_number; before = ltb }

module _ {ℓ κ} {A : Type ℓ} {B : Type κ} ⦃a : Key A⦄ ⦃b : Key B⦄ where
  abbrev pair_same : A × B → A × B → Bool
  pair_same x y = a.same x.0 y.0 && b.same x.1 y.1

  abbrev pair_before : A × B → A × B → Bool
  pair_before x y = a.before x.0 y.0 || a.same x.0 y.0 && b.before x.1 y.1

  pub pair_same_iff : (x y : A × B) → (pair_same x y ≡ true) ↔ (x ≡ y)
  pair_same_iff x y = ground (arith, a.same_iff x.0 y.0, b.same_iff x.1 y.1)

  instance abbrev pub pair_key : Key (A × B)
  pair_key = record { same = pair_same; same_iff = pair_same_iff; before = pair_before }

abbrev pub Map {ℓ κ} : Type ℓ → Type κ → Type (ℓ ⊔ κ)
Map K V = List (K × V)

module _ {ℓ κ} {K : Type ℓ} {V : Type κ} ⦃key : Key K⦄ where
  -- `map::find`.
  unfoldable pub lookup : K → Map K V → Option V
  lookup k [] = none
  lookup k ((j, v) ∷ m) = if key.same k j then some v else lookup k m

  -- `map::erase`.
  unfoldable pub erase : K → Map K V → Map K V
  erase k [] = []
  erase k ((j, v) ∷ m) = let rest = erase k m in if key.same k j then rest else (j, v) ∷ rest

  -- A new key comes before the first one that the order puts behind it.
  unfoldable pub insert_new : K → V → Map K V → Map K V
  insert_new k v [] = (k, v) ∷ []
  insert_new k v ((j, w) ∷ m) =
      let rest = insert_new k v m in if key.before k j then (k, v) ∷ (j, w) ∷ m else (j, w) ∷ rest

  -- `map[k] = v`.
  unfoldable pub put : K → V → Map K V → Map K V
  put k v m = insert_new k v (erase k m)

module _ {ℓ} {K : Type ℓ} ⦃key : Key K⦄ where
  pub same_refl : (k : K) → key.same k k ≡ true
  same_refl k = (key.same_iff k k).1 refl

  pub same→eq : (k j : K) → key.same k j ≡ true → k ≡ j
  same→eq k j = (key.same_iff k j).0

module _ {ℓ κ} {K : Type ℓ} {V : Type κ} ⦃key : Key K⦄ where
  pub lookup-erase :
      (j k : K) (m : Map K V) → lookup j (erase k m) ≡ (if key.same j k then none else lookup j m)
  unfolding lookup erase
  lookup-erase j k [] = ground arith
  lookup-erase j k ((i, w) ∷ m) =
      ground (arith, lookup-erase j k m, same→eq k i, same→eq j i, same→eq j k, same_refl j)

  pub lookup-insert_new :
      (j k : K) (v : V) (m : Map K V)
      → lookup k m ≡ none
      → lookup j (insert_new k v m) ≡ (if key.same j k then some v else lookup j m)
  unfolding lookup insert_new
  lookup-insert_new j k v [] h = refl
  lookup-insert_new j k v ((i, w) ∷ m) h =
      ground (arith, lookup-insert_new j k v m, same→eq k i, same→eq j i, same→eq j k, same_refl j)

  -- A map reads as a function: `put` and `erase` change it at their key, and nowhere else.
  pub lookup-put :
      (j k : K) (v : V) (m : Map K V)
      → lookup j (put k v m) ≡ (if key.same j k then some v else lookup j m)
  unfolding put
  lookup-put j k v m = ground (
    arith,
    lookup-erase j k m,
    lookup-erase k k m,
    lookup-insert_new j k v (erase k m),
    same_refl k,
  )

-- `map[k]` where the key may be missing: the map then holds the default.
unfoldable pub or_default {ℓ} : {V : Type ℓ} → V → Option V → V
or_default d none = d
or_default d (some v) = v

module _ {ℓ κ} {K : Type ℓ} {V : Type κ} ⦃key : Key K⦄ where
  unfoldable pub at_key : V → K → Map K V → V
  at_key d k m = or_default d (lookup k m)

abbrev pub Set {ℓ} : Type ℓ → Type ℓ
Set K = List K

module _ {ℓ} {K : Type ℓ} ⦃key : Key K⦄ where
  unfoldable pub member : K → Set K → Bool
  member k [] = false
  member k (j ∷ s) = key.same k j || member k s

  -- `set::insert`.
  unfoldable pub add : K → Set K → Set K
  add k [] = k ∷ []
  add k (j ∷ s) =
      let rest = add k s in
      if key.same k j then j ∷ s else if key.before k j then k ∷ j ∷ s else j ∷ rest

  -- `set::erase`.
  unfoldable pub discard : K → Set K → Set K
  discard k [] = []
  discard k (j ∷ s) = let rest = discard k s in if key.same k j then rest else j ∷ rest

  pub member-add : (j k : K) (s : Set K) → member j (add k s) ≡ (key.same j k || member j s)
  unfolding member add
  member-add j k [] = refl
  member-add j k (i ∷ s) =
      ground (arith, member-add j k s, same→eq k i, same→eq j i, same→eq j k, same_refl j)

  pub member-discard :
      (j k : K) (s : Set K) → member j (discard k s) ≡ (not (key.same j k) && member j s)
  unfolding member discard
  member-discard j k [] = ground arith
  member-discard j k (i ∷ s) =
      ground (arith, member-discard j k s, same→eq k i, same→eq j i, same→eq j k, same_refl j)

module _ {ℓ κ} {K : Type ℓ} {V : Type κ} ⦃key : Key K⦄ where
  -- Each key stands in the map once.
  unfoldable pub IsMap : Map K V → Type κ
  IsMap [] = Unit
  IsMap ((k, v) ∷ m) = (lookup k m ≡ none) × IsMap m

  pub erase-IsMap : (k : K) (m : Map K V) → IsMap m → IsMap (erase k m)
  unfolding IsMap erase lookup
  erase-IsMap k [] h = ground arith
  erase-IsMap k ((j, w) ∷ m) h = ground (arith, erase-IsMap k m h.1, lookup-erase j k m)

  insert_new-IsMap :
      (k : K) (v : V) (m : Map K V) → lookup k m ≡ none → IsMap m → IsMap (insert_new k v m)
  unfolding IsMap insert_new lookup
  insert_new-IsMap k v [] n h = ground arith
  insert_new-IsMap k v ((j, w) ∷ m) n h =
      ground (arith, insert_new-IsMap k v m, lookup-insert_new j k v m, same→eq j k, same_refl k)

  pub put-IsMap : (k : K) (v : V) (m : Map K V) → IsMap m → IsMap (put k v m)
  unfolding put
  put-IsMap k v m h =
      insert_new-IsMap k v (erase k m) (ground (arith, lookup-erase k k m, same_refl k))
        (erase-IsMap k m h)
