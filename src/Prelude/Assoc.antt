-- ===== src/Prelude/Assoc.antt =====
-- Go's maps with string keys, as association lists whose first entry of a key counts.
use Prim.Native.String.{String}
use mathlib.Core.Path.{◌≡◌, refl, sym, subst}
use mathlib.Core.Logic.{inl, inr}
use mathlib.Core.Bool.{Bool, true, false}
use mathlib.Core.Option.{Option, none, some}
use mathlib.Core.List.{List, [], ◌∷◌, Memᴰ}
use native.Mathlib.Omega.{arith}
use text.Mathlib.Text.{◌==◌}
use text.Mathlib.TextEquality.{eq_iff}
use Prim.Native.Nat.{◌≤◌, ◌<◌}
use vihara.Prelude.Lists.{length}
use vihara.Prelude.Tests.{Bool-cases, if◌then◌else◌}

abbrev pub Map {ℓ} : Type ℓ → Type ℓ
Map V = List (String × V)

module _ {ℓ} {V : Type ℓ} where
  -- `v, ok := m[k]`
  unfoldable pub lookup : String → Map V → Option V
  lookup key [] = none
  lookup key ((first, value) ∷ rest) = if first == key then some value else lookup key rest

  -- `m[k] = v`
  unfoldable pub insert : String → V → Map V → Map V
  insert key new [] = (key, new) ∷ []
  insert key new ((first, value) ∷ rest) =
      let behind = insert key new rest in
      if first == key then (first, new) ∷ rest else (first, value) ∷ behind

  -- `delete(m, k)`
  unfoldable pub erase : String → Map V → Map V
  erase key [] = []
  erase key ((first, value) ∷ rest) =
      let behind = erase key rest in if first == key then behind else (first, value) ∷ behind

  pub lookup-insert :
      (key other : String) (new : V) (m : Map V)
      → lookup other (insert key new m) ≡ (if key == other then some new else lookup other m)
  unfolding insert lookup
  lookup-insert key other new [] = refl
  lookup-insert key other new ((first, value) ∷ rest) = ground (
    arith,
    eq_iff first key,
    eq_iff first other,
    eq_iff key other,
    lookup-insert key other new rest,
  )

  pub lookup-erase :
      (key other : String) (m : Map V)
      → lookup other (erase key m) ≡ (if key == other then none else lookup other m)
  unfolding erase lookup
  lookup-erase key other [] = ground arith
  lookup-erase key other ((first, value) ∷ rest) =
      ground
        (arith, eq_iff first key, eq_iff first other, eq_iff key other, lookup-erase key other rest)

  -- No key is twice in the map, as in every map of Go.
  abbrev pub Distinct : Map V → Type ℓ
  Distinct [] = Unit
  Distinct ((k, v) ∷ m) = (lookup k m ≡ none) × Distinct m

  pub Distinct-insert : (k : String) (v : V) (m : Map V) → Distinct m → Distinct (insert k v m)
  unfolding insert lookup
  Distinct-insert k v [] h = (refl, tt)
  Distinct-insert k v ((j, w) ∷ m) (new, h) =
      ground (arith, eq_iff j k, eq_iff k j, lookup-insert k j v m, Distinct-insert k v m h)

  pub Distinct-erase : (k : String) (m : Map V) → Distinct m → Distinct (erase k m)
  unfolding erase
  Distinct-erase k [] h = tt
  Distinct-erase k ((j, w) ∷ m) (new, h) = ground (arith, lookup-erase k j m, Distinct-erase k m h)

-- Membership in a list of strings, as the sets of `k8s.io/apimachinery/pkg/util/sets` have it.
abbrev pub contains : List String → String → Bool
contains [] a = false
contains (x ∷ xs) a = if x == a then true else contains xs a

-- The keys in the order of the entries.
unfoldable pub keys {ℓ} : {V : Type ℓ} → Map V → List String
keys [] = []
keys ((k, v) ∷ m) = k ∷ keys m

-- What a key leads to is in the list of the keys.
pub lookup-keys {ℓ} :
    {V : Type ℓ} (k : String) (m : Map V) {v : V} → lookup k m ≡ some v → Memᴰ k (keys m)
unfolding lookup keys
lookup-keys k [] h = cc
lookup-keys k ((j, w) ∷ m) h = elim (Bool-cases (j == k)) [
  | inl same ↦ Memᴰ.head (sym ((eq_iff j k).0 same))
  | inr other ↦ Memᴰ.tail (lookup-keys k m (rw (other, if◌then◌else◌) at h))
]

-- Every value of the map has the property.
abbrev pub AllValues {ℓ κ} : {V : Type ℓ} → (V → Type κ) → Map V → Type κ
AllValues P [] = Unit
AllValues P ((k, v) ∷ m) = P v × AllValues P m

pub AllValues-lookup {ℓ κ} :
    {V : Type ℓ} (P : V → Type κ) (k : String) (m : Map V) {v : V}
    → lookup k m ≡ some v
    → AllValues P m
    → P v
unfolding lookup
AllValues-lookup P k [] h all = cc
AllValues-lookup P k ((j, w) ∷ m) {v} h (p, all) = elim (Bool-cases (j == k)) [
  | inl same ↦
      let found : some w ≡ some v = rw (same, if◌then◌else◌) at h in
      let value : w ≡ v = cc in subst P value p
  | inr other ↦ AllValues-lookup P k m (rw (other, if◌then◌else◌) at h) all
]

pub AllValues-insert {ℓ κ} :
    {V : Type ℓ} (P : V → Type κ) (k : String) (v : V) (m : Map V)
    → P v
    → AllValues P m
    → AllValues P (insert k v m)
unfolding insert
AllValues-insert P k v [] p all = (p, tt)
AllValues-insert P k v ((j, w) ∷ m) p (q, all) = elim (Bool-cases (j == k)) [
  | inl same ↦ rw (same, if◌then◌else◌) (p, all)
  | inr other ↦ rw (other, if◌then◌else◌) (q, AllValues-insert P k v m p all)
]

pub AllValues-erase {ℓ κ} :
    {V : Type ℓ} (P : V → Type κ) (k : String) (m : Map V) → AllValues P m → AllValues P (erase k m)
unfolding erase
AllValues-erase P k [] all = tt
AllValues-erase P k ((j, w) ∷ m) (q, all) = elim (Bool-cases (j == k)) [
  | inl same ↦ rw (same, if◌then◌else◌) (AllValues-erase P k m all)
  | inr other ↦ rw (other, if◌then◌else◌) (q, AllValues-erase P k m all)
]

pub AllValues-map {ℓ κ μ} :
    {V : Type ℓ} {P : V → Type κ} {Q : V → Type μ}
    → ((v : V) → P v → Q v)
    → (m : Map V) → AllValues P m
    → AllValues Q m
AllValues-map f [] all = tt
AllValues-map f ((k, v) ∷ m) (p, all) = (f v p, AllValues-map f m all)

module _ {ℓ} {V : Type ℓ} where
  length-erase_le : (k : String) (m : Map V) → length (erase k m) ≤ length m
  unfolding erase
  length-erase_le k [] = omega arith
  length-erase_le k ((j, v) ∷ m) = ground (arith, length-erase_le k m)

  -- A key that is there takes an entry with it.
  pub length-erase :
      (k : String) (m : Map V) {v : V} → lookup k m ≡ some v → length (erase k m) < length m
  unfolding erase lookup
  length-erase k [] h = cc
  length-erase k ((j, w) ∷ m) h = elim (Bool-cases (j == k)) [
    | inl same ↦ rw (same, if◌then◌else◌) (omega (arith, length-erase_le k m))
    | inr other ↦
        let shorter = length-erase k m (rw (other, if◌then◌else◌) at h) in
        rw (other, if◌then◌else◌) (omega (arith, shorter))
  ]
