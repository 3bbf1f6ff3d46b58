-- ===== src/Base/Assoc.antt =====
-- Hash maps behind shards: association lists, in a function from the numbers of the shards.
use Prim.Native.Nat.{ℕ}
use mathlib.Core.Path.{◌≡◌, refl, ap}
use mathlib.Core.List.{List, [], ◌∷◌}
use mathlib.Core.Option.{Option, none, some}
use native.Mathlib.Omega.{arith}
use pathdns.Base.Tests.{◌==◌, if◌then◌else◌}

abbrev pub Assoc {ℓ} : Type ℓ → Type ℓ
Assoc V = List (ℕ × V)

module _ {ℓ} {V : Type ℓ} where
  unfoldable pub lookup : ℕ → Assoc V → Option V
  lookup k [] = none
  lookup k ((j, v) ∷ m) = if j == k then some v else lookup k m

  unfoldable pub insert : ℕ → V → Assoc V → Assoc V
  insert k v [] = (k, v) ∷ []
  insert k v ((j, w) ∷ m) = let rest = insert k v m in if j == k then (k, v) ∷ m else (j, w) ∷ rest

  -- A key stands in a map once; what the removal leaves has it no more.
  unfoldable pub erase : ℕ → Assoc V → Assoc V
  erase k [] = []
  erase k ((j, v) ∷ m) = let rest = erase k m in if j == k then rest else (j, v) ∷ rest

  abbrev pub set_shard : (ℕ → Assoc V) → ℕ → Assoc V → ℕ → Assoc V
  set_shard shards i m j = if i == j then m else shards j

module _ {ℓ} {V : Type ℓ} where
  pub lookup-insert :
      (key other : ℕ) (value : V) (entries : Assoc V)
      → lookup other (insert key value entries)
        ≡ (if key == other then some value else lookup other entries)
  unfolding lookup insert
  lookup-insert key other value [] = refl
  lookup-insert key other value ((head, old) ∷ rest) =
      ground (arith, lookup-insert key other value rest)

  pub lookup-erase :
      (key other : ℕ) (entries : Assoc V)
      → lookup other (erase key entries) ≡ (if key == other then none else lookup other entries)
  unfolding lookup erase
  lookup-erase key other [] = ground arith
  lookup-erase key other ((head, old) ∷ rest) = ground (arith, lookup-erase key other rest)

-- The shards behave as one map, whatever function chooses the shard of a key.
module _ {ℓ} {V : Type ℓ} (shard : ℕ → ℕ) (shards : ℕ → Assoc V) (k j : ℕ) where
  pub lookup-set_insert :
      (v : V)
      → lookup j (set_shard shards (shard k) (insert k v (shards (shard k))) (shard j))
        ≡ (if k == j then some v else lookup j (shards (shard j)))
  lookup-set_insert v =
      ground (arith, lookup-insert k j v (shards (shard k)), λ (e : shard k ≡ shard j). ap shards e)

  pub lookup-set_erase :
      lookup j (set_shard shards (shard k) (erase k (shards (shard k))) (shard j))
      ≡ (if k == j then none else lookup j (shards (shard j)))
  lookup-set_erase =
      ground (arith, lookup-erase k j (shards (shard k)), λ (e : shard k ≡ shard j). ap shards e)
