-- ===== src/Common/Map.antt =====
-- `std::unordered_map` with a number for a key, as an association list.
use Prim.Native.Nat.{ℕ}
use mathlib.Core.Path.{◌≡◌, refl}
use mathlib.Core.Option.{Option, none, some}
use mathlib.Core.List.{List, [], ◌∷◌}
use native.Mathlib.Omega.{arith}
use esp_modem_link.Common.Tests.{◌==◌, if◌then◌else◌}

module _ {ℓ} {V : Type ℓ} where
  -- `find`
  unfoldable pub lookup : ℕ → List (ℕ × V) → Option V
  lookup key [] = none
  lookup key ((other, value) ∷ rest) = if other == key then some value else lookup key rest

  -- `rest[key] = value`
  pub insert : ℕ → V → List (ℕ × V) → List (ℕ × V)
  insert key value [] = (key, value) ∷ []
  insert key value ((other, held) ∷ rest) =
      if other == key then (key, value) ∷ rest else (other, held) ∷ insert key value rest

  -- `emplace`, which keeps a value that is there.
  pub emplace : ℕ → V → List (ℕ × V) → List (ℕ × V)
  emplace key value [] = (key, value) ∷ []
  emplace key value ((other, held) ∷ rest) =
      if other == key then (other, held) ∷ rest else (other, held) ∷ emplace key value rest

  -- `erase`
  pub erase : ℕ → List (ℕ × V) → List (ℕ × V)
  erase key [] = []
  erase key ((other, value) ∷ rest) =
      if other == key then erase key rest else (other, value) ∷ erase key rest

  abbrev pub or_else : Option V → V → V
  or_else none d = d
  or_else (some value) d = value

  pub lookup-insert :
      (key other : ℕ) (value : V) (rest : List (ℕ × V))
      → lookup other (insert key value rest)
        ≡ (if key == other then some value else lookup other rest)
  unfolding lookup insert
  lookup-insert key other value [] = refl
  lookup-insert key other value ((i, held) ∷ rest) =
      ground (arith, lookup-insert key other value rest)

  pub lookup-emplace :
      (key other : ℕ) (value : V) (rest : List (ℕ × V))
      → lookup other (emplace key value rest)
        ≡ (if key == other then some (or_else (lookup key rest) value) else lookup other rest)
  unfolding lookup emplace
  lookup-emplace key other value [] = refl
  lookup-emplace key other value ((i, held) ∷ rest) =
      ground (arith, lookup-emplace key other value rest)

  pub lookup-erase :
      (key other : ℕ) (rest : List (ℕ × V))
      → lookup other (erase key rest) ≡ (if key == other then none else lookup other rest)
  unfolding lookup erase
  lookup-erase key other [] = ground arith
  lookup-erase key other ((i, held) ∷ rest) = ground (arith, lookup-erase key other rest)
