-- ===== src/Common/Dict.antt =====
-- Python's `dict` with text keys: an association list in insertion order.
use Prim.Native.Nat.{ℕ, ◌+◌}
use Prim.Native.String.{String}
use mathlib.Core.Path.{◌≡◌, refl}
use mathlib.Core.Option.{Option, none, some}
use mathlib.Core.List.{List, [], ◌∷◌}
use native.Mathlib.Omega.{arith}
use text.Mathlib.Text.{◌==◌}
use text.Mathlib.TextEquality.{eq_iff}
use text.Mathlib.TextPositions.{eq_refl}
use package.win_os_layer.Common.Tests.{if◌then◌else◌, get_or}

abbrev pub Dict {ℓ} : Type ℓ → Type ℓ
Dict V = List (String × V)

module _ {ℓ} {V : Type ℓ} where
  -- d.get(k)
  unfoldable pub lookup : String → Dict V → Option V
  lookup k [] = none
  lookup k ((j, v) ∷ d) = if j == k then some v else lookup k d

  -- d[k] = v: an old key keeps its place
  unfoldable pub insert : String → V → Dict V → Dict V
  insert k v [] = (k, v) ∷ []
  insert k v ((j, w) ∷ d) = if j == k then (j, v) ∷ d else (j, w) ∷ insert k v d

  -- d.pop(k, None)
  unfoldable pub erase : String → Dict V → Dict V
  erase k [] = []
  erase k ((j, v) ∷ d) = let rest = erase k d in if j == k then rest else (j, v) ∷ rest

  pub lookup-insert :
      (k j : String) (v : V) (d : Dict V)
      → lookup j (insert k v d) ≡ (if k == j then some v else lookup j d)
  unfolding lookup insert
  lookup-insert k j v [] = refl
  lookup-insert k j v ((i, w) ∷ d) =
      ground (arith, eq_iff k j, eq_iff i k, eq_iff i j, lookup-insert k j v d)

  pub lookup-erase :
      (k j : String) (d : Dict V) → lookup j (erase k d) ≡ (if k == j then none else lookup j d)
  unfolding lookup erase
  lookup-erase k j [] = ground arith
  lookup-erase k j ((i, w) ∷ d) =
      ground (arith, eq_iff k j, eq_iff i k, eq_iff i j, lookup-erase k j d)

  pub lookup-insert_self : (k : String) (v : V) (d : Dict V) → lookup k (insert k v d) ≡ some v
  lookup-insert_self k v d = simp (lookup-insert, eq_refl)

  -- No key occurs twice.
  abbrev pub HasDistinctKeys : Dict V → Type ℓ
  HasDistinctKeys [] = Unit
  HasDistinctKeys ((k, v) ∷ d) = (lookup k d ≡ none) × HasDistinctKeys d

  pub insert-HasDistinctKeys :
      (k : String) (v : V) (d : Dict V) → HasDistinctKeys d → HasDistinctKeys (insert k v d)
  unfolding lookup insert
  insert-HasDistinctKeys k v [] h = (refl, tt)
  insert-HasDistinctKeys k v ((j, w) ∷ d) h =
      ground (arith, insert-HasDistinctKeys k v d, lookup-insert k j v d, eq_iff j k, eq_iff k j)

  pub erase-HasDistinctKeys :
      (k : String) (d : Dict V) → HasDistinctKeys d → HasDistinctKeys (erase k d)
  unfolding lookup erase
  erase-HasDistinctKeys k [] h = tt
  erase-HasDistinctKeys k ((j, w) ∷ d) h =
      ground (arith, erase-HasDistinctKeys k d, lookup-erase k j d, eq_iff j k, eq_iff k j)

  pub erase_absent : (k : String) (d : Dict V) → lookup k d ≡ none → erase k d ≡ d
  unfolding lookup erase
  erase_absent k [] h = refl
  erase_absent k ((j, w) ∷ d) h = ground (arith, erase_absent k d)

pub ruleset dict_laws = (lookup-insert, lookup-erase)

-- The sum of the values of a dictionary of counts.
abbrev pub sum_values : Dict ℕ → ℕ
sum_values [] = 0
sum_values ((k, n) ∷ d) = n + sum_values d

pub sum_values-insert :
    (k : String) (n : ℕ) (d : Dict ℕ)
    → sum_values (insert k n d) + get_or 0 (lookup k d) ≡ sum_values d + n
unfolding lookup insert
sum_values-insert k n [] = omega arith
sum_values-insert k n ((j, m) ∷ d) = ground (arith, sum_values-insert k n d)

pub sum_values-erase :
    (k : String) (d : Dict ℕ)
    → HasDistinctKeys d
    → sum_values (erase k d) + get_or 0 (lookup k d) ≡ sum_values d
unfolding lookup erase
sum_values-erase k [] h = omega arith
sum_values-erase k ((j, m) ∷ d) h =
    ground (arith, sum_values-erase k d h.1, erase_absent k d, eq_iff j k)
