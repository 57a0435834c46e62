-- ===== src/Base/Dict.antt =====
-- Python's `dict` and `OrderedDict`: the entries in insertion order, each key once.
-- `put` overwrites in place or appends, `move_to_end` and `pop_first` are those of `OrderedDict`.
use trajproxy.Base.Tests.{if◌then◌else◌}
use trajproxy.Base.Lists.{length}
use trajproxy.Base.Classes.{Eq, ◌==◌}
use Prim.Native.Nat.{ℕ, ◌+◌}
use mathlib.Core.Path.{◌≡◌}
use mathlib.Core.Option.{Option, none, some}
use mathlib.Core.List.{List, [], ◌∷◌, ◌++◌}
pub mod Laws

abbrev pub Dict {ℓ} : Type ℓ → Type ℓ → Type ℓ
Dict K V = List (K × V)

module _ {ℓ} {K V : Type ℓ} ⦃e : Eq K⦄ where
  -- d.get(k)
  unfoldable pub get : K → Dict K V → Option V
  get k [] = none
  get k ((j, v) ∷ d) = if j == k then some v else get k d

  -- d.pop(k, None)
  unfoldable pub pop : K → Dict K V → Dict K V
  pop k [] = []
  pop k ((j, v) ∷ d) = let rest = pop k d in if j == k then rest else (j, v) ∷ rest

  -- d[k] = v
  unfoldable pub put : K → V → Dict K V → Dict K V
  put k v [] = (k, v) ∷ []
  put k v ((j, w) ∷ d) = let rest = put k v d in if j == k then (j, v) ∷ d else (j, w) ∷ rest

  -- d.move_to_end(k), where `k` is a key
  unfoldable pub move_to_end : K → Dict K V → Dict K V
  move_to_end k d = elim (get k d) [ none ↦ d | some v ↦ pop k d ++ (k, v) ∷ [] ]

  -- Every key stands once.
  abbrev pub Distinct : Dict K V → Type ℓ
  Distinct [] = Unit
  Distinct ((k, v) ∷ d) = (get k d ≡ none) × Distinct d

module _ {ℓ} {K V : Type ℓ} where
  -- d.popitem(last=False), where the dict is not empty
  abbrev pub pop_first : Dict K V → Option ((K × V) × Dict K V)
  pop_first [] = none
  pop_first (x ∷ d) = some (x, d)

  -- The sum of `f` over the values.
  unfoldable pub total : (V → ℕ) → Dict K V → ℕ
  total f [] = 0
  total f ((k, v) ∷ d) = f v + total f d

-- What `f` makes of a value that may be missing.
abbrev pub weight {ℓ} : {V : Type ℓ} → (V → ℕ) → Option V → ℕ
weight f none = 0
weight f (some v) = f v
