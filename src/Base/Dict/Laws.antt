-- ===== src/Base/Dict/Laws.antt =====
-- The laws of `Dict`: reads after writes, distinct keys, lengths and sums.
use trajproxy.Base.Tests.{if◌then◌else◌, Option-cases}
use trajproxy.Base.Lists.{length}
use trajproxy.Base.Classes.{Eq, ◌==◌, ==_refl}
use Prim.Native.Nat.{ℕ, ◌+◌, ◌≤◌}
use mathlib.Core.Path.{◌≡◌, refl}
use mathlib.Core.Logic.{inl, inr}
use mathlib.Core.Option.{none, some}
use mathlib.Core.List.{[], ◌∷◌, ◌++◌}
use native.Mathlib.Omega.{arith}
use trajproxy.Base.Dict.{Dict, get, pop, put, move_to_end, Distinct, total, weight}

module _ {ℓ} {K V : Type ℓ} ⦃e : Eq K⦄ where
  pub get-pop : (k j : K) (d : Dict K V) → get j (pop k d) ≡ (if k == j then none else get j d)
  unfolding get pop
  get-pop k j [] = ground arith
  get-pop k j ((i, v) ∷ d) =
      ground (arith, get-pop k j d, e.beq_iff i k, e.beq_iff i j, e.beq_iff k j)

  pub get-put :
      (k j : K) (v : V) (d : Dict K V) → get j (put k v d) ≡ (if k == j then some v else get j d)
  unfolding get put
  get-put k j v [] = refl
  get-put k j v ((i, w) ∷ d) =
      ground (arith, get-put k j v d, e.beq_iff i k, e.beq_iff i j, e.beq_iff k j)

  pub get-append :
      (j : K) (c d : Dict K V)
      → get j (c ++ d) ≡ elim (get j c) [ none ↦ get j d | some v ↦ some v ]
  unfolding get
  get-append j [] d = refl
  get-append j ((i, v) ∷ c) d = ground (arith, get-append j c d)

  pub pop-Distinct : (k : K) (d : Dict K V) → Distinct d → Distinct (pop k d)
  unfolding pop
  pop-Distinct k [] h = tt
  pop-Distinct k ((i, v) ∷ d) h = ground (arith, pop-Distinct k d, get-pop k i d)

  pub put-Distinct : (k : K) (v : V) (d : Dict K V) → Distinct d → Distinct (put k v d)
  unfolding put get
  put-Distinct k v [] h = (refl, tt)
  put-Distinct k v ((i, w) ∷ d) h =
      ground (arith, put-Distinct k v d, get-put k i v d, e.beq_iff i k, e.beq_iff k i)

  pub pop_absent : (k : K) (d : Dict K V) → get k d ≡ none → pop k d ≡ d
  unfolding get pop
  pop_absent k [] h = refl
  pop_absent k ((i, v) ∷ d) h = ground (arith, pop_absent k d)

  pub append_last-Distinct :
      (k : K) (v : V) (d : Dict K V) → get k d ≡ none → Distinct d → Distinct (d ++ (k, v) ∷ [])
  unfolding get
  append_last-Distinct k v [] h u = (refl, tt)
  append_last-Distinct k v ((i, w) ∷ d) h u = ground (
    arith,
    append_last-Distinct k v d,
    get-append i d ((k, v) ∷ []),
    e.beq_iff i k,
    e.beq_iff k i,
  )

  pub get-pop_self : (k : K) (d : Dict K V) → get k (pop k d) ≡ none
  get-pop_self k d = ground (arith, get-pop k k d, ==_refl k)

  pub get-move : (k j : K) (d : Dict K V) → get j (move_to_end k d) ≡ get j d
  unfolding move_to_end get
  get-move k j d = elim (Option-cases (get k d)) [
    | inl a ↦ rw (a, move_to_end)
    | inr (v, p) ↦
        ground (arith, p, get-append j (pop k d) ((k, v) ∷ []), get-pop k j d, e.beq_iff k j)
  ]

  pub move-Distinct : (k : K) (d : Dict K V) → Distinct d → Distinct (move_to_end k d)
  unfolding move_to_end
  move-Distinct k d h = elim (Option-cases (get k d)) [
    | inl a ↦ rw (a, move_to_end) h
    | inr (v, p) ↦
        rw (p, move_to_end)
          (append_last-Distinct k v (pop k d) (get-pop_self k d) (pop-Distinct k d h))
  ]

  module _ (f : V → ℕ) where
    pub total-append : (c d : Dict K V) → total f (c ++ d) ≡ total f c + total f d
    unfolding total
    total-append [] d = omega arith
    total-append ((k, v) ∷ c) d = omega (arith, total-append c d)

    pub total-pop :
        (k : K) (d : Dict K V) → Distinct d → total f (pop k d) + weight f (get k d) ≡ total f d
    unfolding total pop get
    total-pop k [] h = refl
    total-pop k ((i, v) ∷ d) h = ground (arith, total-pop k d, pop_absent k d, e.beq_iff i k)

    pub total-put :
        (k : K) (v : V) (d : Dict K V) → total f (put k v d) + weight f (get k d) ≡ total f d + f v
    unfolding total put get
    total-put k v [] = omega arith
    total-put k v ((i, w) ∷ d) = ground (arith, total-put k v d)

    pub total-move : (k : K) (d : Dict K V) → Distinct d → total f (move_to_end k d) ≡ total f d
    unfolding move_to_end total
    total-move k d h = elim (Option-cases (get k d)) [
      | inl a ↦ rw (a, move_to_end)
      | inr (v, p) ↦ ground (arith, p, total-append (pop k d) ((k, v) ∷ []), total-pop k d h)
    ]

    -- A value that is there counts.
    pub get-le-total : (k : K) (v : V) (d : Dict K V) → get k d ≡ some v → f v ≤ total f d
    unfolding total get
    get-le-total k v [] h = cc
    get-le-total k v ((i, w) ∷ d) h = ground (arith, get-le-total k v d)

pub length-total {ℓ} : {K V : Type ℓ} (d : Dict K V) → length d ≡ total (λ _. 1) d
unfolding total
length-total [] = refl
length-total (x ∷ d) = omega (arith, length-total d)
