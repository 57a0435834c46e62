-- ===== src/Texts.antt =====
-- Python's `str` as the list of its code points: the searches and slices that the program uses.
pub mod Laws
use trajproxy.Base.{
  ℕ, suc, ◌+◌, Bool, true, false, Option, none, some, List, [], ◌∷◌, ◌++◌, ◌&&◌, ◌==◌, nat_eq,
  if◌then◌else◌, length, take, drop,
}

abbrev pub Text : Type 0
Text = List ℕ

-- text.startswith(p)
unfoldable pub starts_with : Text → Text → Bool
starts_with t [] = true
starts_with [] (p ∷ ps) = false
starts_with (c ∷ t) (p ∷ ps) = c == p && starts_with t ps

-- text.find(p), `none` for -1
unfoldable pub find : Text → Text → Option ℕ
unfolding starts_with
find [] p = if starts_with [] p then some 0 else none
find (c ∷ t) p =
    let rest = find t p in
    if starts_with (c ∷ t) p then some 0 else elim rest [ none ↦ none | some i ↦ some (suc i) ]

-- `p in text`
abbrev pub includes : Text → Text → Bool
includes t p = elim (find t p) [ none ↦ false | some i ↦ true ]

-- `x or None`, and the text of a value that may be missing
abbrev pub or_none : Text → Option Text
or_none [] = none
or_none (c ∷ t) = some (c ∷ t)

abbrev pub or_empty {ℓ} : {A : Type ℓ} → Option (List A) → List A
or_empty none = []
or_empty (some t) = t
