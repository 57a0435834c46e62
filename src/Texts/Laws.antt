-- ===== src/Texts/Laws.antt =====
-- What a search says of a text, and what is at the place that it finds.
use trajproxy.Base.{
  ℕ, suc, ◌+◌, ◌≡◌, refl, ap, true, some, [], ◌∷◌, ◌++◌, ◌==◌, nat_eq, nat_beq_iff, list_eq,
  list_beq_iff, ◌↔◌, length, take, drop, arith, inl, inr, Bool-cases, Option-cases,
}
use trajproxy.Texts.{Text, starts_with, find, or_none, or_empty}

pub starts_with-split : (t p : Text) → starts_with t p ≡ true → t ≡ p ++ drop (length p) t
unfolding starts_with
starts_with-split t [] h = refl
starts_with-split [] (p ∷ ps) h = ground (arith, h)
starts_with-split (c ∷ t) (p ∷ ps) h = ground (arith, h, nat_beq_iff c p, starts_with-split t ps)

pub starts_with-append : (p t : Text) → starts_with (p ++ t) p ≡ true
unfolding starts_with
starts_with-append [] t = refl
starts_with-append (c ∷ p) t = ground (arith, nat_beq_iff c c, starts_with-append p t)

-- Found: the text is what stands before, the pattern, and what stands behind.
pub find-split :
    (t p : Text) (i : ℕ) → find t p ≡ some i → t ≡ take i t ++ p ++ drop (i + length p) t
unfolding find
find-split [] [] i h = ground (arith, h)
find-split [] (x ∷ p) i h = ground (arith, h)
find-split (c ∷ t) p i h = elim (Bool-cases (starts_with (c ∷ t) p)) [
  | inl here ↦ ground (arith, h, here, starts_with-split (c ∷ t) p here)
  | inr later ↦ elim (Option-cases (find t p)) [
    | inl none_left ↦ ground (arith, h, later, none_left)
    | inr (j, e) ↦
        let next : i ≡ suc j = ground (arith, h, later, e) in
        let behind : i + length p ≡ suc (j + length p) = omega (arith, next) in
        rw (behind, next) (ap (◌∷◌ c) (find-split t p j e))
  ]
]

pub or_empty-or_none : (t : Text) → or_empty (or_none t) ≡ t
or_empty-or_none [] = refl
or_empty-or_none (c ∷ t) = refl

-- `==` on texts, for the tactics.
pub text_iff : (a b : Text) → ((a == b) ≡ true) ↔ (a ≡ b)
text_iff a b = list_beq_iff a b
