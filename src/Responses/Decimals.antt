-- ===== src/Responses/Decimals.antt =====
-- Numbers written in decimal, and the words of a text that spaces cut (Python's `str`).
use trajproxy.Base.{
  ℕ, zero, suc, ◌+◌, ◌*◌, ◌/◌, ◌<◌, ◌≡◌, refl, true, false, List, [], ◌∷◌, ◌++◌, map, if◌then◌else◌,
  ltb, All, arith, append-nil,
}
use Prim.Native.Nat.{◌%◌}
use trajproxy.Texts.{Text}
use trajproxy.Responses.Ints.{ℤ, pos, negsuc, is_space, is_blank, add_word, cut, split, value_from}

-- The digits of n < 10 ^ fuel; the fuel n + 1 is enough.
unfoldable pub digits : ℕ → ℕ → List ℕ
digits zero n = []
digits (suc fuel) n =
    let rest = digits fuel (n / 10) in if ltb n 10 then n ∷ [] else rest ++ (n % 10) ∷ []

unfoldable pub decimal : ℕ → List ℕ
unfolding digits
decimal n = digits (suc n) n

abbrev pub to_chars : List ℕ → Text
to_chars ds = map (λ (d : ℕ). 48 + d) ds

unfoldable pub print_int : ℤ → Text
unfolding decimal
print_int (pos n) = to_chars (decimal n)
print_int (negsuc n) = b'-' ∷ to_chars (decimal (suc n))

unfoldable pub print_ids : List ℤ → Text
unfolding print_int
print_ids [] = []
print_ids (z ∷ []) = print_int z
print_ids (z ∷ y ∷ zs) = print_int z ++ 32 ∷ print_ids (y ∷ zs)

abbrev pub magnitude : ℤ → ℕ
magnitude (pos n) = n
magnitude (negsuc n) = suc n

pub value_from-append :
    (acc : ℕ) (xs ys : List ℕ) → value_from acc (xs ++ ys) ≡ value_from (value_from acc xs) ys
unfolding value_from
value_from-append acc [] ys = refl
value_from-append acc (x ∷ xs) ys = value_from-append (acc * 10 + x) xs ys

pub value_from-digits : (fuel n : ℕ) → n < fuel → value_from 0 (digits fuel n) ≡ n
unfolding digits value_from
value_from-digits zero n h = ground (arith, h)
value_from-digits (suc fuel) n h = ground (
  arith,
  h,
  value_from-digits fuel (n / 10),
  value_from-append 0 (digits fuel (n / 10)) ((n % 10) ∷ []),
)

-- Below a bound.
abbrev pub Small : ℕ → Type 0
Small d = d < 10

pub All-append : (xs ys : List ℕ) → All Small xs → All Small ys → All Small (xs ++ ys)
All-append [] ys h k = k
All-append (x ∷ xs) ys h k = (h.0, All-append xs ys h.1 k)

pub digits-Small : (fuel n : ℕ) → All Small (digits fuel n)
unfolding digits
digits-Small zero n = tt
digits-Small (suc fuel) n =
    elim (ltb n 10)
        as (λ b.
          ltb n 10 ≡ b → All Small (if b then n ∷ [] else digits fuel (n / 10) ++ (n % 10) ∷ [])) [
            | true ↦ λ h. (ground (arith, h), tt)
            | false ↦ λ h.
                All-append (digits fuel (n / 10)) _ (digits-Small fuel (n / 10)) (omega arith, tt)
          ]
      refl

-- A list with an element.
abbrev pub NotNil : List ℕ → Type 0
NotNil [] = ⊥
NotNil (x ∷ xs) = Unit {0}

pub NotNil-snoc : (xs : List ℕ) (x : ℕ) → NotNil (xs ++ x ∷ [])
NotNil-snoc [] x = tt
NotNil-snoc (y ∷ xs) x = tt

pub digits-NotNil : (fuel n : ℕ) → NotNil (digits (suc fuel) n)
unfolding digits
digits-NotNil fuel n =
    elim (ltb n 10) as (λ b. NotNil (if b then n ∷ [] else digits fuel (n / 10) ++ (n % 10) ∷ [])) [
      | true ↦ tt
      | false ↦ NotNil-snoc (digits fuel (n / 10)) (n % 10)
    ]

-- A text that is not empty and has no space.
abbrev pub NoSpace : Text → Type 0
NoSpace = All (λ c. is_space c ≡ false)

pub to_chars-NoSpace : (ds : List ℕ) → All Small ds → NoSpace (to_chars ds)
unfolding is_space
to_chars-NoSpace [] h = tt
to_chars-NoSpace (d ∷ ds) h = (ground (arith, h), to_chars-NoSpace ds h.1)

abbrev pub IsWord : Text → Type 0
IsWord w = NotNil w × NoSpace w

pub to_chars-NotNil : (ds : List ℕ) → NotNil ds → NotNil (to_chars ds)
to_chars-NotNil [] h = h
to_chars-NotNil (d ∷ ds) h = tt

pub print_int-IsWord : (z : ℤ) → IsWord (print_int z)
unfolding print_int decimal
print_int-IsWord (pos n) = (
  to_chars-NotNil (digits (suc n) n) (digits-NotNil n n),
  to_chars-NoSpace (digits (suc n) n) (digits-Small (suc n) n),
)
print_int-IsWord (negsuc n) =
    unfold is_space in
    (
      tt,
      (refl, to_chars-NoSpace (digits (suc (suc n)) (suc n)) (digits-Small (suc (suc n)) (suc n))),
    )

pub cut-word : (w : Text) → NoSpace w → cut w ≡ (w, [])
unfolding cut
cut-word [] h = refl
cut-word (c ∷ w) h = rw (cut-word w h.1, h.0) refl

pub cut-more : (w t : Text) → NoSpace w → cut (w ++ 32 ∷ t) ≡ (w, split t)
unfolding cut split is_space
cut-more [] t h = refl
cut-more (c ∷ w) t h = rw (cut-more w t h.1, h.0) refl

pub add_word-NotNil : (w : Text) (ws : List Text) → NotNil w → add_word w ws ≡ w ∷ ws
add_word-NotNil [] ws h = absurd h
add_word-NotNil (c ∷ w) ws h = refl

pub split-one : (w : Text) → IsWord w → split w ≡ w ∷ []
unfolding split
split-one w h = rw (cut-word w h.1) (add_word-NotNil w [] h.0)

pub split-more : (w t : Text) → IsWord w → split (w ++ 32 ∷ t) ≡ w ∷ split t
unfolding split
split-more w t h = rw (cut-more w t h.1) (add_word-NotNil w _ h.0)

pub is_blank-word : (w t : Text) → IsWord w → is_blank (w ++ t) ≡ false
unfolding is_blank
is_blank-word [] t h = absurd h.0
is_blank-word (c ∷ w) t h = ground (arith, h.1.0)

pub is_blank-print_ids : (z : ℤ) (zs : List ℤ) → is_blank (print_ids (z ∷ zs)) ≡ false
unfolding print_ids
is_blank-print_ids z [] = rw append-nil at (is_blank-word (print_int z) [] (print_int-IsWord z))
is_blank-print_ids z (y ∷ zs) = is_blank-word (print_int z) _ (print_int-IsWord z)
