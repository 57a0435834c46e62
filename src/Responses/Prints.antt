-- ===== src/Responses/Prints.antt =====
-- Token ids written in decimal with a space between them, and what is read of such a text.
use trajproxy.Base.{
  ℕ, suc, ◌+◌, ◌≤◌, ◌<◌, ◌≡◌, refl, ◌∙◌, true, false, Option, some, List, [], ◌∷◌, length, All,
  arith,
}
use trajproxy.Responses.Ints.{
  ℤ, pos, negsuc, cut, split, negate, number_of, digits_from, to_int, parse_each,
}
use trajproxy.Responses.{parse_token_ids_from_text}
use trajproxy.Responses.Decimals.{
  digits, decimal, to_chars, print_int, print_ids, magnitude, value_from-digits, Small,
  digits-Small, NotNil, digits-NotNil, print_int-IsWord, split-one, split-more, is_blank-print_ids,
}

-- What is used of Unicode's table of decimal digits: its ASCII digits.
pub record IsDigits (digit : ℕ → Option ℕ) : Type 0 where
  pub ascii : (d : ℕ) → d < 10 → digit (48 + d) ≡ some d

module _ (digit : ℕ → Option ℕ) (table : IsDigits digit) where
  digits_from-chars : (ds : List ℕ) → All Small ds → digits_from digit false (to_chars ds) ≡ some ds
  unfolding digits_from
  digits_from-chars [] h = refl
  digits_from-chars (d ∷ ds) h = ground (arith, h, table.ascii d h.0, digits_from-chars ds h.1)

  digits_from-first :
      (ds : List ℕ) → NotNil ds → All Small ds → digits_from digit true (to_chars ds) ≡ some ds
  unfolding digits_from
  digits_from-first [] n h = absurd n
  digits_from-first (d ∷ ds) n h = ground (arith, h, table.ascii d h.0, digits_from-chars ds h.1)

  to_int-chars :
      (ds : List ℕ)
      → NotNil ds
      → All Small ds
      → to_int digit (to_chars ds) ≡ number_of pos (some ds)
  unfolding to_int
  to_int-chars [] n h = absurd n
  to_int-chars (d ∷ ds) n h = ground (arith, h, digits_from-first (d ∷ ds) n h)

  to_int-minus :
      (ds : List ℕ)
      → NotNil ds
      → All Small ds
      → to_int digit (b'-' ∷ to_chars ds) ≡ number_of negate (some ds)
  unfolding to_int
  to_int-minus ds n h = rw (digits_from-first ds n h) refl

  -- An integer of at most 4300 digits is read back.
  to_int-print_int :
      (z : ℤ) → length (decimal (magnitude z)) ≤ 4300 → to_int digit (print_int z) ≡ some z
  unfolding print_int decimal
  to_int-print_int (pos n) h =
      to_int-chars (digits (suc n) n) (digits-NotNil n n) (digits-Small (suc n) n)
      ∙ unfold number_of in ground (arith, h, value_from-digits (suc n) n)
  to_int-print_int (negsuc n) h =
      to_int-minus (digits (suc (suc n)) (suc n)) (digits-NotNil (suc n) (suc n))
        (digits-Small (suc (suc n)) (suc n))
      ∙ unfold number_of in
        unfold negate in ground (arith, h, value_from-digits (suc (suc n)) (suc n))

  -- The words of a text that a space cuts.
  parse_each-print_ids :
      (zs : List ℤ)
      → All (λ z. length (decimal (magnitude z)) ≤ 4300) zs
      → parse_each digit (split (print_ids zs)) ≡ some zs
  unfolding print_ids parse_each
  parse_each-print_ids [] h = unfold split in unfold cut in refl
  parse_each-print_ids (z ∷ []) h =
      ground (arith, split-one (print_int z) (print_int-IsWord z), to_int-print_int z h.0)
  parse_each-print_ids (z ∷ y ∷ zs) h = ground (
    arith,
    split-more (print_int z) (print_ids (y ∷ zs)) (print_int-IsWord z),
    to_int-print_int z h.0,
    parse_each-print_ids (y ∷ zs) h.1,
  )

  -- Any token ids of at most 4300 digits each, written in decimal with a space between them, are
  -- read back.
  pub parse_token_ids_from_text-print_ids :
      (zs : List ℤ)
      → All (λ z. length (decimal (magnitude z)) ≤ 4300) zs
      → parse_token_ids_from_text digit (print_ids zs) ≡ some zs
  unfolding parse_token_ids_from_text
  parse_token_ids_from_text-print_ids [] h = unfold print_ids in refl
  parse_token_ids_from_text-print_ids (z ∷ zs) h =
      ground (arith, is_blank-print_ids z zs, parse_each-print_ids (z ∷ zs) h)
