-- ===== src/Responses/Ints.antt =====
-- Python's `str.split()` and `int(…)` as `InferResponseParser` uses them
-- (traj_proxy/proxy_core/infer_response_parser.py). Unicode's table of decimal digits is an argument.
use trajproxy.Base.{
  ℕ, zero, suc, ◌+◌, ◌*◌, Bool, true, false, Option, none, some, List, [], ◌∷◌, if◌then◌else◌, ◌&&◌,
  ◌||◌, leb, nat_beq, length,
}
use trajproxy.Texts.{Text}

-- `negsuc n` is -(n + 1).
pub data ℤ : Type 0 where
  pos : ℕ → ℤ
  negsuc : ℕ → ℤ

-- `str.isspace` of one character
unfoldable pub is_space : ℕ → Bool
is_space c =
    (leb 9 c && leb c 13)
    || (leb 28 c && leb c 32)
    || nat_beq c 133
    || nat_beq c 160
    || nat_beq c 5760
    || (leb 8192 c && leb c 8202)
    || nat_beq c 8232
    || nat_beq c 8233
    || nat_beq c 8239
    || nat_beq c 8287
    || nat_beq c 12288

-- `not text.strip()`
unfoldable pub is_blank : Text → Bool
unfolding is_space
is_blank [] = true
is_blank (c ∷ t) = is_space c && is_blank t

abbrev pub add_word : Text → List Text → List Text
add_word [] words = words
add_word (c ∷ w) words = (c ∷ w) ∷ words

-- The word that the text begins with, and the words behind it.
unfoldable pub cut : Text → Text × List Text
unfolding is_space
cut [] = ([], [])
cut (c ∷ t) =
    let (word, words) = cut t in if is_space c then ([], add_word word words) else (c ∷ word, words)

-- `text.split()`, which is also `text.strip().split()`
unfoldable pub split : Text → List Text
unfolding cut
split t = let (word, words) = cut t in add_word word words

abbrev pub add_digit : Option ℕ → Option (List ℕ) → Option (List ℕ)
add_digit none ds = none
add_digit (some d) none = none
add_digit (some d) (some ds) = some (d ∷ ds)

-- ds read after the number `acc`
unfoldable pub value_from : ℕ → List ℕ → ℕ
value_from acc [] = acc
value_from acc (d ∷ ds) = value_from (acc * 10 + d) ds

-- -n
unfoldable pub negate : ℕ → ℤ
negate zero = pos 0
negate (suc n) = negsuc n

-- Text with more than 4300 digits is refused (`sys.int_info.default_max_str_digits`).
unfoldable pub number_of : (ℕ → ℤ) → Option (List ℕ) → Option ℤ
unfolding value_from
number_of sign none = none
number_of sign (some ds) = if leb (length ds) 4300 then some (sign (value_from 0 ds)) else none

abbrev pub add_int : Option ℤ → Option (List ℤ) → Option (List ℤ)
add_int none zs = none
add_int (some z) none = none
add_int (some z) (some zs) = some (z ∷ zs)

module _ (digit : ℕ → Option ℕ) where
  -- The digits; one underscore may stand between two of them. The flag is set where a digit must come.
  unfoldable pub digits_from : Bool → Text → Option (List ℕ)
  digits_from true [] = none
  digits_from false [] = some []
  digits_from must (c ∷ t) =
      let rest = digits_from (nat_beq c b'_') t in
      if nat_beq c b'_' then (if must then none else rest) else add_digit (digit c) rest

  -- `int(word)`, where the word has no space; none is `ValueError`
  unfoldable pub to_int : Text → Option ℤ
  unfolding digits_from number_of negate
  to_int [] = none
  to_int (c ∷ t) =
      if nat_beq c b'-'
      then number_of negate (digits_from true t)
      else if nat_beq c b'+'
      then number_of pos (digits_from true t)
      else number_of pos (digits_from true (c ∷ t))

  -- `[int(tid) for tid in words]`
  unfoldable pub parse_each : List Text → Option (List ℤ)
  unfolding to_int
  parse_each [] = some []
  parse_each (w ∷ ws) = add_int (to_int w) (parse_each ws)
