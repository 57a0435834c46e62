-- ===== src/Encoding.antt =====
-- `PrefixMatchCache` (traj_proxy/proxy_core/cache/prefix_cache.py) and the encoding of
-- `TokenConverter` (traj_proxy/proxy_core/converters/token_converter.py). The tokenizer and the
-- database are not part of the program: `encode` and the repository are arguments.
pub mod Best
pub mod Splits
pub mod Decoding
use trajproxy.Base.{
  ℕ, String, Bool, true, false, Option, none, some, List, [], ◌∷◌, ◌++◌, leb, if◌then◌else◌, length,
  drop,
}
use trajproxy.Models.{Result, ok, raise, Error, truthy}
use trajproxy.Texts.{Text, starts_with, or_empty}

-- A row of `get_prefix_candidates`.
pub record Candidate : Type 0 where
  pub full_conversation_text : Option Text
  pub full_conversation_token_ids : Option (List ℕ)

-- What the encoding reads and writes of `ProcessContext`.
pub record Context : Type 0 where
  pub session_id : Option String
  pub uncached_text : Text
  pub cached_token_ids : List ℕ
  pub uncached_token_ids : List ℕ
  pub cache_hit_tokens : ℕ

abbrev pub Repository : Type 0
Repository = String → Result (List Candidate)

unfoldable pub token_count : Candidate → ℕ
token_count c = length (or_empty c.full_conversation_token_ids)

-- `sorted(history, key=…, reverse=True)`, which keeps the order of equal keys.
unfoldable pub insert_by_count : Candidate → List Candidate → List Candidate
insert_by_count c [] = c ∷ []
insert_by_count c (d ∷ ds) =
    let rest = insert_by_count c ds in
    if leb (token_count d) (token_count c) then c ∷ d ∷ ds else d ∷ rest

unfoldable pub sort_by_count : List Candidate → List Candidate
unfolding insert_by_count
sort_by_count [] = []
sort_by_count (c ∷ cs) = insert_by_count c (sort_by_count cs)

-- The test of the loop: a text that is not empty and with which `text` starts.
unfoldable pub matches : Text → Candidate → Bool
matches text c = elim c.full_conversation_text [
  | none ↦ false
  | some [] ↦ false
  | some (x ∷ xs) ↦ starts_with text (x ∷ xs)
]

unfoldable pub first_match : Text → List Candidate → Option Candidate
first_match text [] = none
first_match text (c ∷ cs) =
    let rest = first_match text cs in if matches text c then some c else rest

unfoldable pub find_longest_prefix_match : Text → List Candidate → Option Candidate
unfolding sort_by_count first_match
find_longest_prefix_match text history = first_match text (sort_by_count history)

-- Everything is encoded: without a session, without a repository, or without a match.
unfoldable pub encode_all : (Text → List ℕ) → Text → Context → Result (List ℕ) × Context
encode_all encode text context =
    (ok (encode text), record context { uncached_token_ids = encode text })

unfoldable pub encode_rest :
    (Text → List ℕ) → Text → Candidate → Context → Result (List ℕ) × Context
encode_rest encode text matched context =
    let cached_tokens = or_empty matched.full_conversation_token_ids in
    let rest = drop (length (or_empty matched.full_conversation_text)) text in
    let uncached_tokens : List ℕ = elim rest [ [] ↦ [] | c ∷ cs ↦ encode (c ∷ cs) ] in
    (
      ok (cached_tokens ++ uncached_tokens),
      record context {
        cache_hit_tokens = length cached_tokens;
        cached_token_ids = cached_tokens;
        uncached_text = rest;
        uncached_token_ids = uncached_tokens;
      },
    )

unfoldable pub encode_matched :
    (Text → List ℕ) → Text → Option Candidate → Context → Result (List ℕ) × Context
unfolding encode_all encode_rest
encode_matched encode text none context = encode_all encode text context
encode_matched encode text (some matched) context = encode_rest encode text matched context

unfoldable pub encode_fetched :
    (Text → List ℕ) → Text → Result (List Candidate) → Context → Result (List ℕ) × Context
unfolding encode_matched find_longest_prefix_match
encode_fetched encode text (raise e) context = (raise e, context)
encode_fetched encode text (ok history) context =
    encode_matched encode text (find_longest_prefix_match text history) context

abbrev pub started : Text → Context → Context
started text context = record context { uncached_text = text; cached_token_ids = [] }

unfoldable pub encode_with_cache :
    (Text → List ℕ) → Text → Option Repository → Context → Result (List ℕ) × Context
unfolding encode_all encode_fetched
encode_with_cache encode text repository context = elim (truthy context.session_id) [
  | none ↦ encode_all encode text (started text context)
  | some session ↦ elim repository [
    | none ↦ encode_all encode text (started text context)
    | some repo ↦ encode_fetched encode text (repo session) (started text context)
  ]
]

-- `TokenConverter.encode`: with a `PrefixMatchCache` (over its repository), or without a strategy.
unfoldable pub encode_text :
    (Text → List ℕ) → Option (Option Repository) → Text → Context → Result (List ℕ) × Context
unfolding encode_with_cache encode_all
encode_text encode (some repository) text context = encode_with_cache encode text repository context
encode_text encode none text context = encode_all encode text (started text context)
