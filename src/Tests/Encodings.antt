-- ===== src/Tests/Encodings.antt =====
-- The theorems on the encoding at concrete inputs, with a tokenizer of one token for each character.
use trajproxy.Base.{ℕ, ◌≡◌, refl, true, some, List, [], ◌∷◌, All, arith, nat_beq, if◌then◌else◌}
use trajproxy.Models.{ok}
use trajproxy.Texts.{Text}
use trajproxy.Encoding.{
  Candidate, Context, Repository, token_count, matches, find_longest_prefix_match, sort_by_count,
  insert_by_count, first_match, encode_with_cache,
}
use trajproxy.Encoding.Best.{Fits, find_longest_prefix_match-best}
use trajproxy.Encoding.Splits.{IsSplit, encode_with_cache-IsSplit}
use trajproxy.Encoding.Decoding.{stream_init, decode_streaming, decode_streaming-interval, extend}
use trajproxy.Texts.{starts_with}

abbrev encode : Text → List ℕ
encode t = t

abbrev decode : List ℕ → Text
decode ids = ids

-- A tokenizer that drops a space (32) at the beginning of what it decodes.
abbrev trim : List ℕ → Text
trim [] = []
trim (t ∷ ts) = if nat_beq t 32 then ts else t ∷ ts

abbrev candidate : List ℕ → Candidate
candidate ids = record { full_conversation_text = some ids; full_conversation_token_ids = some ids }

abbrev history : List Candidate
history = candidate (1 ∷ []) ∷ candidate (1 ∷ 2 ∷ []) ∷ candidate (3 ∷ []) ∷ []

abbrev repository : Repository
repository session = ok history

abbrev context : Context
context = record {
  session_id = some "session";
  uncached_text = [];
  cached_token_ids = [];
  uncached_token_ids = [];
  cache_hit_tokens = 0;
}

find_longest_prefix_match-best_example :
    (matches (1 ∷ 2 ∷ 4 ∷ []) (candidate (1 ∷ 2 ∷ [])) ≡ true)
    × All (Fits (1 ∷ 2 ∷ 4 ∷ []) (candidate (1 ∷ 2 ∷ []))) history
unfolding find_longest_prefix_match sort_by_count insert_by_count first_match matches starts_with
    token_count
find_longest_prefix_match-best_example =
    find_longest_prefix_match-best (1 ∷ 2 ∷ 4 ∷ []) history (candidate (1 ∷ 2 ∷ [])) refl

encode_with_cache-IsSplit_example :
    IsSplit encode
      (1 ∷ 2 ∷ 4 ∷ [])
      history
      (encode_with_cache encode (1 ∷ 2 ∷ 4 ∷ []) (some repository) context)
encode_with_cache-IsSplit_example =
    encode_with_cache-IsSplit encode (1 ∷ 2 ∷ 4 ∷ []) repository history "session" context refl refl
      refl

-- The second chunk has the space at its beginning.
abbrev chunks : List (List ℕ)
chunks = (32 ∷ 1 ∷ 2 ∷ 3 ∷ 4 ∷ []) ∷ (32 ∷ 5 ∷ []) ∷ []

decode_streaming-interval_example :
    decode_streaming decode (3 ∷ []) (decode_streaming decode (1 ∷ 2 ∷ []) stream_init).1
    ≡ extend decode (1 ∷ 2 ∷ 3 ∷ []) (decode_streaming decode (1 ∷ 2 ∷ []) stream_init).1
unfolding stream_init
decode_streaming-interval_example =
    decode_streaming-interval decode (1 ∷ 2 ∷ []) (3 ∷ []) stream_init (omega arith)
