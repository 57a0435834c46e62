-- ===== src/Encoding/Splits.antt =====
-- The answers of `encode_with_cache`, compared with the text.
use trajproxy.Base.{
  ℕ, ◌≡◌, refl, sym, String, true, false, Option, none, some, List, [], ◌∷◌, ◌++◌, length, drop,
  All, arith,
}
use trajproxy.Models.{Result, ok, truthy}
use trajproxy.Texts.{Text, starts_with, or_empty}
use trajproxy.Texts.Laws.{starts_with-split}
use trajproxy.Encoding.{
  Candidate, Context, Repository, matches, encode_all, encode_rest, encode_matched, encode_fetched,
  encode_with_cache, find_longest_prefix_match, started,
}
use trajproxy.Encoding.Best.{Fits, find_longest_prefix_match-best, find_longest_prefix_match-none}

matches-split :
    (text : Text) (c : Candidate)
    → matches text c ≡ true
    → text
      ≡ or_empty c.full_conversation_text ++ drop (length (or_empty c.full_conversation_text)) text
unfolding matches
matches-split text c h = go c.full_conversation_text h
  where
    go :
        (o : Option Text)
        → (elim o [ none ↦ false | some [] ↦ false | some (x ∷ xs) ↦ starts_with text (x ∷ xs) ])
          ≡ true
        → text ≡ or_empty o ++ drop (length (or_empty o)) text
    go none e = ground (arith, e)
    go (some []) e = ground (arith, e)
    go (some (x ∷ xs)) e = starts_with-split text (x ∷ xs) e

-- The text and the tokens that a match brings.
abbrev pub cached_text : Option Candidate → Text
cached_text none = []
cached_text (some c) = or_empty c.full_conversation_text

abbrev pub cached_ids : Option Candidate → List ℕ
cached_ids none = []
cached_ids (some c) = or_empty c.full_conversation_token_ids

-- The text starts with the match, and no other candidate with which it starts has more tokens;
-- without a match it starts with no candidate.
abbrev pub IsBest : Text → List Candidate → Option Candidate → Type 0
IsBest text history none = All (λ d. matches text d ≡ false) history
IsBest text history (some c) = (matches text c ≡ true) × All (Fits text c) history

-- What an answer says of the context that it leaves.
pub record IsSplit (encode : Text → List ℕ) (text : Text) (history : List Candidate)
    (r : Result (List ℕ) × Context) : Type 0 where
  pub found : Option Candidate
  pub chosen : find_longest_prefix_match text history ≡ found
  pub best : IsBest text history found
  pub whole : text ≡ cached_text found ++ r.1.uncached_text
  pub cached : r.1.cached_token_ids ≡ cached_ids found
  pub uncached : r.1.uncached_token_ids ≡ encode r.1.uncached_text
  pub tokens : r.0 ≡ ok (r.1.cached_token_ids ++ r.1.uncached_token_ids)

module _ (encode : Text → List ℕ) where
  encode_rest-IsSplit :
      (text : Text) (history : List Candidate) (c : Candidate) (x : Context)
      → encode [] ≡ []
      → find_longest_prefix_match text history ≡ some c
      → IsSplit encode text history (encode_rest encode text c x)
  unfolding encode_rest
  encode_rest-IsSplit text history c x h e =
      let best = find_longest_prefix_match-best text history c e in
      record {
        found = some c;
        chosen = e;
        best = best;
        whole = matches-split text c best.0;
        cached = refl;
        uncached = go (drop (length (or_empty c.full_conversation_text)) text);
        tokens = refl;
      }
    where
      go : (t : Text) → (elim t [ [] ↦ [] | c ∷ cs ↦ encode (c ∷ cs) ]) ≡ encode t
      go [] = sym h
      go (c ∷ cs) = refl

  encode_all-IsSplit :
      (text : Text) (history : List Candidate) (x : Context)
      → find_longest_prefix_match text history ≡ none
      → IsSplit encode text history (encode_all encode text (started text x))
  unfolding encode_all
  encode_all-IsSplit text history x e = record {
    found = none;
    chosen = e;
    best = find_longest_prefix_match-none text history e;
    whole = refl;
    cached = refl;
    uncached = refl;
    tokens = refl;
  }

  -- If the empty text has no tokens, with a session and a repository that answers: the answer is the
  -- stored tokens of the match followed by the encoding of the rest of the text, which is what
  -- follows the match's text in it. The match is a candidate with which the text starts, with the
  -- most tokens of those, and there is none only if the text starts with no candidate.
  pub encode_with_cache-IsSplit :
      (text : Text) (repo : Repository) (history : List Candidate) (session : String) (x : Context)
      → encode [] ≡ []
      → truthy x.session_id ≡ some session
      → repo session ≡ ok history
      → IsSplit encode text history (encode_with_cache encode text (some repo) x)
  unfolding encode_with_cache encode_fetched encode_matched
  encode_with_cache-IsSplit text repo history session x h s r =
      rw (s, encode_with_cache)
        (rw (r, encode_fetched) (go (find_longest_prefix_match text history) refl))
    where
      go :
          (found : Option Candidate)
          → find_longest_prefix_match text history ≡ found
          → IsSplit encode text history (encode_matched encode text found (started text x))
      go none e = encode_all-IsSplit text history x e
      go (some c) e = encode_rest-IsSplit text history c (started text x) h e
