-- ===== src/Pipeline/Replies/Formats.antt =====
-- The two formats in which a response brings its token ids (`_decode_response` of
-- traj_proxy/proxy_core/pipeline/token_pipeline.py).
use trajproxy.Base.{
  ℕ, ◌≤◌, ◌≡◌, refl, sym, ap, ◌∙◌, Bool, true, false, Option, none, some, List, [], ◌∷◌, All, ◌&&◌,
  if◌then◌else◌, length,
}
use trajproxy.Models.{ok, raise, type_error}
use trajproxy.Texts.{Text, or_empty}
use trajproxy.ToolCalls.{value, or_default}
use trajproxy.Responses.Ints.{ℤ}
use trajproxy.Responses.Decimals.{print_ids, decimal, magnitude}
use trajproxy.Responses.Prints.{IsDigits, parse_token_ids_from_text-print_ids}
use trajproxy.Responses.{
  InferChunk, InferChoice, parse_text_response, parse_token_ids_from_text, or_none_value,
}
use trajproxy.Pipeline.Replies.{
  ReplyContext, with_ids, decode_text, decode_parsed, measured, decode_response,
}

-- The response has this choice first.
abbrev pub answers :
    {J : Type 0} → InferChoice J → List (InferChoice J) → InferChunk J → InferChunk J
answers choice more r = record r { choices = choice ∷ more }

abbrev pub is_nil : {A : Type 0} → List A → Bool
is_nil [] = true
is_nil (x ∷ xs) = false

-- Neither a text nor token ids.
abbrev pub is_empty_reply : {J : Type 0} → InferChunk J → Bool
is_empty_reply r =
    is_nil (or_empty (parse_text_response r).0) && is_nil (or_empty (parse_text_response r).1)

module _ {J R : Type 0} (digit : ℕ → Option ℕ) (decode : List ℤ → Text) where
  -- Token ids in an entry of their own, whatever the text is.
  decode_response-ids :
      (choice : InferChoice J) (more : List (InferChoice J)) (r : InferChunk J) (z : ℤ)
      (zs : List ℤ) (c : ReplyContext J R)
      → choice.token_ids ≡ value (z ∷ zs)
      → decode_response digit decode (answers choice more r) c ≡ (ok tt, with_ids decode (z ∷ zs) c)
  unfolding decode_response decode_parsed parse_text_response
  decode_response-ids choice more r z zs c e = rw e refl

  decode_text-parsed :
      (t : Text) (z : ℤ) (zs : List ℤ) (c : ReplyContext J R)
      → parse_token_ids_from_text digit t ≡ some (z ∷ zs)
      → decode_text digit decode t c ≡ with_ids decode (z ∷ zs) c
  unfolding decode_text
  decode_text-parsed [] z zs c e = absurd (unfold parse_token_ids_from_text in cc (e))
  decode_text-parsed (x ∷ t) z zs c e = rw (e, decode_text) refl

  decode_parsed-text :
      (text : Option Text) (ids : Option (List ℤ)) (z : ℤ) (zs : List ℤ) (c : ReplyContext J R)
      → or_empty ids ≡ []
      → parse_token_ids_from_text digit (or_empty text) ≡ some (z ∷ zs)
      → decode_parsed digit decode (text, ids) c ≡ with_ids decode (z ∷ zs) c
  unfolding decode_parsed
  decode_parsed-text text ids z zs c e h =
      rw (e, decode_parsed) (decode_text-parsed (or_empty text) z zs c h)

  -- Token ids written in the text, with no entry for ids.
  decode_response-text :
      (table : IsDigits digit) (choice : InferChoice J) (more : List (InferChoice J))
      (r : InferChunk J) (z : ℤ) (zs : List ℤ) (c : ReplyContext J R)
      → All (λ z. length (decimal (magnitude z)) ≤ 4300) (z ∷ zs)
      → choice.text ≡ value (print_ids (z ∷ zs))
      → or_empty (or_none_value choice.token_ids) ≡ []
      → decode_response digit decode (answers choice more r) c ≡ (ok tt, with_ids decode (z ∷ zs) c)
  unfolding decode_response parse_text_response
  decode_response-text table choice more r z zs c h t e =
      let said : or_empty (or_default [] choice.text) ≡ print_ids (z ∷ zs) =
        ap (λ x. or_empty (or_default [] x)) t in
      let read =
        ap (parse_token_ids_from_text digit) said
        ∙ parse_token_ids_from_text-print_ids digit table (z ∷ zs) h in
      ap (λ (x : ReplyContext J R). (measured x.response_text, x))
        (decode_parsed-text (or_default [] choice.text) (or_none_value choice.token_ids) z zs c e
          read)

  -- A response that brings token ids in decimal in its text, a space between them, and none of its
  -- own, and one that brings the same ids as an entry, be its text what it may, are decoded alike:
  -- the ids and their text, special tokens included, stand in the context.
  pub decode_response-formats :
      (table : IsDigits digit) (a b : InferChoice J) (more more' : List (InferChoice J))
      (r r' : InferChunk J) (z : ℤ) (zs : List ℤ) (c : ReplyContext J R)
      → All (λ z. length (decimal (magnitude z)) ≤ 4300) (z ∷ zs)
      → a.text ≡ value (print_ids (z ∷ zs))
      → or_empty (or_none_value a.token_ids) ≡ []
      → b.token_ids ≡ value (z ∷ zs)
      → (decode_response digit decode (answers a more r) c
          ≡ decode_response digit decode (answers b more' r') c)
        × (decode_response digit decode (answers a more r) c ≡ (ok tt, with_ids decode (z ∷ zs) c))
  decode_response-formats table a b more more' r r' z zs c h t e v =
      let left = decode_response-text table a more r z zs c h t e in
      (left ∙ sym (decode_response-ids b more' r' z zs c v), left)

  -- The length of what is decoded: it is taken in vain exactly if there was nothing to decode.
  measured-decode_parsed :
      (text : Option Text) (ids : Option (List ℤ)) (c : ReplyContext J R)
      → c.response_text ≡ none
      → measured (decode_parsed digit decode (text, ids) c).response_text
        ≡ (if is_nil (or_empty text) && is_nil (or_empty ids) then raise type_error else ok tt)
  unfolding decode_parsed decode_text
  measured-decode_parsed text ids c n = go (or_empty ids) (or_empty text) refl refl
    where
      read :
          (x : ℕ) (t : Text) (m : Option (List ℤ))
          → parse_token_ids_from_text digit (x ∷ t) ≡ m
          → measured (decode_text digit decode (x ∷ t) c).response_text ≡ ok tt
      read x t none f = rw (f, decode_text) refl
      read x t (some zs) f = rw (f, decode_text) refl

      go :
          (zs : List ℤ) (t : Text)
          → or_empty ids ≡ zs
          → or_empty text ≡ t
          → measured (decode_parsed digit decode (text, ids) c).response_text
            ≡ (if is_nil (or_empty text) && is_nil (or_empty ids) then raise type_error else ok tt)
      go (z ∷ zs) [] e f = rw (e, decode_parsed) (rw f refl)
      go (z ∷ zs) (x ∷ t) e f = rw (e, decode_parsed) (rw f refl)
      go [] [] e f = rw (e, decode_parsed) (rw (f, decode_text) (ap measured n))
      go [] (x ∷ t) e f = rw (e, decode_parsed) (rw f (read x t _ refl))

  pub decode_response-raises :
      (r : InferChunk J) (c : ReplyContext J R)
      → c.response_text ≡ none
      → (decode_response digit decode r c).0
        ≡ (if is_empty_reply r then raise type_error else ok tt)
  unfolding decode_response
  decode_response-raises r c n =
      measured-decode_parsed (parse_text_response r).0 (parse_text_response r).1 c n
