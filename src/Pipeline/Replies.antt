-- ===== src/Pipeline/Replies.antt =====
-- `process` of traj_proxy/proxy_core/pipeline/token_pipeline.py, a request that is not streamed, and
-- `_store_trajectory` and `_handle_error` of traj_proxy/proxy_core/pipeline/base.py. `R` are the
-- responses of the builder.
pub mod Formats
pub mod Runs
pub mod Held
pub mod Results
use trajproxy.Base.{
  ℕ, ◌+◌, Bool, true, false, Option, none, some, List, [], ◌∷◌, ◌++◌, if◌then◌else◌, length,
}
use trajproxy.Models.{
  Result, ok, raise, Error, type_error, attribute_error, is_database_error, ◌>>=◌,
}
use trajproxy.Texts.{Text, or_empty}
use trajproxy.ToolCalls.{Entry, missing, null, value, or_default}
use trajproxy.Direct.{Usage}
use trajproxy.Responses.Ints.{ℤ}
use trajproxy.Responses.{InferChunk, parse_text_response, parse_token_ids_from_text}

-- The fields of the context that such a request fills.
pub record ReplyContext (J R : Type 0) : Type 0 where
  pub prompt_text : Option Text
  pub token_ids : Option (List ℤ)
  pub prompt_tokens : Option ℕ
  pub token_response : Option (InferChunk J)
  pub response_text : Option Text
  pub response_ids : Option (List ℤ)
  pub completion_tokens : Option ℕ
  pub total_tokens : Option ℕ
  pub raw_response : Option R
  pub full_conversation_text : Option Text
  pub full_conversation_token_ids : Option (List ℤ)
  pub error : Option Error

-- What the parts of the pipeline do: `decode_all` keeps the special tokens, `create` makes the
-- parser and `build_reply` the response with it.
pub record Parts (J R P : Type 0) : Type 0 where
  pub transform : Result Text
  pub encode : Text → Result (List ℤ)
  pub infer : List ℤ → Result (InferChunk J)
  pub digit : ℕ → Option ℕ
  pub decode_clean : List ℤ → Text
  pub decode_all : List ℤ → Text
  pub create : Result P
  pub build_reply : P → Text → ReplyContext J R → Result R
  pub store_row : Option (ReplyContext J R → Result (Unit {0}))

-- A stage returns or raises, and leaves a context.
abbrev pub Stage : Type 0 → Type 0 → Type 0
Stage J R = ReplyContext J R → Result (Unit {0}) × ReplyContext J R

-- `len(context.response_text)` raises for None.
abbrev pub measured : Option Text → Result (Unit {0})
measured none = raise type_error
measured (some t) = ok tt

abbrev pub ids_or : {A : Type 0} → A → (List ℤ → A) → Option (List ℤ) → A
ids_or other f ids = elim (or_empty ids) [ [] ↦ other | z ∷ zs ↦ f (z ∷ zs) ]

abbrev pub joined_conversation : Option (List ℤ) → Option (List ℤ) → Option (List ℤ)
joined_conversation prompt ids = ids_or prompt (λ r. ids_or prompt (λ p. some (p ++ r)) prompt) ids

module _ {J R : Type 0} where
  abbrev pub run_next :
      Stage J R → Result (Unit {0}) × ReplyContext J R → Result (Unit {0}) × ReplyContext J R
  run_next next (raise e, c) = (raise e, c)
  run_next next (ok u, c) = next c

  -- One stage after the other; an exception ends the chain.
  infixl 5 ◌then_do◌
  abbrev pub ◌then_do◌ : Stage J R → Stage J R → Stage J R
  (first then_do next) c = run_next next (first c)

  -- The stage of a value that may not come.
  abbrev pub put_result :
      {A : Type 0} → (A → ReplyContext J R → ReplyContext J R) → Result A → Stage J R
  put_result set (ok a) c = (ok tt, set a c)
  put_result set (raise e) c = (raise e, c)

  abbrev pub with_ids : (List ℤ → Text) → List ℤ → ReplyContext J R → ReplyContext J R
  with_ids decode ids c = record c { response_ids = some ids; response_text = some (decode ids) }

  -- The text of the standard format is a list of token ids, or it is taken as it is.
  unfoldable pub decode_text :
      (ℕ → Option ℕ) → (List ℤ → Text) → Text → ReplyContext J R → ReplyContext J R
  unfolding parse_token_ids_from_text
  decode_text digit decode [] c = c
  decode_text digit decode (x ∷ t) c = elim (parse_token_ids_from_text digit (x ∷ t)) [
    | some ids ↦ with_ids decode ids c
    | none ↦ record c { response_text = some (x ∷ t); response_ids = none }
  ]

  -- The ids of the response, if there are any, else its text.
  unfoldable pub decode_parsed :
      (ℕ → Option ℕ)
      → (List ℤ → Text)
      → Option Text × Option (List ℤ)
      → ReplyContext J R
      → ReplyContext J R
  unfolding decode_text
  decode_parsed digit decode (text, ids) c = elim (or_empty ids) [
    | z ∷ zs ↦ with_ids decode (z ∷ zs) c
    | [] ↦ decode_text digit decode (or_empty text) c
  ]

  -- `_decode_response`
  unfoldable pub decode_response : (ℕ → Option ℕ) → (List ℤ → Text) → InferChunk J → Stage J R
  unfolding decode_parsed parse_text_response
  decode_response digit decode response c =
      let c' = decode_parsed digit decode (parse_text_response response) c in
      (measured c'.response_text, c')

  abbrev pub with_counts : Option ℕ → Option ℕ → ReplyContext J R → ReplyContext J R
  with_counts completion total c = record c { completion_tokens = completion; total_tokens = total }

  -- `_update_stats`: the usage of the service, or the numbers of tokens.
  unfoldable pub update_stats : Entry (Usage J) → Stage J R
  update_stats missing c =
      let completion = length (or_empty c.response_ids) in
      let prompt = length (or_empty c.token_ids) in
      (
        ok tt,
        with_counts (some completion) (some (prompt + completion))
            (record c { prompt_tokens = some prompt }),
      )
  update_stats null c = (raise attribute_error, c)
  update_stats (value u) c =
      (ok tt, with_counts (or_default 0 u.completion_tokens) (or_default 0 u.total_tokens) c)

  -- The conversation, as it is stored; the texts are there by now.
  unfoldable pub conclude_reply : (List ℤ → Text) → R → ReplyContext J R → ReplyContext J R
  conclude_reply decode_all response c =
      let text = ids_or (or_empty c.response_text) decode_all c.response_ids in
      record c {
        raw_response = some response;
        response_text = some text;
        full_conversation_text = some (or_empty c.prompt_text ++ text);
        full_conversation_token_ids = joined_conversation c.token_ids c.response_ids;
      }

  -- `_build_response`
  unfoldable pub build_response : {P : Type 0} → Parts J R P → P → Stage J R
  unfolding conclude_reply
  build_response parts p c =
      put_result (conclude_reply parts.decode_all)
        (parts.build_reply p (ids_or (or_empty c.response_text) parts.decode_clean c.response_ids)
          c)
        c

  unfoldable pub transform_messages : {P : Type 0} → Parts J R P → Stage J R
  transform_messages parts = put_result (λ t c. record c { prompt_text = some t }) parts.transform

  abbrev pub with_prompt : List ℤ → ReplyContext J R → ReplyContext J R
  with_prompt ids c = record c { token_ids = some ids; prompt_tokens = some (length ids) }

  unfoldable pub encode_prompt : {P : Type 0} → Parts J R P → Stage J R
  encode_prompt parts c = put_result with_prompt (parts.encode (or_empty c.prompt_text)) c

  unfoldable pub infer_reply : {P : Type 0} → Parts J R P → Stage J R
  infer_reply parts c =
      put_result (λ r c. record c { token_response = some r }) (parts.infer (or_empty c.token_ids))
        c

  -- The response is there by now: None is no dict.
  unfoldable pub decode_stage : {P : Type 0} → Parts J R P → Stage J R
  unfolding decode_response
  decode_stage parts c = elim c.token_response [
    | none ↦ (raise type_error, c)
    | some response ↦ decode_response parts.digit parts.decode_all response c
  ]

  unfoldable pub stats_from : Option (InferChunk J) → Stage J R
  unfolding update_stats
  stats_from none = update_stats missing
  stats_from (some response) = update_stats response.usage

  unfoldable pub stats_stage : Stage J R
  unfolding stats_from
  stats_stage c = stats_from c.token_response c

  unfoldable pub build_stage : {P : Type 0} → Parts J R P → Stage J R
  unfolding build_response
  build_stage parts c = elim parts.create [
    | raise e ↦ (raise e, c)
    | ok p ↦ build_response parts p c
  ]

  -- The stages of `process` before the trajectory is stored.
  unfoldable pub reply_stages : {P : Type 0} → Parts J R P → Stage J R
  unfolding transform_messages encode_prompt infer_reply decode_stage stats_stage build_stage
  reply_stages parts =
      transform_messages parts
      then_do encode_prompt parts
      then_do infer_reply parts
      then_do decode_stage parts
      then_do stats_stage
      then_do build_stage parts
