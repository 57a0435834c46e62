-- ===== src/Responses.antt =====
-- `InferResponseParser` (traj_proxy/proxy_core/infer_response_parser.py): what is read of a response
-- of the inference service. A dict with fixed keys is a record of `Entry`s; `J` are JSON values that
-- are only passed on. `choices` that is missing or None is as if it were empty.
pub mod Ints
pub mod Decimals
pub mod Prints
use trajproxy.Base.{
  ℕ, String, Bool, true, false, Option, none, some, List, [], ◌∷◌, if◌then◌else◌, ◌&&◌,
}
use trajproxy.Base.Dict.{Dict}
use trajproxy.Models.{Result, ok, raise, attribute_error, ◌>>=◌}
use trajproxy.Texts.{Text, or_empty}
use trajproxy.ToolCalls.{Entry, missing, null, value, is_missing, or_default}
use trajproxy.Direct.{Usage}
use trajproxy.Direct.Final.{stop}
use trajproxy.Responses.Ints.{ℤ, split, is_blank, parse_each}

module _ (J : Type 0) where
  -- The four arrays of the logprobs of a completion, and what else is in the dict.
  pub record InferLogprobs : Type 0 where
    pub tokens : Entry (List J)
    pub text_offset : Entry (List J)
    pub top_logprobs : Entry (List J)
    pub token_logprobs : Entry (List J)
    pub others : Dict String (Option J)

  -- `extras` are the entries that the pipeline does not know.
  pub record InferChoice : Type 0 where
    pub text : Entry Text
    pub token_ids : Entry (List ℤ)
    pub output_token_ids : Entry (List ℤ)
    pub tool_calls : Entry (List J)
    pub logprobs : Entry InferLogprobs
    pub finish_reason : Entry Text
    pub extras : Dict String (Option J)

  -- A response, or a chunk of a stream; `metadata` are the entries that the pipeline does not know.
  pub record InferChunk : Type 0 where
    pub metadata : Dict String (Option J)
    pub usage : Entry (Usage J)
    pub choices : List InferChoice

  -- The content, the token ids and the deltas of the tool calls.
  pub record Parsed : Type 0 where
    pub content : Option Text
    pub token_ids : Option (List ℤ)
    pub tool_calls : Option (List J)

-- The value of an entry that is there, None included.
abbrev pub or_none_value : {A : Type 0} → Entry A → Option A
or_none_value missing = none
or_none_value null = none
or_none_value (value a) = some a

-- `digit` is the decimal value of a character.
module _ (digit : ℕ → Option ℕ) where
  -- `parse_token_ids_from_text`; none where `int` raises `ValueError`
  unfoldable pub parse_token_ids_from_text : Text → Option (List ℤ)
  unfolding is_blank split parse_each
  parse_token_ids_from_text text = if is_blank text then some [] else parse_each digit (split text)

  -- The branch of `parse_stream_chunk` for a text: the content, and the token ids.
  unfoldable pub parse_text : Text → Bool → Text × List ℤ
  unfolding is_blank split parse_each
  parse_text text false = (text, [])
  parse_text text true =
      if is_blank text
      then ([], [])
      else elim (parse_each digit (split text)) [ none ↦ (text, []) | some ids ↦ ([], ids) ]

  -- None is no text: it has no method `strip`, and without the token mode it is the content.
  unfoldable pub parse_text_entry : Entry Text → Bool → Result (Option Text × List ℤ)
  unfolding parse_text
  parse_text_entry missing mode = ok (some [], [])
  parse_text_entry null true = raise attribute_error
  parse_text_entry null false = ok (none, [])
  parse_text_entry (value text) mode =
      let (content, ids) = parse_text text mode in ok (some content, ids)

module _ {J : Type 0} where
  -- The explicit ids replace what the text gave, also by None.
  unfoldable pub explicit_ids : InferChoice J → List ℤ → Option (List ℤ)
  explicit_ids choice ids = elim choice.token_ids [
    | value given ↦ some given
    | null ↦ none
    | missing ↦ elim choice.output_token_ids [
      | value given ↦ some given
      | null ↦ none
      | missing ↦ some ids
    ]
  ]

  abbrev nothing : Parsed J
  nothing = record { content = some []; token_ids = some []; tool_calls = none }

  unfoldable pub parse_choice : (ℕ → Option ℕ) → InferChoice J → Bool → Result (Parsed J)
  unfolding parse_text_entry explicit_ids
  parse_choice digit choice mode = do
    (content, ids) ← parse_text_entry digit choice.text mode
    ok (record {
      content = content;
      token_ids = explicit_ids choice ids;
      tool_calls = or_none_value choice.tool_calls;
    })

  unfoldable pub parse_stream_chunk : (ℕ → Option ℕ) → InferChunk J → Bool → Result (Parsed J)
  unfolding parse_choice
  parse_stream_chunk digit chunk mode = elim chunk.choices [
    | [] ↦ ok nothing
    | choice ∷ more ↦ parse_choice digit choice mode
  ]

  -- The text and the token ids of a response that is not streamed.
  unfoldable pub parse_text_response : InferChunk J → Option Text × Option (List ℤ)
  parse_text_response response = elim response.choices [
    | [] ↦ (some [], none)
    | choice ∷ more ↦ (or_default [] choice.text, or_none_value choice.token_ids)
  ]

  unfoldable pub is_stream_finished : InferChunk J → Bool
  is_stream_finished chunk = elim chunk.choices [
    | [] ↦ false
    | choice ∷ more ↦ elim choice.finish_reason [
      | missing ↦ false
      | null ↦ false
      | value reason ↦ true
    ]
  ]

  -- "stop" if there is none
  unfoldable pub get_finish_reason : InferChunk J → Option Text
  get_finish_reason chunk = elim chunk.choices [
    | [] ↦ some stop
    | choice ∷ more ↦ or_default stop choice.finish_reason
  ]

  -- The prompt, completion and total tokens; None has no method `get`.
  unfoldable pub extract_usage : InferChunk J → Result (Option ℕ × Option ℕ × Option ℕ)
  extract_usage response = elim response.usage [
    | missing ↦ ok (some 0, some 0, some 0)
    | null ↦ raise attribute_error
    | value u ↦ ok (
      or_default 0 u.prompt_tokens,
      or_default 0 u.completion_tokens,
      or_default 0 u.total_tokens,
    )
  ]
