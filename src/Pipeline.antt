-- ===== src/Pipeline.antt =====
-- `_process_stream_chunk` of traj_proxy/proxy_core/pipeline/token_pipeline.py, with `build_chunk` of
-- traj_proxy/proxy_core/builders/stream_builder.py. The tokenizer's `decode` (without special
-- tokens), the decimal digits of Unicode and the parser of the request are arguments: `P` are the
-- states of the parser, `J` JSON values that are only passed on.
pub mod Chunks
pub mod Streams
pub mod Whole
pub mod Replies
pub mod Told
pub mod Sent
pub mod Kept
pub mod Stored
use trajproxy.Base.{
  ℕ, suc, Bool, true, false, Option, none, some, List, [], ◌∷◌, ◌++◌, String, string_eq,
  if◌then◌else◌, ◌&&◌, ◌||◌, not, nat_beq, is_some,
}
use trajproxy.Base.Dict.{Dict}
use trajproxy.Models.{Result, ok, raise, attribute_error, parser_error, ◌>>=◌}
use trajproxy.Texts.{Text, or_empty}
use trajproxy.ToolCalls.{Entry, missing, null, value, is_missing, Piece}
use trajproxy.Encoding.Decoding.{Stream, decode_streaming}
use trajproxy.Direct.{Usage, put_given, is_empty_usage, is_empty_dict}
use trajproxy.Responses.Ints.{ℤ}
use trajproxy.Responses.{
  InferChunk, InferChoice, InferLogprobs, Parsed, parse_stream_chunk, is_stream_finished,
  get_finish_reason,
}

-- What `parse_delta` returns, its tool calls as the dicts that are made of them.
pub record DeltaMessage : Type 0 where
  pub content : Option Text
  pub reasoning : Option Text
  pub tool_calls : List Piece

-- The interface of the parser of a request. `called` is whether it has a tool parser that has seen
-- a call.
pub record Parser (P : Type 0) : Type 0 where
  pub parse : P → Text → List ℤ → Option (List ℤ) → Result (Option DeltaMessage) × P
  pub called : P → Bool
  pub has_reasoning : P → Bool
  pub is_reasoning_end : P → List ℤ → Bool
  pub reasoning_ended : P → Bool

-- The deltas of the parser, or those of the chunk.
pub data Calls (J : Type 0) : Type 0 where
  from_parser : List Piece → Calls J
  from_chunk : List J → Calls J

-- The choice of a chunk that is sent: its delta, and the reason to finish.
pub record SentChunk (J : Type 0) : Type 0 where
  pub role : Bool
  pub content : Option Text
  pub reasoning : Option Text
  pub tool_calls : Option (Calls J)
  pub finish_reason : Option Text

-- What a stream changes of the context.
pub record StreamContext (J : Type 0) : Type 0 where
  pub decoded : Stream ℤ
  pub chunk_count : ℕ
  pub finished : Bool
  pub reasoning_ended : Bool
  pub usage : Option (Usage J)
  pub infer_metadata : Dict String J
  pub infer_choice_extras : Dict String J
  pub logprobs : Option (InferLogprobs J)

-- "tool_calls"
abbrev pub tool_calls_reason : Text
tool_calls_reason = b't' ∷ b'o' ∷ b'o' ∷ b'l' ∷ b'_' ∷ b'c' ∷ b'a' ∷ b'l' ∷ b'l' ∷ b's' ∷ []

abbrev pub true_reasoning : Option Text → Option Text
true_reasoning none = none
true_reasoning (some []) = none
true_reasoning (some (c ∷ t)) = some (c ∷ t)

abbrev pub or_first : Option Text → Bool → Option Text
or_first none first = if first then some [] else none
or_first (some t) first = some t

abbrev pub delta_content : Option DeltaMessage → Option Text
delta_content none = none
delta_content (some delta) = delta.content

abbrev pub delta_reasoning : Option DeltaMessage → Option Text
delta_reasoning none = none
delta_reasoning (some delta) = delta.reasoning

abbrev pub has_text : Option Text → Bool
has_text t = elim (or_empty t) [ [] ↦ false | c ∷ cs ↦ true ]

module _ {J : Type 0} where
  -- `usage` that is true: the last one is kept.
  unfoldable pub newer_usage : Entry (Usage J) → Option (Usage J) → Option (Usage J)
  newer_usage missing old = old
  newer_usage null old = old
  newer_usage (value u) old = if is_empty_usage u then old else some u

  abbrev pub extras_of : InferChunk J → Dict String (Option J)
  extras_of chunk = elim chunk.choices [ [] ↦ [] | choice ∷ more ↦ choice.extras ]

  -- The entries that are captured before anything else.
  unfoldable pub capture : InferChunk J → StreamContext J → StreamContext J
  unfolding newer_usage put_given
  capture chunk s = record s {
    infer_metadata = put_given chunk.metadata s.infer_metadata;
    usage = newer_usage chunk.usage s.usage;
    infer_choice_extras = put_given (extras_of chunk) s.infer_choice_extras;
  }

  -- Token ids that are not empty are decoded, and give the content.
  unfoldable pub decode_ids :
      (List ℤ → Text) → Parsed J → StreamContext J → Option Text × StreamContext J
  unfolding decode_streaming
  decode_ids decode parsed s = elim (or_empty parsed.token_ids) [
    | [] ↦ (parsed.content, s)
    | z ∷ zs ↦
        let (text, decoded) = decode_streaming decode (z ∷ zs) s.decoded in
        (some text, record s { decoded = decoded })
  ]

  -- old.setdefault(key, []).extend(new), where `new` is a list; None has no method `extend`.
  unfoldable pub extend_array : Entry (List J) → Entry (List J) → Result (Entry (List J))
  extend_array missing old = ok old
  extend_array null old = ok old
  extend_array (value new) missing = ok (value new)
  extend_array (value new) null = raise attribute_error
  extend_array (value new) (value old) = ok (value (old ++ new))

  unfoldable pub extend_logprobs : InferLogprobs J → InferLogprobs J → Result (InferLogprobs J)
  unfolding extend_array
  extend_logprobs new old = do
    tokens ← extend_array new.tokens old.tokens
    text_offset ← extend_array new.text_offset old.text_offset
    top_logprobs ← extend_array new.top_logprobs old.top_logprobs
    token_logprobs ← extend_array new.token_logprobs old.token_logprobs
    ok (record old {
      tokens = tokens;
      text_offset = text_offset;
      top_logprobs = top_logprobs;
      token_logprobs = token_logprobs;
    })

  abbrev pub is_empty_arrays : InferLogprobs J → Bool
  is_empty_arrays l =
      is_missing l.tokens
      && (is_missing l.text_offset
          && (is_missing l.top_logprobs && (is_missing l.token_logprobs && is_empty_dict l.others)))

  unfoldable pub merge_arrays :
      Entry (InferLogprobs J) → Option (InferLogprobs J) → Result (Option (InferLogprobs J))
  unfolding extend_logprobs
  merge_arrays missing old = ok old
  merge_arrays null old = ok old
  merge_arrays (value new) none = ok (if is_empty_arrays new then none else some new)
  merge_arrays (value new) (some old) =
      if is_empty_arrays new
      then ok (some old)
      else (do merged ← extend_logprobs new old; ok (some merged))

  abbrev pub chunk_logprobs : InferChunk J → Entry (InferLogprobs J)
  chunk_logprobs chunk = elim chunk.choices [ [] ↦ missing | choice ∷ more ↦ choice.logprobs ]

  -- `parsed_tool_calls or tool_calls_delta`
  unfoldable pub effective_calls : Option DeltaMessage → Option (List J) → Option (Calls J)
  effective_calls none passed = elim passed [ none ↦ none | some l ↦ some (from_chunk l) ]
  effective_calls (some delta) passed = elim delta.tool_calls [
    | [] ↦ elim passed [ none ↦ none | some l ↦ some (from_chunk l) ]
    | t ∷ ts ↦ some (from_parser (t ∷ ts))
  ]

  -- Whether the list is true.
  abbrev pub true_calls : Option (Calls J) → Option (Calls J)
  true_calls none = none
  true_calls (some (from_parser [])) = none
  true_calls (some (from_parser (t ∷ ts))) = some (from_parser (t ∷ ts))
  true_calls (some (from_chunk [])) = none
  true_calls (some (from_chunk (j ∷ js))) = some (from_chunk (j ∷ js))

  -- `build_chunk`; the first chunk has the role, and a content, be it empty.
  unfoldable pub build_chunk :
      Option Text → StreamContext J → Option Text → Option (Calls J) → Option Text → SentChunk J
  build_chunk content s finish_reason calls reasoning = record {
    role = nat_beq s.chunk_count 0;
    content = or_first content (nat_beq s.chunk_count 0);
    reasoning = true_reasoning reasoning;
    tool_calls = true_calls calls;
    finish_reason = finish_reason;
  }

  -- The reason of the parser wins.
  unfoldable pub finish_of : Bool → InferChunk J → Option Text
  unfolding is_stream_finished get_finish_reason
  finish_of called chunk =
      if is_stream_finished chunk
      then (if called then some tool_calls_reason else get_finish_reason chunk)
      else none
