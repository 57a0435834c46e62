-- ===== src/Pipeline/Chunks.antt =====
-- `_process_stream_chunk` of traj_proxy/proxy_core/pipeline/token_pipeline.py, put together.
use trajproxy.Base.{ℕ, Bool, true, Option, none, some, List, if◌then◌else◌, ◌||◌, nat_beq, is_some}
use trajproxy.Models.{Result, ok, raise, parser_error}
use trajproxy.Texts.{Text, or_empty}
use trajproxy.Responses.Ints.{ℤ}
use trajproxy.Responses.{InferChunk, Parsed, parse_stream_chunk, is_stream_finished}
use trajproxy.Pipeline.{
  DeltaMessage, Parser, Calls, SentChunk, StreamContext, capture, decode_ids, merge_arrays,
  chunk_logprobs, effective_calls, build_chunk, finish_of, delta_content, delta_reasoning, has_text,
}

-- What a request brings: the tokenizer, the digits, the parser and the ids of the prompt; and
-- whether its client closes the stream when it has been given the n-th chunk.
pub record Setup (P : Type 0) : Type 0 where
  pub decode : List ℤ → Text
  pub digit : ℕ → Option ℕ
  pub parser : Parser P
  pub prompt_ids : List ℤ
  pub closes : ℕ → Bool

-- How the handling of a chunk ends: what it raises, or what is sent, if anything.
pub record Handled (J P : Type 0) : Type 0 where
  pub result : Result (Option (SentChunk J))
  pub parser : P
  pub context : StreamContext J

-- Some part of the delta or of the end has to be told, or nothing was sent yet.
unfoldable pub is_worth :
    {J : Type 0} → Option DeltaMessage → Option (Calls J) → Option Text → StreamContext J → Bool
is_worth delta calls finish s =
    has_text (delta_content delta)
    || (is_some calls
        || (is_some (delta_reasoning delta) || (is_some finish || nat_beq s.chunk_count 0)))

module _ {J P : Type 0} where
  -- From the logprobs on.
  unfoldable pub emit :
      Setup P → InferChunk J → Parsed J → Option DeltaMessage → P → StreamContext J → Handled J P
  unfolding merge_arrays effective_calls finish_of build_chunk is_worth
  emit setup chunk parsed delta p s =
      let ended = record s { reasoning_ended = setup.parser.reasoning_ended p } in
      let calls = effective_calls delta parsed.tool_calls in
      elim (merge_arrays (chunk_logprobs chunk) s.logprobs) [
        | raise e ↦ record { result = raise e; parser = p; context = ended }
        | ok logprobs ↦
            let finish = finish_of (setup.parser.called p) chunk in
            let s' = record ended {
              logprobs = logprobs;
              finished = is_stream_finished chunk || s.finished;
            } in
            record {
              result = ok (
                  if is_worth delta calls finish s
                  then some
                      (build_chunk (delta_content delta) s' finish calls (delta_reasoning delta))
                  else none);
              parser = p;
              context = s';
            }
      ]

  -- Any exception of the parser is raised as a `ParserError`.
  unfoldable pub deliver :
      Setup P
      → InferChunk J
      → Parsed J
      → StreamContext J
      → Result (Option DeltaMessage) × P
      → Handled J P
  unfolding emit
  deliver setup chunk parsed s (raise e, p) = record {
    result = raise parser_error;
    parser = p;
    context = s;
  }
  deliver setup chunk parsed s (ok delta, p) = emit setup chunk parsed delta p s

  unfoldable pub parse_step :
      Setup P → InferChunk J → Parsed J → P → Option Text × StreamContext J → Handled J P
  unfolding deliver
  parse_step setup chunk parsed p (content, s) =
      let prompt : Option (List ℤ) =
        if nat_beq s.chunk_count 0 then some setup.prompt_ids else none in
      deliver setup chunk parsed s
        (setup.parser.parse p (or_empty content) (or_empty parsed.token_ids) prompt)

  unfoldable pub process_stream_chunk : Setup P → InferChunk J → P → StreamContext J → Handled J P
  unfolding capture parse_stream_chunk decode_ids parse_step
  process_stream_chunk setup chunk p s = elim (parse_stream_chunk setup.digit chunk true) [
    | raise e ↦ record { result = raise e; parser = p; context = capture chunk s }
    | ok parsed ↦ parse_step setup chunk parsed p (decode_ids setup.decode parsed (capture chunk s))
  ]
