-- ===== src/Pipeline/Whole.antt =====
-- `process_stream` and `_store_trajectory` of traj_proxy/proxy_core/pipeline (token_pipeline.py and
-- base.py). The conversion of the messages, the encoding and the parser's class are arguments. A
-- cancellation while the prompt is made, or while the row is stored, is not modelled.
use trajproxy.Base.{
  ℕ, Bool, true, false, not, ◌&&◌, ◌||◌, Option, none, some, List, [], ◌∷◌, nat_beq, length,
  if◌then◌else◌,
}
use trajproxy.Models.{Result, ok, raise, is_database_error}
use trajproxy.Texts.{Text}
use trajproxy.Responses.Ints.{ℤ}
use trajproxy.Pipeline.{SentChunk, Parser}
use trajproxy.Pipeline.Chunks.{Setup}
use trajproxy.Pipeline.Streams.{
  Arrival, Ending, completed, left, closed, failed, Looped, loop, stream_context, Finishing, Row,
  finalize_stream,
}

-- `rows` are the rows that the repository has stored; `usage` is the last chunk with the prompt,
-- completion and total tokens.
pub record Streamed (J R : Type 0) : Type 0 where
  pub sent : List (SentChunk J)
  pub usage : Option (ℕ × ℕ × ℕ)
  pub ending : Ending
  pub rows : List (Row J R)

abbrev is_true : List ℤ → Bool
is_true [] = false
is_true (z ∷ zs) = true

-- What comes before the loop, and the parts of the pipeline.
pub record Pipeline (J R P : Type 0) : Type 0 where
  pub transform : Result Text
  pub encode : Text → Result (List ℤ)
  pub create : Result P
  pub parser : Parser P
  pub digit : ℕ → Option ℕ
  pub closes : ℕ → Bool
  pub finishing : Finishing J R

-- Without a reasoning parser, or if the prompt ends the reasoning, it has ended.
unfoldable pub starts_ended : {P : Type 0} → Parser P → P → List ℤ → Bool
starts_ended parser p ids =
    not (parser.has_reasoning p) || (is_true ids && parser.is_reasoning_end p ids)

module _ {J R : Type 0} where
  -- `_store_trajectory`: without a repository nothing is stored; a `DatabaseError` is only logged.
  unfoldable pub store_trajectory : Finishing J R → Row J R → Result (Unit {0}) × List (Row J R)
  store_trajectory f row = elim f.store_row [
    | none ↦ (ok tt, [])
    | some insert_row ↦ elim (insert_row row) [
      | ok done ↦ (ok tt, row ∷ [])
      | raise e ↦ (if is_database_error e then ok tt else raise e, [])
    ]
  ]

  abbrev ended : List (SentChunk J) → Ending → List (Row J R) → Streamed J R
  ended sent ending rows = record { sent = sent; usage = none; ending = ending; rows = rows }

  abbrev usage_chunk : Row J R → ℕ → Option (ℕ × ℕ × ℕ)
  usage_chunk row prompt =
      if nat_beq row.completion_tokens 0
      then none
      else some (prompt, row.completion_tokens, row.total_tokens)

  -- After the row is stored the usage is sent.
  unfoldable pub send_usage :
      List (SentChunk J) → Row J R → ℕ → Result (Unit {0}) × List (Row J R) → Streamed J R
  send_usage sent row prompt (raise e, rows) = ended sent (failed e) rows
  send_usage sent row prompt (ok u, rows) = record {
    sent = sent;
    usage = usage_chunk row prompt;
    ending = completed;
    rows = rows;
  }

  -- The end of the stream.
  unfoldable pub close : Finishing J R → Text → List ℤ → Looped J → Streamed J R
  unfolding store_trajectory finalize_stream send_usage
  close f text prompt_ids l = elim (finalize_stream f text prompt_ids l.context) [
    | raise e ↦ ended l.sent (failed e) []
    | ok row ↦ send_usage l.sent row (length prompt_ids) (store_trajectory f row)
  ]

  -- The handler of `CancelledError`: what the row's storage raises is only logged.
  unfoldable pub close_left : Finishing J R → Text → List ℤ → Looped J → Streamed J R
  unfolding store_trajectory finalize_stream
  close_left f text prompt_ids l = elim (finalize_stream f text prompt_ids l.context) [
    | raise e ↦ ended l.sent left []
    | ok row ↦ ended l.sent left (store_trajectory f row).1
  ]

  -- No handler is for `GeneratorExit`.
  unfoldable pub conclude_stream : Finishing J R → Text → List ℤ → Looped J → Streamed J R
  unfolding close close_left
  conclude_stream f text prompt_ids l = elim l.ending [
    | completed ↦ close f text prompt_ids l
    | left ↦ close_left f text prompt_ids l
    | closed ↦ ended l.sent closed []
    | failed e ↦ ended l.sent (failed e) []
  ]

  abbrev pub setup_of : {P : Type 0} → Pipeline J R P → List ℤ → Setup P
  setup_of pipe ids = record {
    decode = pipe.finishing.decode_clean;
    digit = pipe.digit;
    parser = pipe.parser;
    prompt_ids = ids;
    closes = pipe.closes;
  }

  unfoldable pub run_stream :
      {P : Type 0} → Pipeline J R P → List (Arrival J) → Text → List ℤ → P → Streamed J R
  unfolding starts_ended loop conclude_stream
  run_stream pipe arrivals text ids p =
      conclude_stream pipe.finishing text ids
        (loop (setup_of pipe ids) arrivals p (stream_context (starts_ended pipe.parser p ids)))

  unfoldable pub process_stream : {P : Type 0} → Pipeline J R P → List (Arrival J) → Streamed J R
  unfolding run_stream
  process_stream pipe arrivals = elim pipe.transform [
    | raise e ↦ ended [] (failed e) []
    | ok text ↦ elim (pipe.encode text) [
      | raise e ↦ ended [] (failed e) []
      | ok ids ↦ elim pipe.create [
        | raise e ↦ ended [] (failed e) []
        | ok p ↦ run_stream pipe arrivals text ids p
      ]
    ]
  ]
