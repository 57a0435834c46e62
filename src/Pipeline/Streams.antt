-- ===== src/Pipeline/Streams.antt =====
-- `process_stream` and `_finalize_stream` of traj_proxy/proxy_core/pipeline/token_pipeline.py. What
-- the inference service sends, and where its task is cancelled, is a list of arrivals.
use trajproxy.Base.{
  ℕ, suc, ◌+◌, ◌/◌, Bool, true, false, Option, none, some, List, [], ◌∷◌, ◌++◌, String, string_eq,
  if◌then◌else◌, nat_beq, length,
}
use trajproxy.Base.Dict.{Dict, pop}
use trajproxy.Models.{Result, ok, raise, Error}
use trajproxy.Texts.{Text}
use trajproxy.ToolCalls.{value}
use trajproxy.Direct.{Usage}
use trajproxy.Direct.Final.{stop}
use trajproxy.Encoding.Decoding.{Stream, stream_init}
use trajproxy.Responses.Ints.{ℤ}
use trajproxy.Responses.{InferChunk, InferLogprobs}
use trajproxy.Pipeline.{SentChunk, StreamContext}
use trajproxy.Pipeline.Chunks.{Setup, process_stream_chunk}

-- A chunk, an exception of the inference client, or the cancellation of the task.
pub data Arrival (J : Type 0) : Type 0 where
  chunk : InferChunk J → Arrival J
  broken : Error → Arrival J
  cancelled : Arrival J

-- How the loop ends: the end of the stream or its last chunk, `CancelledError`, `GeneratorExit` at
-- the `yield` of a chunk, or any other exception.
pub data Ending : Type 0 where
  completed left closed : Ending
  failed : Error → Ending

pub record Looped (J : Type 0) : Type 0 where
  pub sent : List (SentChunk J)
  pub ending : Ending
  pub context : StreamContext J

-- The entries of the only choice of the `token_response` that is stored.
pub record StoredChoice (J : Type 0) : Type 0 where
  pub text : Text
  pub finish_reason : Text
  pub token_ids : List ℤ
  pub logprobs : Option (InferLogprobs J)
  pub prompt_token_ids : Option (List ℤ)
  pub extras : Dict String J

-- What is stored for a stream. `R` are the responses of the builder.
pub record Row (J R : Type 0) : Type 0 where
  pub response_text : Text
  pub response_ids : List ℤ
  pub completion_tokens : ℕ
  pub total_tokens : ℕ
  pub usage : Usage J
  pub choice : StoredChoice J
  pub metadata : Dict String J
  pub raw_response : R
  pub full_conversation_text : Text
  pub full_conversation_token_ids : Option (List ℤ)

-- Without token ids, one token is taken for four characters.
unfoldable pub count_tokens : Stream ℤ → ℕ
count_tokens s = elim s.stream_buffer_ids [
  | z ∷ zs ↦ length (z ∷ zs)
  | [] ↦ elim s.stream_buffer_text [
    | [] ↦ 0
    | c ∷ t ↦ let quarter = length (c ∷ t) / 4 in if nat_beq quarter 0 then 1 else quarter
  ]
]

abbrev pub true_ids : List ℤ → Option (List ℤ)
true_ids [] = none
true_ids (z ∷ zs) = some (z ∷ zs)

module _ {J : Type 0} where
  abbrev pub counted : StreamContext J → StreamContext J
  counted s = record s { chunk_count = suc s.chunk_count }

  abbrev pub stopped : StreamContext J → Looped J
  stopped s = record { sent = []; ending = completed; context = s }

  abbrev pub sending : SentChunk J → Looped J → Looped J
  sending x l = record l { sent = x ∷ l.sent }

  abbrev pub abandoned : StreamContext J → Looped J
  abandoned s = record { sent = []; ending = closed; context = s }

  -- What a handled chunk leads to: the loop goes on unless the stream is finished, or the client is
  -- gone when the chunk has been sent.
  unfoldable pub after_chunk :
      Result (Option (SentChunk J))
      → Bool
      → Bool
      → StreamContext J
      → (StreamContext J → Looped J)
      → Looped J
  after_chunk (raise e) over gone s next = record { sent = []; ending = failed e; context = s }
  after_chunk (ok none) true gone s next = stopped s
  after_chunk (ok none) false gone s next = next s
  after_chunk (ok (some x)) over true s next = sending x (abandoned (counted s))
  after_chunk (ok (some x)) true false s next = sending x (stopped (counted s))
  after_chunk (ok (some x)) false false s next = sending x (next (counted s))

  -- `async for`
  unfoldable pub loop : {P : Type 0} → Setup P → List (Arrival J) → P → StreamContext J → Looped J
  unfolding process_stream_chunk after_chunk
  loop setup [] p s = stopped s
  loop setup (broken e ∷ more) p s = record { sent = []; ending = failed e; context = s }
  loop setup (cancelled ∷ more) p s = record { sent = []; ending = left; context = s }
  loop setup (chunk c ∷ more) p s =
      let h = process_stream_chunk setup c p s in
      after_chunk h.result h.context.finished (setup.closes h.context.chunk_count) h.context
        (loop setup more h.parser)

  abbrev pub stream_context : Bool → StreamContext J
  stream_context ended = record {
    decoded = stream_init;
    chunk_count = 0;
    finished = false;
    reasoning_ended = ended;
    usage = none;
    infer_metadata = [];
    infer_choice_extras = [];
    logprobs = none;
  }

  -- The usage of the service, or the own counts.
  abbrev pub usage_or : Option (Usage J) → ℕ → ℕ → Usage J
  usage_or (some u) prompt completion = u
  usage_or none prompt completion = record {
    prompt_tokens = value prompt;
    completion_tokens = value completion;
    total_tokens = value (prompt + completion);
    details = [];
  }

  -- `setdefault` for each extra: the ids of the prompt are not overwritten.
  unfoldable pub merge_extras : List ℤ → Dict String J → Dict String J
  unfolding pop
  merge_extras [] extras = extras
  merge_extras (z ∷ zs) extras = pop "prompt_token_ids" extras

-- What finishes a stream: `decode_all` keeps the special tokens, `build_reply` is the response builder
-- on the visible text, the choice and the usage, and `store_row` the repository.
pub record Finishing (J R : Type 0) : Type 0 where
  pub decode_clean : List ℤ → Text
  pub decode_all : List ℤ → Text
  pub build_reply : Text → StoredChoice J → Usage J → Result R
  pub store_row : Option (Row J R → Result (Unit {0}))

abbrev pub decoded_or : (List ℤ → Text) → Text → List ℤ → Text
decoded_or decode text [] = text
decoded_or decode text (z ∷ zs) = decode (z ∷ zs)

abbrev pub joined_or_none : List ℤ → List ℤ → Option (List ℤ)
joined_or_none [] ids = none
joined_or_none (z ∷ zs) [] = none
joined_or_none (z ∷ zs) (y ∷ ys) = some ((z ∷ zs) ++ y ∷ ys)

-- The choice of the response that is stored; its reason is always "stop".
unfoldable pub stored_choice : {J : Type 0} → Text → List ℤ → StreamContext J → StoredChoice J
unfolding merge_extras
stored_choice text prompt_ids s = record {
  text = text;
  finish_reason = stop;
  token_ids = s.decoded.stream_buffer_ids;
  logprobs = s.logprobs;
  prompt_token_ids = true_ids prompt_ids;
  extras = merge_extras prompt_ids s.infer_choice_extras;
}

module _ {J R : Type 0} where
  unfoldable pub make_row : Finishing J R → Text → List ℤ → StreamContext J → R → Row J R
  unfolding stored_choice count_tokens
  make_row f prompt_text prompt_ids s response =
      let ids = s.decoded.stream_buffer_ids in
      let text = s.decoded.stream_buffer_text in
      let response_text = decoded_or f.decode_all text ids in
      let completion = count_tokens s.decoded in
      record {
        response_text = response_text;
        response_ids = ids;
        completion_tokens = completion;
        total_tokens = length prompt_ids + completion;
        usage = usage_or s.usage (length prompt_ids) completion;
        choice = stored_choice (decoded_or f.decode_clean text ids) prompt_ids s;
        metadata = s.infer_metadata;
        raw_response = response;
        full_conversation_text = prompt_text ++ response_text;
        full_conversation_token_ids = joined_or_none prompt_ids ids;
      }

  -- `_finalize_stream` until the row is stored
  unfoldable pub finalize_stream :
      Finishing J R → Text → List ℤ → StreamContext J → Result (Row J R)
  unfolding make_row
  finalize_stream f prompt_text prompt_ids s =
      let ids = s.decoded.stream_buffer_ids in
      let clean = decoded_or f.decode_clean s.decoded.stream_buffer_text ids in
      let completion = count_tokens s.decoded in
      elim (f.build_reply clean (stored_choice clean prompt_ids s)
        (usage_or s.usage (length prompt_ids) completion)) [
          | raise e ↦ raise e
          | ok response ↦ ok (make_row f prompt_text prompt_ids s response)
        ]
