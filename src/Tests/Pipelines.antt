-- ===== src/Tests/Pipelines.antt =====
-- The theorems on the token pipeline at concrete inputs.
use trajproxy.Base.{
  ℕ, ◌-◌, ◌≡◌, refl, true, false, Option, none, some, List, [], ◌∷◌, leb, ◌&&◌, if◌then◌else◌,
  arith, inl, map,
}
use trajproxy.Models.{ok, raise, type_error}
use trajproxy.Texts.{Text, starts_with}
use trajproxy.Encoding.Decoding.{stream_init}
use trajproxy.ToolCalls.{missing, null, value}
use trajproxy.Responses.Ints.{ℤ, pos, negsuc}
use trajproxy.Responses.{InferChoice, InferChunk, parse_token_ids_from_text, parse_text_response}
use trajproxy.Responses.Decimals.{print_ids, decimal}
use trajproxy.Responses.Prints.{IsDigits, parse_token_ids_from_text-print_ids}
use trajproxy.Pipeline.{Parser}
use trajproxy.Parsers.{SubParsers, TextDelta, auto}
use trajproxy.Parsers.Deltas.{parse_deltas, machine_init}
use trajproxy.Parsers.Windows.{recorded, Chained}
use trajproxy.Parsers.Chains.{parse_deltas-Chained}
use trajproxy.Pipeline.Streams.{Arrival, chunk, cancelled, loop, Row}
use trajproxy.Pipeline.Whole.{Pipeline, process_stream}
use trajproxy.Pipeline.Kept.{ids_read}
use trajproxy.Pipeline.Stored.{IsRecord, process_stream-IsRecord}
use trajproxy.Pipeline.Replies.{ReplyContext, Parts, with_ids, decode_response}
use trajproxy.Pipeline.Replies.Runs.{process}
use trajproxy.Pipeline.Replies.Formats.{answers, decode_response-formats}
use trajproxy.Pipeline.Replies.Held.{new_context, IsReply}
use trajproxy.Pipeline.Replies.Results.{process-IsReply, process-empty}

abbrev ascii_digit : ℕ → Option ℕ
ascii_digit c = if leb 48 c && leb c 57 then some (c - 48) else none

ascii-IsDigits : IsDigits ascii_digit
ascii-IsDigits = record { ascii = λ d h. ground (arith, h) }

abbrev two_ids : List ℤ
two_ids = pos 12 ∷ negsuc 2 ∷ []

parse_token_ids_from_text-print_ids_example :
    parse_token_ids_from_text ascii_digit (print_ids two_ids) ≡ some two_ids
unfolding decimal
parse_token_ids_from_text-print_ids_example =
    parse_token_ids_from_text-print_ids ascii_digit ascii-IsDigits two_ids
      (omega arith, (omega arith, tt))

-- One character for each token.
abbrev decode : List ℤ → Text
decode ids = map (λ (z : ℤ). elim z [ pos n ↦ n | negsuc n ↦ 0 ]) ids

abbrev passing : Parser ℕ
passing = record {
  parse = λ p text ids prompt.
      (ok (some (record { content = some text; reasoning = none; tool_calls = [] })), p);
  called = λ p. false;
  reasoning_ended = λ p. true;
  has_reasoning = λ p. false;
  is_reasoning_end = λ p ids. false;
}

abbrev pipe : Pipeline ℕ ℕ ℕ
pipe = record {
  transform = ok (5 ∷ []);
  encode = λ t. ok (pos 5 ∷ []);
  create = ok 0;
  parser = passing;
  digit = ascii_digit;
  closes = λ n. false;
  finishing = record {
    decode_clean = decode;
    decode_all = decode;
    build_reply = λ t c u. ok 1;
    store_row = some (λ row. ok tt);
  };
}

abbrev choice : ℕ → InferChoice ℕ
choice n = record {
  text = value [];
  token_ids = value (pos n ∷ []);
  output_token_ids = missing;
  tool_calls = missing;
  logprobs = null;
  finish_reason = null;
  extras = [];
}

abbrev says : ℕ → InferChunk ℕ
says n = record { metadata = []; usage = missing; choices = choice n ∷ [] }

abbrev arrivals : List (Arrival ℕ)
arrivals = chunk (says 1) ∷ chunk (says 2) ∷ cancelled ∷ chunk (says 3) ∷ []

process_stream-IsRecord_example :
    (row : Row ℕ ℕ) × ((process_stream pipe arrivals).rows ≡ row ∷ [])
    × IsRecord pipe.finishing (5 ∷ []) (pos 5 ∷ []) (ids_read ascii_digit arrivals) row
unfolding loop stream_init starts_with
process_stream-IsRecord_example =
    process_stream-IsRecord pipe arrivals (5 ∷ []) (pos 5 ∷ []) 0 (λ row. ok tt) refl refl refl refl
      (λ t c u. (1, refl)) tt

abbrev parts : Parts ℕ ℕ ℕ
parts = record {
  transform = ok (5 ∷ []);
  encode = λ t. ok (pos 5 ∷ []);
  infer = λ ids. ok (says 7);
  digit = ascii_digit;
  decode_clean = decode;
  decode_all = decode;
  create = ok 0;
  build_reply = λ p t c. ok 1;
  store_row = some (λ c. ok tt);
}

process-IsReply_example :
    (c : ReplyContext ℕ ℕ) × (c' : ReplyContext ℕ ℕ) × ((process parts new_context).rows ≡ c ∷ [])
    × IsReply (5 ∷ []) (pos 5 ∷ []) (7 ∷ []) (some (pos 7 ∷ [])) c
    × ((process parts new_context).verdict ≡ ok c')
    × (c'.raw_response ≡ c.raw_response)
unfolding parse_text_response
process-IsReply_example =
    process-IsReply parts (5 ∷ []) (pos 5 ∷ []) (says 7) 0 (λ c. ok tt) refl refl refl refl refl
      refl (λ q t c. (1, refl)) refl (λ c. inl refl)

-- The service answers with an empty completion.
abbrev silent : InferChunk ℕ
silent = record {
  metadata = [];
  usage = missing;
  choices = record (choice 0) { token_ids = missing; text = value [] } ∷ [];
}

abbrev silent_parts : Parts ℕ ℕ ℕ
silent_parts = record parts { infer = λ ids. ok silent }

process-empty_example :
    (c : ReplyContext ℕ ℕ) × ((process silent_parts new_context).rows ≡ c ∷ [])
    × (c.error ≡ some type_error)
    × ((process silent_parts new_context).verdict ≡ raise type_error)
unfolding parse_text_response
process-empty_example =
    process-empty silent_parts (5 ∷ []) (pos 5 ∷ []) silent 0 (λ c. ok tt) refl refl refl refl refl

abbrev fresh_context : ReplyContext ℕ ℕ
fresh_context = new_context

abbrev written : InferChoice ℕ
written = record (choice 0) { text = value (print_ids two_ids); token_ids = null }

abbrev given : InferChoice ℕ
given = record (choice 0) { token_ids = value two_ids }

decode_response-formats_example :
    (decode_response ascii_digit decode (answers written [] (says 0)) fresh_context
      ≡ decode_response ascii_digit decode (answers given [] (says 0)) fresh_context)
    × (decode_response ascii_digit decode (answers written [] (says 0)) fresh_context
        ≡ (ok tt, with_ids decode two_ids fresh_context))
unfolding decimal
decode_response-formats_example =
    decode_response-formats ascii_digit decode ascii-IsDigits written given [] [] (says 0) (says 0)
      (pos 12) (negsuc 2 ∷ []) fresh_context (omega arith, (omega arith, tt)) refl refl refl

-- A tool parser that calls nothing, and no reasoning parser.
abbrev tools_only : SubParsers ℕ
tools_only = record {
  reasoning = none;
  tool = some (record {
    supports_required = true;
    extract_streaming = λ p w. (ok none, p);
    extract_required = λ p w n f. (ok (none, f), p);
    has_called = λ p. false;
  });
}

abbrev deltas : List TextDelta
deltas =
    record { text = 1 ∷ []; ids = pos 1 ∷ []; prompt = some (pos 9 ∷ []) }
    ∷ record { text = 2 ∷ 3 ∷ []; ids = pos 2 ∷ []; prompt = none }
    ∷ []

parse_deltas-Chained_example :
    Chained
      (parse_deltas
        (recorded tools_only)
        auto
        deltas
        (machine_init (record { inner = 0; seen = [] }))).sub.seen
parse_deltas-Chained_example = parse_deltas-Chained tools_only auto deltas 0

abbrev idle : ℕ
idle = 0
