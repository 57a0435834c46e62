-- ===== src/Tests/Streams.antt =====
-- The theorem on streams of the direct pipeline, at a concrete input.
use trajproxy.Base.{ℕ, none, some, List, [], ◌∷◌, string_eq}
use trajproxy.ToolCalls.{missing, null, value}
use trajproxy.Direct.{Choice, Chunk}

abbrev says : ℕ → Choice ℕ
says c = record {
  delta = record {
    role = missing;
    content = value (c ∷ []);
    reasoning = null;
    reasoning_content = value (c ∷ c ∷ []);
    tool_calls = missing;
    function_call = missing;
    extras = [];
  };
  logprobs = null;
  stop_reason = missing;
  token_ids = value (c ∷ []);
  routed_experts = missing;
  finish_reason = null;
  extras = [];
}

abbrev chunk : ℕ → Chunk ℕ
chunk c = record {
  metadata = ("id", some c) ∷ ("model", none) ∷ [];
  prompt_token_ids = missing;
  usage = null;
  choices = value (says c ∷ []);
}

abbrev chunks : List (Chunk ℕ)
chunks = chunk 1 ∷ chunk 2 ∷ []
