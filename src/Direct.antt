-- ===== src/Direct.antt =====
-- `process_stream` of traj_proxy/proxy_core/pipeline/direct_pipeline.py: what is kept of a stream
-- for the trajectory, and what the client gets of it. A dict with fixed keys is a record of `Entry`s;
-- the keys that the code has no own rule for stand in a dict. `J` are JSON values that the code
-- only passes on. `delta` is a dict, which is empty if the key is missing.
pub mod Final
pub mod Parts
pub mod Recorded
use trajproxy.Base.{
  ℕ, suc, Bool, true, false, not, ◌&&◌, Option, none, some, List, [], ◌∷◌, ◌++◌, map, String,
  string_eq, if◌then◌else◌, ◌/◌, ◌+◌, length,
}
use trajproxy.Base.Dict.{Dict, put}
use trajproxy.Models.{Result, ok, raise, type_error}
use trajproxy.Texts.{Text, or_empty}
use trajproxy.ToolCalls.{
  is_missing, Entry, missing, null, value, FunctionPiece, Piece, ToolCall, text_of, newer, name_of,
  arguments_of, merge_stream_tool_calls,
}

-- `key in d and d[key]` for a list; what is not there is as if it were empty.
abbrev pub given : {A : Type 0} → Entry A → Option A
given missing = none
given null = none
given (value a) = some a

-- old.extend(new), where `old` may be None and `new` is a list that is true
unfoldable pub extended : {A : Type 0} → Entry (List A) → Option (List A) → Option (List A)
extended missing old = old
extended null old = old
extended (value []) old = old
extended (value (x ∷ xs)) old = some (or_empty old ++ x ∷ xs)

-- The new value if it is not None, else the old one.
unfoldable pub latest : {A : Type 0} → Entry A → Option A → Option A
latest missing old = old
latest null old = old
latest (value a) old = some a

module _ {J : Type 0} where
  -- d.update(…) by the entries that are not None
  unfoldable pub put_given : Dict String (Option J) → Dict String J → Dict String J
  put_given [] d = d
  put_given ((k, none) ∷ new) d = put_given new d
  put_given ((k, some v) ∷ new) d = put_given new (put k v d)

module _ (J : Type 0) where
  pub record Usage : Type 0 where
    pub prompt_tokens : Entry ℕ
    pub completion_tokens : Entry ℕ
    pub total_tokens : Entry ℕ
    pub details : Dict String (Option J)

  -- `content` and what else is in the dict.
  pub record Logprobs : Type 0 where
    pub content : Entry (List J)
    pub others : Dict String (Option J)

  pub record Delta : Type 0 where
    pub role : Entry Text
    pub content : Entry Text
    pub reasoning : Entry Text
    pub reasoning_content : Entry Text
    pub tool_calls : Entry (List Piece)
    pub function_call : Entry FunctionPiece
    pub extras : Dict String (Option J)

  pub record Choice : Type 0 where
    pub delta : Delta
    pub logprobs : Entry Logprobs
    pub stop_reason : Entry J
    pub token_ids : Entry (List ℕ)
    -- an extra of the choice, which is kept under its own key among `choice_extras`
    pub routed_experts : Entry J
    pub finish_reason : Entry Text
    pub extras : Dict String (Option J)

  -- `metadata` are the entries but the other three.
  pub record Chunk : Type 0 where
    pub metadata : Dict String (Option J)
    pub prompt_token_ids : Entry (List ℕ)
    pub usage : Entry Usage
    pub choices : Entry (List Choice)

  -- The part of the context that a stream fills.
  pub record Stream : Type 0 where
    pub response_metadata : Dict String J
    pub prompt_token_ids : Option (List ℕ)
    pub usage_full : Option Usage
    pub prompt_tokens : Option ℕ
    pub completion_tokens : Option ℕ
    pub total_tokens : Option ℕ
    pub role : Option Text
    pub buffer_text : Text
    pub reasoning : Text
    pub tool_calls : Option (List Piece)
    pub function_call : Option (Text × Text)
    pub logprobs : Option Logprobs
    pub stop_reason : Option J
    pub token_ids : Option (List ℕ)
    pub finished : Bool
    pub finish_reason : Option Text
    pub choice_extras : Dict String J
    pub delta_extras : Dict String J
    pub routed_experts : Option J
    pub chunk_count : ℕ

  -- What is sent, how the loop ends, and what is kept.
  pub record Streamed : Type 0 where
    pub sent : List Chunk
    pub ended : Result (Unit {0})
    pub kept : Stream

-- A text that is not empty replaces the old one.
unfoldable pub newer_text : Entry Text → Option Text → Option Text
newer_text e old = newer some (text_of e) old

abbrev pub or_new_call : Option (Text × Text) → Text × Text
or_new_call none = ([], [])
or_new_call (some call) = call

abbrev pub call_of : FunctionPiece → Text × Text → Text × Text
call_of f (name, arguments) =
    (newer (λ t. t) (text_of f.name) name, arguments ++ text_of f.arguments)

-- A dict that is empty is as if it were missing.
unfoldable pub add_function_call : Entry FunctionPiece → Option (Text × Text) → Option (Text × Text)
add_function_call missing old = old
add_function_call null old = old
add_function_call (value f) old =
    if is_missing f.name && is_missing f.arguments then old else some (call_of f (or_new_call old))

unfoldable pub is_true_text : Entry Text → Bool
is_true_text e = elim (text_of e) [ [] ↦ false | c ∷ t ↦ true ]

module _ {J : Type 0} where
  abbrev pub is_empty_dict : Dict String (Option J) → Bool
  is_empty_dict [] = true
  is_empty_dict (x ∷ xs) = false

  abbrev pub is_empty_usage : Usage J → Bool
  is_empty_usage u =
      is_missing u.prompt_tokens
      && (is_missing u.completion_tokens && (is_missing u.total_tokens && is_empty_dict u.details))

  -- `usage.get(…) is not None`, for each of the three counts
  unfoldable pub add_usage : Entry (Usage J) → Stream J → Stream J
  unfolding latest
  add_usage missing s = s
  add_usage null s = s
  add_usage (value u) s = if is_empty_usage u then s else record s {
    usage_full = some u;
    prompt_tokens = latest u.prompt_tokens s.prompt_tokens;
    completion_tokens = latest u.completion_tokens s.completion_tokens;
    total_tokens = latest u.total_tokens s.total_tokens;
  }

  -- `reasoning` if it is not empty, else `reasoning_content`
  unfoldable pub reasoning_of : Delta J → Text
  reasoning_of d = newer (λ t. t) (text_of d.reasoning) (text_of d.reasoning_content)

  abbrev pub with_content : Entry (List J) → Logprobs J → Logprobs J
  with_content c l = record l { content = c }

  -- The list of the new content is appended; an empty one changes nothing.
  unfoldable pub extend_content : Entry (List J) → Logprobs J → Logprobs J
  extend_content missing l = l
  extend_content null l = l
  extend_content (value []) l = l
  extend_content (value (x ∷ xs)) l = with_content (value (or_empty (given l.content) ++ x ∷ xs)) l

  abbrev pub is_empty_logprobs : Logprobs J → Bool
  is_empty_logprobs l = is_missing l.content && is_empty_dict l.others

  unfoldable pub merge_logprobs : Logprobs J → Option (Logprobs J) → Option (Logprobs J)
  unfolding extend_content
  merge_logprobs new none = some new
  merge_logprobs new (some old) = some (extend_content new.content old)

  unfoldable pub add_logprobs : Entry (Logprobs J) → Option (Logprobs J) → Option (Logprobs J)
  unfolding merge_logprobs
  add_logprobs missing old = old
  add_logprobs null old = old
  add_logprobs (value l) old = if is_empty_logprobs l then old else merge_logprobs l old

  unfoldable pub add_choice : Choice J → Stream J → Stream J
  unfolding newer_text reasoning_of extended add_function_call add_logprobs latest is_true_text
      put_given
  add_choice c s = record s {
    role = newer_text c.delta.role s.role;
    buffer_text = s.buffer_text ++ text_of c.delta.content;
    reasoning = s.reasoning ++ reasoning_of c.delta;
    tool_calls = extended c.delta.tool_calls s.tool_calls;
    function_call = add_function_call c.delta.function_call s.function_call;
    logprobs = add_logprobs c.logprobs s.logprobs;
    stop_reason = latest c.stop_reason s.stop_reason;
    token_ids = extended c.token_ids s.token_ids;
    finished = if is_true_text c.finish_reason then true else s.finished;
    finish_reason = newer_text c.finish_reason s.finish_reason;
    choice_extras = put_given c.extras s.choice_extras;
    delta_extras = put_given c.delta.extras s.delta_extras;
    routed_experts = latest c.routed_experts s.routed_experts;
  }

  abbrev pub choices_of : Chunk J → List (Choice J)
  choices_of c = or_empty (given c.choices)

  -- `_accumulate_stream_fields`: only the first choice counts.
  unfoldable pub accumulate : Chunk J → Stream J → Stream J
  unfolding put_given latest add_usage add_choice
  accumulate c s =
      let seen = add_usage c.usage (record s {
        response_metadata = put_given c.metadata s.response_metadata;
        prompt_token_ids = latest c.prompt_token_ids s.prompt_token_ids;
      }) in
      elim (choices_of c) [ [] ↦ seen | x ∷ xs ↦ add_choice x seen ]

  unfoldable pub strip_choice : Choice J → Choice J
  strip_choice c = record c { logprobs = missing; token_ids = missing; routed_experts = missing }

  unfoldable pub strip_choices : Entry (List (Choice J)) → Entry (List (Choice J))
  unfolding strip_choice
  strip_choices missing = missing
  strip_choices null = null
  strip_choices (value xs) = value (map strip_choice xs)

  -- `_strip_injected_fields`, and what `process_stream` removes after it; the loop over the choices
  -- raises for None.
  unfoldable pub strip : Chunk J → Result (Chunk J)
  unfolding strip_choices
  strip c =
      let stripped = record c { choices = strip_choices c.choices; prompt_token_ids = missing } in
      elim c.choices [ missing ↦ ok stripped | null ↦ raise type_error | value xs ↦ ok stripped ]

  abbrev pub counted : Stream J → Stream J
  counted s = record s { chunk_count = suc s.chunk_count }

  abbrev sending : Chunk J → Streamed J → Streamed J
  sending c r = record r { sent = c ∷ r.sent }

  -- The loop over the chunks.
  unfoldable pub stream_each : List (Chunk J) → Stream J → Streamed J
  unfolding accumulate strip
  stream_each [] s = record { sent = []; ended = ok tt; kept = s }
  stream_each (c ∷ cs) s =
      let kept = accumulate c s in
      let next = stream_each cs (counted kept) in
      elim (strip c) [
        | raise e ↦ record { sent = []; ended = raise e; kept = kept }
        | ok c' ↦ sending c' next
      ]

  abbrev pub stream_init : Stream J
  stream_init = record {
    response_metadata = [];
    prompt_token_ids = none;
    usage_full = none;
    prompt_tokens = none;
    completion_tokens = none;
    total_tokens = none;
    role = none;
    buffer_text = [];
    reasoning = [];
    tool_calls = none;
    function_call = none;
    logprobs = none;
    stop_reason = none;
    token_ids = none;
    finished = false;
    finish_reason = none;
    choice_extras = [];
    delta_extras = [];
    routed_experts = none;
    chunk_count = 0;
  }
