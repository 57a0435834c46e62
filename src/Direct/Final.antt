-- ===== src/Direct/Final.antt =====
-- `_finalize_stream`: the response and the columns that are stored for a stream.
use trajproxy.Base.{
  ℕ, ◌+◌, ◌/◌, Bool, true, false, Option, none, some, List, [], ◌∷◌, ◌++◌, String, if◌then◌else◌,
  length, ◌==◌, nat_eq, ◌&&◌, not_empty,
}
use trajproxy.Base.Dict.{Dict}
use trajproxy.Texts.{Text}
use trajproxy.ToolCalls.{Piece, ToolCall, merge_stream_tool_calls}
use trajproxy.Direct.{Stream, Logprobs}

-- The known keys of `message`; the extras of the deltas come before them.
pub record Message (J : Type 0) : Type 0 where
  pub extras : Dict String J
  pub role : Text
  pub content : Option Text
  pub function_call : Option (Text × Text)
  pub reasoning : Option Text
  pub tool_calls : Option (List ToolCall)

pub record Final (J : Type 0) : Type 0 where
  pub response_text : Text
  pub completion_tokens : Option ℕ
  pub total_tokens : Option ℕ
  pub message : Message J
  pub extras : Dict String J
  pub logprobs : Option (Logprobs J)
  pub finish_reason : Text
  pub stop_reason : Option J
  pub token_ids : Option (List ℕ)
  pub response_ids : Option (List ℕ)
  pub full_conversation_token_ids : Option (List ℕ)

-- "assistant" and "stop"
abbrev pub assistant : Text
assistant = b'a' ∷ b's' ∷ b's' ∷ b'i' ∷ b's' ∷ b't' ∷ b'a' ∷ b'n' ∷ b't' ∷ []

abbrev pub stop : Text
stop = b's' ∷ b't' ∷ b'o' ∷ b'p' ∷ []

abbrev pub or_text : Text → Option Text → Text
or_text t none = t
or_text t (some u) = u

abbrev pub or_zero : Option ℕ → ℕ
or_zero none = 0
or_zero (some n) = n

-- `None` for a list that is empty or None
abbrev pub true_list : {A : Type 0} → Option (List A) → Option (List A)
true_list none = none
true_list (some []) = none
true_list (some (x ∷ xs)) = some (x ∷ xs)

abbrev pub true_text : Text → Option Text
true_text [] = none
true_text (c ∷ t) = some (c ∷ t)

abbrev pub merged_calls : Option (List Piece) → Option (List ToolCall)
merged_calls none = none
merged_calls (some pieces) = some (merge_stream_tool_calls pieces)

abbrev pub joined_ids : Option (List ℕ) → Option (List ℕ) → Option (List ℕ)
joined_ids none ids = none
joined_ids (some p) none = none
joined_ids (some p) (some r) = some (p ++ r)

module _ {J : Type 0} where
  -- Where no count came, one token is taken for four characters.
  unfoldable pub is_estimated : Stream J → Bool
  is_estimated s = or_zero s.completion_tokens == 0 && not_empty s.buffer_text

  abbrev pub has_call : Stream J → Bool
  has_call s = elim (true_list s.tool_calls) [
    | some pieces ↦ true
    | none ↦ elim s.function_call [ none ↦ false | some call ↦ true ]
  ]

  -- A message with calls has a content, be it empty.
  unfoldable pub content_of : Stream J → Option Text
  content_of s = elim s.buffer_text [
    | [] ↦ if has_call s then some [] else none
    | c ∷ t ↦ some (c ∷ t)
  ]

  unfoldable pub message_of : Stream J → Message J
  unfolding content_of
  message_of s = record {
    extras = s.delta_extras;
    role = or_text assistant s.role;
    content = content_of s;
    function_call = s.function_call;
    reasoning = true_text s.reasoning;
    tool_calls = merged_calls (true_list s.tool_calls);
  }

  unfoldable pub finalize : Stream J → Final J
  unfolding is_estimated message_of
  finalize s =
      let estimate = length s.buffer_text / 4 in
      record {
        response_text = s.buffer_text;
        completion_tokens = if is_estimated s then some estimate else s.completion_tokens;
        total_tokens =
            if is_estimated s then some (or_zero s.prompt_tokens + estimate) else s.total_tokens;
        message = message_of s;
        extras = s.choice_extras;
        logprobs = s.logprobs;
        finish_reason = or_text stop s.finish_reason;
        stop_reason = s.stop_reason;
        token_ids = s.prompt_token_ids;
        response_ids = s.token_ids;
        full_conversation_token_ids =
            joined_ids (true_list s.prompt_token_ids) (true_list s.token_ids);
      }
