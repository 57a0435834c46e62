-- ===== src/Parsers.antt =====
-- `parse_delta` of `Parser` in traj_proxy/proxy_core/parsers/parser_manager.py: a stream goes through
-- reasoning, tool calls and content. The parsers of the models are interfaces: `P` are their states.
pub mod Deltas
pub mod Windows
pub mod Calls
pub mod Chains
pub mod Plain
pub mod Decoded
use trajproxy.Base.{
  ℕ, suc, Bool, true, false, Option, none, some, List, [], ◌∷◌, ◌++◌, if◌then◌else◌, ◌&&◌, not,
  is_some,
}
use trajproxy.Models.{Result, ok, raise, Error}
use trajproxy.Texts.{Text, or_empty}
use trajproxy.ToolCalls.{Entry, missing, null, value, Piece}
use trajproxy.Responses.Ints.{ℤ}
use trajproxy.Pipeline.{DeltaMessage, Parser, delta_content, delta_reasoning}

-- What a parser is given of a stream.
pub record Window : Type 0 where
  pub previous_text : Text
  pub current_text : Text
  pub delta_text : Text
  pub previous_ids : List ℤ
  pub current_ids : List ℤ
  pub delta_ids : List ℤ

pub record ReasoningParser (P : Type 0) : Type 0 where
  pub is_end : P → List ℤ → Bool
  pub extract_streaming : P → Window → Result (Option DeltaMessage) × P
  pub is_end_streaming : P → List ℤ → List ℤ → Bool
  pub content_ids : P → List ℤ → List ℤ

-- The tool parser, and the extraction for requests that require a call. The number of calls so far
-- and the flag are those of the stream's state.
pub record ToolParser (P : Type 0) : Type 0 where
  pub supports_required : Bool
  pub extract_streaming : P → Window → Result (Option DeltaMessage) × P
  pub extract_required : P → Window → ℕ → Bool → Result (Option DeltaMessage × Bool) × P
  pub has_called : P → Bool

pub record SubParsers (P : Type 0) : Type 0 where
  pub reasoning : Option (ReasoningParser P)
  pub tool : Option (ToolParser P)

-- `tool_choice` of a request; a dict is not the object with a function that the code asks for.
pub data ToolChoice : Type 0 where
  auto required as_dict : ToolChoice

pub record StreamState : Type 0 where
  pub reasoning_ended : Bool
  pub tool_call_text_started : Bool
  pub prompt_reasoning_checked : Bool
  pub previous_text : Text
  pub previous_token_ids : List ℤ
  pub history_tool_call_cnt : ℕ
  pub function_name_returned : Bool

abbrev pub state_init : StreamState
state_init = record {
  reasoning_ended = false;
  tool_call_text_started = false;
  prompt_reasoning_checked = false;
  previous_text = [];
  previous_token_ids = [];
  history_tool_call_cnt = 0;
  function_name_returned = false;
}

-- The state of a request's parser.
pub record Machine (P : Type 0) : Type 0 where
  pub state : StreamState
  pub sub : P

pub record TextDelta : Type 0 where
  pub text : Text
  pub ids : List ℤ
  pub prompt : Option (List ℤ)

-- The variables of `parse_delta` between its phases.
pub record Passed (P : Type 0) : Type 0 where
  pub message : Option DeltaMessage
  pub text : Text
  pub ids : List ℤ
  pub delta_text : Text
  pub delta_ids : List ℤ
  pub machine : Machine P

-- A phase goes on, or an exception leaves the machine as it is.
pub data Phase (P : Type 0) : Type 0 where
  goes_on : Passed P → Phase P
  breaks : Error → Machine P → Phase P

abbrev pub no_delta : DeltaMessage
no_delta = record { content = none; reasoning = none; tool_calls = [] }

abbrev pub or_new : Option DeltaMessage → DeltaMessage
or_new none = no_delta
or_new (some m) = m

-- The reasoning of a delta is not lost to the one that replaces it.
unfoldable pub keep_reasoning : Option Text → Option DeltaMessage → Option DeltaMessage
keep_reasoning none m = m
keep_reasoning (some []) m = m
keep_reasoning (some (c ∷ t)) m = some (record (or_new m) { reasoning = some (c ∷ t) })

-- `delta_message.tool_calls[0].id is not None`
unfoldable pub begins_call : Option DeltaMessage → Bool
begins_call none = false
begins_call (some m) = elim m.tool_calls [
  | [] ↦ false
  | t ∷ ts ↦ elim t.id [ missing ↦ false | null ↦ false | value i ↦ true ]
]

abbrev pub window_of : TextDelta → StreamState → Window
window_of d s = record {
  previous_text = s.previous_text;
  current_text = s.previous_text ++ d.text;
  delta_text = d.text;
  previous_ids = s.previous_token_ids;
  current_ids = s.previous_token_ids ++ d.ids;
  delta_ids = d.ids;
}

module _ {P : Type 0} where
  unfoldable pub in_reasoning : SubParsers P → StreamState → Bool
  in_reasoning subs s = elim subs.reasoning [ none ↦ false | some r ↦ not s.reasoning_ended ]

  unfoldable pub in_tools : SubParsers P → StreamState → Bool
  in_tools subs s = elim subs.tool [ none ↦ false | some t ↦ s.reasoning_ended ]

  -- `self._reasoning_parser is None or self.is_reasoning_end(prompt_token_ids)`
  abbrev pub prompt_ends : SubParsers P → P → List ℤ → Bool
  prompt_ends subs p ids = elim subs.reasoning [ none ↦ true | some r ↦ r.is_end p ids ]

  unfoldable pub check_prompt : SubParsers P → P → Option (List ℤ) → StreamState → StreamState
  check_prompt subs p none s = s
  check_prompt subs p (some ids) s = if s.prompt_reasoning_checked then s else record s {
    prompt_reasoning_checked = true;
    reasoning_ended = if prompt_ends subs p ids then true else s.reasoning_ended;
  }

  -- What the reasoning parser returned; behind its end only the content goes on.
  unfoldable pub reasoned :
      ReasoningParser P → Window → StreamState → Result (Option DeltaMessage) × P → Phase P
  reasoned r w s (raise e, p) = breaks e (record { state = s; sub = p })
  reasoned r w s (ok m, p) =
      if r.is_end_streaming p w.current_ids w.delta_ids
      then goes_on (record {
        message = m;
        text = or_empty (delta_content m);
        ids = r.content_ids p w.delta_ids;
        delta_text = or_empty (delta_content m);
        delta_ids = r.content_ids p w.delta_ids;
        machine = record { state = record s { reasoning_ended = true }; sub = p };
      })
      else goes_on (record {
        message = m;
        text = w.current_text;
        ids = w.current_ids;
        delta_text = w.delta_text;
        delta_ids = w.delta_ids;
        machine = record { state = s; sub = p };
      })

  abbrev pub pass : TextDelta → StreamState → P → Passed P
  pass d s p = record {
    message = none;
    text = s.previous_text ++ d.text;
    ids = s.previous_token_ids ++ d.ids;
    delta_text = d.text;
    delta_ids = d.ids;
    machine = record { state = s; sub = p };
  }

  unfoldable pub reasoning_phase : SubParsers P → TextDelta → StreamState → P → Phase P
  unfolding reasoned
  reasoning_phase subs d s p = elim subs.reasoning [
    | none ↦ goes_on (pass d s p)
    | some r ↦
        if s.reasoning_ended
        then goes_on (pass d s p)
        else reasoned r (window_of d s) s (r.extract_streaming p (window_of d s))
  ]

  abbrev pub with_flag :
      Bool → Result (Option DeltaMessage) × P → Result (Option DeltaMessage × Bool) × P
  with_flag flag (raise e, p) = (raise e, p)
  with_flag flag (ok m, p) = (ok (m, flag), p)

  -- `_extract_tool_calls_streaming`; only a request that requires a call has the flag changed.
  unfoldable pub extract_calls :
      ToolParser P → ToolChoice → P → Window → StreamState → Result (Option DeltaMessage × Bool) × P
  extract_calls t required p w s =
      if t.supports_required
      then t.extract_required p w s.history_tool_call_cnt s.function_name_returned
      else with_flag s.function_name_returned (t.extract_streaming p w)
  extract_calls t choice p w s = with_flag s.function_name_returned (t.extract_streaming p w)
