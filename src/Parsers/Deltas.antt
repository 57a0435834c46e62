-- ===== src/Parsers/Deltas.antt =====
-- The end of `parse_delta` of `Parser` in traj_proxy/proxy_core/parsers/parser_manager.py: the phase of
-- tool calls, and what is left as content.
use trajproxy.Base.{
  ℕ, suc, Bool, true, false, Option, none, some, List, [], ◌∷◌, if◌then◌else◌, ◌&&◌, not, is_some,
}
use trajproxy.Models.{Result, ok, raise}
use trajproxy.Pipeline.{DeltaMessage, Parser, delta_reasoning}
use trajproxy.Parsers.{
  Window, SubParsers, ToolChoice, state_init, Machine, TextDelta, Passed, Phase, goes_on, breaks,
  no_delta, keep_reasoning, begins_call, in_reasoning, in_tools, check_prompt, reasoning_phase,
  extract_calls,
}

abbrev pub count_call : Option DeltaMessage → ℕ → ℕ
count_call m n = if begins_call m then suc n else n

module _ {P : Type 0} where
  -- At its first call the tool parser is given the text from its beginning.
  unfoldable pub tool_window : Passed P → Window
  tool_window x =
      let s = x.machine.state in
      if s.tool_call_text_started
      then record {
        previous_text = s.previous_text;
        current_text = x.text;
        delta_text = x.delta_text;
        previous_ids = s.previous_token_ids;
        current_ids = x.ids;
        delta_ids = x.delta_ids;
      }
      else record {
        previous_text = [];
        current_text = x.text;
        delta_text = x.text;
        previous_ids = [];
        current_ids = x.ids;
        delta_ids = x.ids;
      }

  -- What the tool parser returned.
  unfoldable pub after_calls : Passed P → Window → Result (Option DeltaMessage × Bool) × P → Phase P
  unfolding keep_reasoning begins_call
  after_calls x w (raise e, p) = breaks e (record { state = x.machine.state; sub = p })
  after_calls x w (ok (m, returned), p) =
      let message = keep_reasoning (delta_reasoning x.message) m in
      let s = x.machine.state in
      goes_on (record x {
        message = message;
        delta_text = w.delta_text;
        delta_ids = w.delta_ids;
        machine = record {
          state = record s {
            tool_call_text_started = true;
            previous_text = w.previous_text;
            previous_token_ids = w.previous_ids;
            function_name_returned = returned;
            history_tool_call_cnt = count_call message s.history_tool_call_cnt;
          };
          sub = p;
        };
      })

  unfoldable pub tool_phase : SubParsers P → ToolChoice → Passed P → Phase P
  unfolding after_calls tool_window extract_calls
  tool_phase subs choice x = elim subs.tool [
    | none ↦ goes_on x
    | some t ↦
        if x.machine.state.reasoning_ended
        then after_calls x (tool_window x)
            (extract_calls t choice x.machine.sub (tool_window x) x.machine.state)
        else goes_on x
  ]

  -- Where no phase is active the delta is content; then the stream's texts are moved on.
  unfoldable pub finish_delta : SubParsers P → Passed P → Result (Option DeltaMessage) × Machine P
  unfolding in_reasoning in_tools
  finish_delta subs x =
      let s = x.machine.state in
      let silent =
        not (is_some x.message) && (not (in_reasoning subs s) && not (in_tools subs s)) in
      (
        ok (if silent then some (record no_delta { content = some x.delta_text }) else x.message),
        record {
          state = record s { previous_text = x.text; previous_token_ids = x.ids };
          sub = x.machine.sub;
        },
      )

  unfoldable pub end_phase : SubParsers P → Phase P → Result (Option DeltaMessage) × Machine P
  unfolding finish_delta
  end_phase subs (breaks e m) = (raise e, m)
  end_phase subs (goes_on x) = finish_delta subs x

  unfoldable pub then_tools : SubParsers P → ToolChoice → Phase P → Phase P
  unfolding tool_phase
  then_tools subs choice (breaks e m) = breaks e m
  then_tools subs choice (goes_on x) = tool_phase subs choice x

  unfoldable pub parse_delta :
      SubParsers P → ToolChoice → TextDelta → Machine P → Result (Option DeltaMessage) × Machine P
  unfolding end_phase then_tools reasoning_phase check_prompt
  parse_delta subs choice d m =
      let s = check_prompt subs m.sub d.prompt m.state in
      end_phase subs (then_tools subs choice (reasoning_phase subs d s m.sub))

  -- The deltas of a stream, until one raises.
  unfoldable pub go_on :
      Result (Option DeltaMessage) × Machine P → (Machine P → Machine P) → Machine P
  go_on (raise e, m) next = m
  go_on (ok x, m) next = next m

  unfoldable pub parse_deltas : SubParsers P → ToolChoice → List TextDelta → Machine P → Machine P
  unfolding parse_delta go_on
  parse_deltas subs choice [] m = m
  parse_deltas subs choice (d ∷ ds) m =
      go_on (parse_delta subs choice d m) (parse_deltas subs choice ds)

  abbrev pub machine_init : P → Machine P
  machine_init p = record { state = state_init; sub = p }

  -- The parser of a request, as the token pipeline uses it.
  unfoldable pub parser_of : SubParsers P → ToolChoice → Parser (Machine P)
  unfolding parse_delta
  parser_of subs choice = record {
    parse = λ m text ids prompt.
        parse_delta subs choice (record { text = text; ids = ids; prompt = prompt }) m;
    called = λ m. elim subs.tool [ none ↦ false | some t ↦ t.has_called m.sub ];
    reasoning_ended = λ m. m.state.reasoning_ended;
    has_reasoning = λ m. is_some subs.reasoning;
    is_reasoning_end = λ m ids. elim subs.reasoning [ none ↦ false | some r ↦ r.is_end m.sub ids ];
  }
