-- ===== src/Parsers/Chains.antt =====
-- What the tool parser is given of a whole stream (`parse_delta` of
-- traj_proxy/proxy_core/parsers/parser_manager.py).
use trajproxy.Base.{
  refl, Bool, true, false, Option, none, some, List, [], ◌∷◌, if◌then◌else◌, is_some,
}
use trajproxy.Models.{Result, ok, raise}
use trajproxy.Responses.Ints.{ℤ}
use trajproxy.Pipeline.{DeltaMessage}
use trajproxy.Parsers.{
  SubParsers, ToolChoice, StreamState, Machine, TextDelta, Phase, check_prompt, prompt_ends,
}
use trajproxy.Parsers.Deltas.{end_phase, then_tools, parse_delta, go_on, parse_deltas, machine_init}
use trajproxy.Parsers.Windows.{
  Chained, Fits, IsAt, IsPassed, Recorded, reasoning_phase-IsPassed, recorded, fits, broke,
}
use trajproxy.Parsers.Calls.{IsDone, tool_phase-IsDone}

module _ {P : Type 0} where
  check_prompt-IsAt :
      {has : Bool} (subs : SubParsers (Recorded P)) (p : Recorded P) (prompt : Option (List ℤ))
      (s : StreamState)
      → IsAt has s p.seen
      → IsAt has (check_prompt subs p prompt s) p.seen
  unfolding check_prompt
  check_prompt-IsAt subs p none s h = h
  check_prompt-IsAt {has} subs p (some ids) s h =
      choose s.prompt_reasoning_checked (prompt_ends subs p ids)
    where
      choose :
          (b e : Bool)
          → IsAt has
              (if b then s else record s {
                prompt_reasoning_checked = true;
                reasoning_ended = if e then true else s.reasoning_ended;
              })
              p.seen
      choose true e = h
      choose false true = record {
        text = h.text;
        ids = h.ids;
        ended = λ t. refl;
        tooled = h.tooled;
        before = h.before;
        chained = h.chained;
      }
      choose false false = record {
        text = h.text;
        ids = h.ids;
        ended = h.ended;
        tooled = h.tooled;
        before = h.before;
        chained = h.chained;
      }

  -- A machine after a delta: all is in order, unless the delta raised.
  abbrev Stands : Bool → Result (Option DeltaMessage) × Machine (Recorded P) → Type 0
  Stands has (raise e, m) = Chained m.sub.seen
  Stands has (ok x, m) = IsAt has m.state m.sub.seen

  end_phase-Stands :
      (subs : SubParsers P) (x : Phase (Recorded P))
      → Fits (IsDone (is_some subs.tool)) x
      → Stands (is_some subs.tool) (end_phase (recorded subs) x)
  unfolding end_phase
  end_phase-Stands subs x (fits y h) = h
  end_phase-Stands subs x (broke e m h) = h

  then_tools-IsDone :
      (subs : SubParsers P) (choice : ToolChoice) (x : Phase (Recorded P))
      → Fits (IsPassed (is_some subs.tool)) x
      → Fits (IsDone (is_some subs.tool)) (then_tools (recorded subs) choice x)
  unfolding then_tools
  then_tools-IsDone subs choice x (fits y h) = tool_phase-IsDone subs choice y refl h
  then_tools-IsDone subs choice x (broke e m h) = broke e m h

  parse_delta-Stands :
      (subs : SubParsers P) (choice : ToolChoice) (d : TextDelta) (m : Machine (Recorded P))
      → IsAt (is_some subs.tool) m.state m.sub.seen
      → Stands (is_some subs.tool) (parse_delta (recorded subs) choice d m)
  unfolding parse_delta
  parse_delta-Stands subs choice d m h =
      let s = check_prompt (recorded subs) m.sub d.prompt m.state in
      let at = check_prompt-IsAt (recorded subs) m.sub d.prompt m.state h in
      end_phase-Stands subs _
        (then_tools-IsDone subs choice _ (reasoning_phase-IsPassed subs d s m.sub at))

  parse_deltas-IsAt :
      (subs : SubParsers P) (choice : ToolChoice) (ds : List TextDelta) (m : Machine (Recorded P))
      → IsAt (is_some subs.tool) m.state m.sub.seen
      → Chained (parse_deltas (recorded subs) choice ds m).sub.seen
  unfolding parse_deltas
  parse_deltas-IsAt subs choice [] m h = h.chained
  parse_deltas-IsAt subs choice (d ∷ ds) m h =
      go (parse_delta (recorded subs) choice d m) (parse_delta-Stands subs choice d m h)
        (parse_deltas-IsAt subs choice ds)
    where
      go :
          (r : Result (Option DeltaMessage) × Machine (Recorded P))
          → Stands (is_some subs.tool) r
          → ((m' : Machine (Recorded P))
              → IsAt (is_some subs.tool) m'.state m'.sub.seen
              → Chained (parse_deltas (recorded subs) choice ds m').sub.seen)
          → Chained (go_on r (parse_deltas (recorded subs) choice ds)).sub.seen
      go (raise e, m') st rest = st
      go (ok x, m') st rest = rest m' st

  -- Whatever the parsers of a model do, and whatever deltas a stream brings: the texts and the token
  -- ids that the tool parser is given have no gap and no overlap. Each call begins where the one
  -- before it ended, the first one at nothing, and its delta is what is new.
  pub parse_deltas-Chained :
      (subs : SubParsers P) (choice : ToolChoice) (ds : List TextDelta) (p : P)
      → Chained
          (parse_deltas
            (recorded subs)
            choice
            ds
            (machine_init (record { inner = p; seen = [] }))).sub.seen
  parse_deltas-Chained subs choice ds p =
      parse_deltas-IsAt subs choice ds (machine_init (record { inner = p; seen = [] })) (record {
        text = λ t. cc (t);
        ids = λ t. cc (t);
        ended = λ t. cc (t);
        tooled = λ t. cc (t);
        before = λ t. refl;
        chained = tt;
      })
