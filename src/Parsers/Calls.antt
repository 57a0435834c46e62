-- ===== src/Parsers/Calls.antt =====
-- The phase of tool calls of `parse_delta` (traj_proxy/proxy_core/parsers/parser_manager.py) keeps the
-- windows of the tool parser in order.
use trajproxy.Base.{
  ◌≡◌, refl, sym, ap, ◌∙◌, Bool, true, false, Option, none, some, ◌∷◌, if◌then◌else◌, is_some,
  Bool-cases, inl, inr,
}
use mathlib.Core.Path.{subst}
use trajproxy.Models.{Result, ok, raise}
use trajproxy.Pipeline.{DeltaMessage}
use trajproxy.Parsers.{
  Window, ToolParser, SubParsers, ToolChoice, auto, required, as_dict, StreamState, Passed, Phase,
  goes_on, extract_calls, with_flag,
}
use trajproxy.Parsers.Deltas.{tool_window, after_calls, tool_phase}
use trajproxy.Parsers.Windows.{
  Chained, Fits, IsAt, IsPassed, Recorded, last_ids, last_text, record_tool, recorded, saw, fits,
  broke,
}

module _ {P : Type 0} where
  -- The variables after the phase of tool calls.
  abbrev pub IsDone : Bool → Passed (Recorded P) → Type 0
  IsDone has x =
      IsAt has (record x.machine.state { previous_text = x.text; previous_token_ids = x.ids })
        x.machine.sub.seen

  pub tool_window-Chained :
      {has : Bool} (x : Passed (Recorded P))
      → IsPassed has x
      → Chained (tool_window x ∷ x.machine.sub.seen)
  unfolding tool_window
  tool_window-Chained x h = choose x.machine.state.tool_call_text_started refl
    where
      choose :
          (b : Bool)
          → x.machine.state.tool_call_text_started ≡ b
          → Chained (tool_window x ∷ x.machine.sub.seen)
      choose true e =
          rw (e, tool_window) (h.at.text e, h.text_lem e, h.at.ids e, h.ids_lem e, h.at.chained)
      choose false e =
          rw (e, tool_window)
            (
              sym (ap last_text (h.at.before e)),
              refl,
              sym (ap last_ids (h.at.before e)),
              refl,
              h.at.chained,
            )

  pub tool_window_ends :
      (x : Passed (Recorded P))
      → ((tool_window x).current_text ≡ x.text) × ((tool_window x).current_ids ≡ x.ids)
  unfolding tool_window
  tool_window_ends x = choose x.machine.state.tool_call_text_started refl
    where
      choose :
          (b : Bool)
          → x.machine.state.tool_call_text_started ≡ b
          → ((tool_window x).current_text ≡ x.text) × ((tool_window x).current_ids ≡ x.ids)
      choose true e = rw (e, tool_window) (refl, refl)
      choose false e = rw (e, tool_window) (refl, refl)

  pub with_flag-seen :
      (flag : Bool) (p : Recorded P) (w : Window) (m : Result (Option DeltaMessage) × P)
      → (with_flag flag (saw w p m)).1.seen ≡ w ∷ p.seen
  with_flag-seen flag p w (raise e, q) = refl
  with_flag-seen flag p w (ok m, q) = refl

  -- Every extraction writes its window down.
  pub extract_calls-seen :
      (t : ToolParser P) (choice : ToolChoice) (p : Recorded P) (w : Window) (s : StreamState)
      → (extract_calls (record_tool t) choice p w s).1.seen ≡ w ∷ p.seen
  unfolding extract_calls
  extract_calls-seen t auto p w s =
      with_flag-seen s.function_name_returned p w (t.extract_streaming p.inner w)
  extract_calls-seen t as_dict p w s =
      with_flag-seen s.function_name_returned p w (t.extract_streaming p.inner w)
  extract_calls-seen t required p w s =
      elim t.supports_required
        as (λ b.
          (if b
            then saw w p
                (t.extract_required p.inner w s.history_tool_call_cnt s.function_name_returned)
            else with_flag s.function_name_returned
                (saw w p (t.extract_streaming p.inner w))).1.seen
          ≡ w ∷ p.seen) [
            | true ↦ refl
            | false ↦ with_flag-seen s.function_name_returned p w (t.extract_streaming p.inner w)
          ]

  pub after_calls-IsDone :
      {has : Bool} (x : Passed (Recorded P)) (w : Window)
      (r : Result (Option DeltaMessage × Bool) × Recorded P)
      → r.1.seen ≡ w ∷ x.machine.sub.seen
      → (w.current_text ≡ x.text) × (w.current_ids ≡ x.ids)
      → Chained (w ∷ x.machine.sub.seen)
      → x.machine.state.reasoning_ended ≡ true
      → has ≡ true
      → Fits (IsDone has) (after_calls x w r)
  unfolding after_calls
  after_calls-IsDone x w (raise e, p) same ends h over g = broke e _ (subst Chained (sym same) h)
  after_calls-IsDone x w (ok (m, f), p) same ends h over g = fits _ (record {
    text = λ t. sym (ap last_text same ∙ ends.0);
    ids = λ t. sym (ap last_ids same ∙ ends.1);
    ended = λ t. over;
    tooled = λ t. g;
    before = λ t. cc (t);
    chained = subst Chained (sym same) h;
  })

  pub tool_phase-IsDone :
      {has : Bool} (subs : SubParsers P) (choice : ToolChoice) (x : Passed (Recorded P))
      → is_some subs.tool ≡ has
      → IsPassed has x
      → Fits (IsDone has) (tool_phase (recorded subs) choice x)
  unfolding tool_phase
  tool_phase-IsDone {has} subs choice x same h = go subs.tool refl
    where
      idle : x.machine.state.tool_call_text_started ≡ false → IsDone has x
      idle n = record {
        text = λ t. cc (t, n);
        ids = λ t. cc (t, n);
        ended = λ t. cc (t, n);
        tooled = λ t. cc (t, n);
        before = h.at.before;
        chained = h.at.chained;
      }

      run : ToolParser P → Phase (Recorded P)
      run t =
          after_calls x (tool_window x)
            (extract_calls (record_tool t) choice x.machine.sub (tool_window x) x.machine.state)

      never : has ≡ false → x.machine.state.tool_call_text_started ≡ false
      never n = elim (Bool-cases x.machine.state.tool_call_text_started) [
        | inl t ↦ cc (h.at.tooled t, n)
        | inr t ↦ t
      ]

      early :
          x.machine.state.reasoning_ended ≡ false → x.machine.state.tool_call_text_started ≡ false
      early n = elim (Bool-cases x.machine.state.tool_call_text_started) [
        | inl t ↦ cc (h.at.ended t, n)
        | inr t ↦ t
      ]

      choose :
          (t : ToolParser P) (b : Bool)
          → x.machine.state.reasoning_ended ≡ b
          → has ≡ true
          → Fits (IsDone has) (if b then run t else goes_on x)
      choose t false e g = fits _ (idle (early e))
      choose t true e g =
          after_calls-IsDone x (tool_window x) _
            (extract_calls-seen t choice x.machine.sub (tool_window x) x.machine.state)
            (tool_window_ends x) (tool_window-Chained x h) e g

      go :
          (o : Option (ToolParser P))
          → subs.tool ≡ o
          → Fits (IsDone has) (tool_phase (recorded subs) choice x)
      go none e = rw (e, tool_phase) (fits _ (idle (never (sym same ∙ ap is_some e))))
      go (some t) e =
          rw (e, tool_phase)
            (choose t x.machine.state.reasoning_ended refl (sym same ∙ ap is_some e))
