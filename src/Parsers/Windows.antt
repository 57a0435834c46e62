-- ===== src/Parsers/Windows.antt =====
-- What the tool parser is given of a stream (`parse_delta` of
-- traj_proxy/proxy_core/parsers/parser_manager.py).
use trajproxy.Base.{
  ◌≡◌, refl, Bool, true, false, Option, none, some, List, [], ◌∷◌, ◌++◌, if◌then◌else◌, Bool-cases,
  inl, inr,
}
use trajproxy.Models.{Result, ok, raise, Error}
use trajproxy.Texts.{Text}
use trajproxy.Responses.Ints.{ℤ}
use trajproxy.Pipeline.{DeltaMessage}
use trajproxy.Parsers.{
  Window, ReasoningParser, ToolParser, SubParsers, StreamState, Machine, TextDelta, Passed, Phase,
  goes_on, breaks, reasoned, reasoning_phase, pass, window_of,
}

-- The state of the parsers, with the windows that the tool parser was given, the last one first.
pub record Recorded (P : Type 0) : Type 0 where
  pub inner : P
  pub seen : List Window

abbrev pub map_some : {A B : Type 0} → (A → B) → Option A → Option B
map_some f none = none
map_some f (some a) = some (f a)

module _ {P : Type 0} where
  abbrev pub keep_seen : {A : Type 0} → Recorded P → A × P → A × Recorded P
  keep_seen p (a, q) = (a, record p { inner = q })

  abbrev pub saw : {A : Type 0} → Window → Recorded P → A × P → A × Recorded P
  saw w p (a, q) = (a, record { inner = q; seen = w ∷ p.seen })

  abbrev pub record_reasoning : ReasoningParser P → ReasoningParser (Recorded P)
  record_reasoning r = record {
    is_end = λ p ids. r.is_end p.inner ids;
    extract_streaming = λ p w. keep_seen p (r.extract_streaming p.inner w);
    is_end_streaming = λ p all ids. r.is_end_streaming p.inner all ids;
    content_ids = λ p ids. r.content_ids p.inner ids;
  }

  abbrev pub record_tool : ToolParser P → ToolParser (Recorded P)
  record_tool t = record {
    supports_required = t.supports_required;
    extract_streaming = λ p w. saw w p (t.extract_streaming p.inner w);
    extract_required = λ p w n f. saw w p (t.extract_required p.inner w n f);
    has_called = λ p. t.has_called p.inner;
  }

  -- The same parsers, which also write down what the tool parser is given.
  abbrev pub recorded : SubParsers P → SubParsers (Recorded P)
  recorded subs = record {
    reasoning = map_some record_reasoning subs.reasoning;
    tool = map_some record_tool subs.tool;
  }

abbrev pub last_text : List Window → Text
last_text [] = []
last_text (w ∷ ws) = w.current_text

abbrev pub last_ids : List Window → List ℤ
last_ids [] = []
last_ids (w ∷ ws) = w.current_ids

-- Each window begins where the one before it ended, the first one at nothing, and its delta is
-- what is new in it.
abbrev pub Chained : List Window → Type 0
Chained [] = Unit
Chained (w ∷ ws) =
    (w.previous_text ≡ last_text ws)
    × (w.current_text ≡ w.previous_text ++ w.delta_text)
    × (w.previous_ids ≡ last_ids ws)
    × (w.current_ids ≡ w.previous_ids ++ w.delta_ids)
    × Chained ws

-- The stream's texts are where the tool parser's last window ended, once it was called.
pub record IsAt (has : Bool) (s : StreamState) (seen : List Window) : Type 0 where
  pub text : s.tool_call_text_started ≡ true → s.previous_text ≡ last_text seen
  pub ids : s.tool_call_text_started ≡ true → s.previous_token_ids ≡ last_ids seen
  pub ended : s.tool_call_text_started ≡ true → s.reasoning_ended ≡ true
  pub tooled : s.tool_call_text_started ≡ true → has ≡ true
  pub before : s.tool_call_text_started ≡ false → seen ≡ []
  pub chained : Chained seen

-- The variables after the phase of reasoning.
pub record IsPassed {P : Type 0} (has : Bool) (x : Passed (Recorded P)) : Type 0 where
  pub at : IsAt has x.machine.state x.machine.sub.seen
  pub text_lem :
      x.machine.state.tool_call_text_started ≡ true
      → x.text ≡ x.machine.state.previous_text ++ x.delta_text
  pub ids_lem :
      x.machine.state.tool_call_text_started ≡ true
      → x.ids ≡ x.machine.state.previous_token_ids ++ x.delta_ids

-- What a phase may end with.
pub data Fits {P : Type 0} (Q : Passed (Recorded P) → Type 0) : Phase (Recorded P) → Type 0 where
  fits : (x : Passed (Recorded P)) → Q x → Fits Q (goes_on x)
  broke : (e : Error) (m : Machine (Recorded P)) → Chained m.sub.seen → Fits Q (breaks e m)

module _ {P : Type 0} where
  pub if-Fits :
      (Q : Passed (Recorded P) → Type 0) (b : Bool) (x y : Phase (Recorded P))
      → Fits Q x
      → Fits Q y
      → Fits Q (if b then x else y)
  if-Fits Q true x y f g = f
  if-Fits Q false x y f g = g

  pub pass-IsPassed :
      {has : Bool} (d : TextDelta) (s : StreamState) (p : Recorded P)
      → IsAt has s p.seen
      → IsPassed has (pass d s p)
  pass-IsPassed d s p h = record { at = h; text_lem = λ t. refl; ids_lem = λ t. refl }

  pub reasoned-IsPassed :
      {has : Bool} (r : ReasoningParser P) (w : Window) (s : StreamState) (p : Recorded P)
      (m : Result (Option DeltaMessage) × P)
      → IsAt has s p.seen
      → s.tool_call_text_started ≡ false
      → Fits (IsPassed has) (reasoned (record_reasoning r) w s (keep_seen p m))
  unfolding reasoned
  reasoned-IsPassed {has} r w s p (raise e, q) h n = broke e _ h.chained
  reasoned-IsPassed {has} r w s p (ok m, q) h n =
      if-Fits (IsPassed has) (r.is_end_streaming q w.current_ids w.delta_ids) _ _
        (fits _ (record {
          at = record {
            text = λ t. cc (t, n);
            ids = λ t. cc (t, n);
            ended = λ t. refl;
            tooled = h.tooled;
            before = h.before;
            chained = h.chained;
          };
          text_lem = λ t. cc (t, n);
          ids_lem = λ t. cc (t, n);
        }))
        (fits _ (record { at = h; text_lem = λ t. cc (t, n); ids_lem = λ t. cc (t, n) }))

  pub reasoning_phase-IsPassed :
      {has : Bool} (subs : SubParsers P) (d : TextDelta) (s : StreamState) (p : Recorded P)
      → IsAt has s p.seen
      → Fits (IsPassed has) (reasoning_phase (recorded subs) d s p)
  unfolding reasoning_phase
  reasoning_phase-IsPassed {has} subs d s p h = go subs.reasoning refl
    where
      still : s.reasoning_ended ≡ false → s.tool_call_text_started ≡ false
      still f = elim (Bool-cases s.tool_call_text_started) [ inl t ↦ cc (h.ended t, f) | inr t ↦ t ]

      run : ReasoningParser P → Phase (Recorded P)
      run r =
          reasoned (record_reasoning r) (window_of d s) s
            (keep_seen p (r.extract_streaming p.inner (window_of d s)))

      choose :
          (r : ReasoningParser P) (b : Bool)
          → s.reasoning_ended ≡ b
          → Fits (IsPassed has) (if b then goes_on (pass d s p) else run r)
      choose r true e = fits _ (pass-IsPassed d s p h)
      choose r false e =
          reasoned-IsPassed r (window_of d s) s p (r.extract_streaming p.inner (window_of d s)) h
            (still e)

      go :
          (o : Option (ReasoningParser P))
          → subs.reasoning ≡ o
          → Fits (IsPassed has) (reasoning_phase (recorded subs) d s p)
      go none e = rw (e, reasoning_phase) (fits _ (pass-IsPassed d s p h))
      go (some r) e = rw (e, reasoning_phase) (choose r s.reasoning_ended refl)
