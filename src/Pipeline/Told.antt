-- ===== src/Pipeline/Told.antt =====
-- What the handling of one chunk says of the order of a stream (`_process_stream_chunk` of
-- traj_proxy/proxy_core/pipeline/token_pipeline.py).
use trajproxy.Base.{
  ◌≡◌, refl, sym, ap, ◌∙◌, Bool, true, false, Option, none, some, List, [], ◌∷◌, ◌||◌,
  if◌then◌else◌, nat_beq, is_some, arith, Bool-cases, inl, inr,
}
use mathlib.Core.Path.{subst}
use trajproxy.Models.{Result, ok, raise}
use trajproxy.Texts.{Text, or_empty}
use trajproxy.Responses.Ints.{ℤ}
use trajproxy.Responses.{
  InferChunk, InferChoice, InferLogprobs, Parsed, parse_stream_chunk, is_stream_finished,
  get_finish_reason,
}
use trajproxy.Pipeline.{
  SentChunk, StreamContext, DeltaMessage, Calls, capture, decode_ids, merge_arrays, chunk_logprobs,
  effective_calls, build_chunk, finish_of, delta_content, delta_reasoning, has_text,
}
use trajproxy.Pipeline.Chunks.{
  Setup, Handled, is_worth, emit, deliver, parse_step, process_stream_chunk,
}

pub or-false : (a b : Bool) → (a || b) ≡ false → (a ≡ false) × (b ≡ false)
or-false true b h = ground (arith, h)
or-false false b h = (refl, h)

module _ {J : Type 0} where
  -- The role stands in the first chunk only, and behind a reason to finish there is nothing.
  abbrev pub Ordered : Bool → List (SentChunk J) → Type 0
  Ordered first [] = Unit
  Ordered first (x ∷ xs) =
      (x.role ≡ first) × (is_some x.finish_reason ≡ true → xs ≡ []) × Ordered false xs

  -- Some chunk has a reason to finish.
  abbrev pub finishes : List (SentChunk J) → Bool
  finishes [] = false
  finishes (x ∷ xs) = is_some x.finish_reason || finishes xs

  -- What may be said of a result: a chunk that is not sent has no reason to finish and is not the
  -- first one.
  abbrev pub Tells : Bool → Bool → Result (Option (SentChunk J)) → Type 0
  Tells first over (raise e) = Unit
  Tells first over (ok none) = (over ≡ false) × (first ≡ false)
  Tells first over (ok (some x)) = (x.role ≡ first) × (is_some x.finish_reason ≡ over)

  -- A chunk that fails does not end the stream.
  abbrev pub is_over : Result (Option (SentChunk J)) → Bool → Bool
  is_over (raise e) over = false
  is_over (ok x) over = over

  pub finish_of-some :
      (called : Bool) (c : InferChunk J) → is_some (finish_of called c) ≡ is_stream_finished c
  unfolding finish_of is_stream_finished get_finish_reason
  finish_of-some called c = go called c.choices refl
    where
      go :
          (b : Bool) (cs : List (InferChoice J))
          → c.choices ≡ cs
          → is_some (finish_of b c) ≡ is_stream_finished c
      go b [] e = rw (e, finish_of) refl
      go b (x ∷ xs) e = ground (arith, e)

  pub is_worth-false :
      (d : Option DeltaMessage) (calls : Option (Calls J)) (finish : Option Text)
      (s : StreamContext J)
      → is_worth d calls finish s ≡ false
      → (is_some finish ≡ false) × (nat_beq s.chunk_count 0 ≡ false)
  unfolding is_worth
  is_worth-false d calls finish s h =
      let a = or-false (has_text (delta_content d)) _ h in
      let b = or-false (is_some calls) _ a.1 in
      let e = or-false (is_some (delta_reasoning d)) _ b.1 in
      or-false (is_some finish) (nat_beq s.chunk_count 0) e.1

  pub record Told {P : Type 0} (c : InferChunk J) (s : StreamContext J) (h : Handled J P)
      : Type 0 where
    pub count : h.context.chunk_count ≡ s.chunk_count
    pub over : h.context.finished ≡ (is_over h.result (is_stream_finished c) || s.finished)
    pub tells : Tells (nat_beq s.chunk_count 0) (is_stream_finished c) h.result

pub decode_ids_still :
    {J : Type 0} (decode : List ℤ → Text) (parsed : Parsed J) (s : StreamContext J)
    → ((decode_ids decode parsed s).1.chunk_count ≡ s.chunk_count)
      × ((decode_ids decode parsed s).1.finished ≡ s.finished)
unfolding decode_ids
decode_ids_still decode parsed s = go (or_empty parsed.token_ids) refl
  where
    go :
        (ids : List ℤ)
        → or_empty parsed.token_ids ≡ ids
        → ((decode_ids decode parsed s).1.chunk_count ≡ s.chunk_count)
          × ((decode_ids decode parsed s).1.finished ≡ s.finished)
    go [] e = rw (e, decode_ids) (refl, refl)
    go (z ∷ zs) e = rw (e, decode_ids) (refl, refl)

module _ {J P : Type 0} (setup : Setup P) where
  pub emit-Told :
      (c : InferChunk J) (parsed : Parsed J) (d : Option DeltaMessage) (p : P) (s : StreamContext J)
      → Told c s (emit setup c parsed d p s)
  unfolding emit build_chunk is_worth
  emit-Told c parsed d p s = go (merge_arrays (chunk_logprobs c) s.logprobs) refl
    where
      calls : Option (Calls J)
      calls = effective_calls d parsed.tool_calls

      finish : Option Text
      finish = finish_of (setup.parser.called p) c

      some_finish : is_some finish ≡ is_stream_finished c
      some_finish = finish_of-some (setup.parser.called p) c

      go :
          (m : Result (Option (InferLogprobs J)))
          → merge_arrays (chunk_logprobs c) s.logprobs ≡ m
          → Told c s (emit setup c parsed d p s)
      go (raise e) f = rw (f, emit) (record { count = refl; over = refl; tells = tt })
      go (ok l) f = elim (Bool-cases (is_worth d calls finish s)) [
        | inl w ↦
            rw (f, emit)
              (rw (w, emit) (record { count = refl; over = refl; tells = (refl, some_finish) }))
        | inr w ↦
            rw (f, emit)
              (rw (w, emit)
                (record {
                  count = refl;
                  over = refl;
                  tells = (
                    sym some_finish ∙ (is_worth-false d calls finish s w).0,
                    (is_worth-false d calls finish s w).1,
                  );
                }))
      ]

  pub deliver-Told :
      (c : InferChunk J) (parsed : Parsed J) (s : StreamContext J)
      (m : Result (Option DeltaMessage) × P)
      → Told c s (deliver setup c parsed s m)
  unfolding deliver
  deliver-Told c parsed s (raise e, p) = record { count = refl; over = refl; tells = tt }
  deliver-Told c parsed s (ok d, p) = emit-Told c parsed d p s

  pub process_stream_chunk-Told :
      (c : InferChunk J) (p : P) (s : StreamContext J) → Told c s (process_stream_chunk setup c p s)
  unfolding process_stream_chunk capture parse_step
  process_stream_chunk-Told c p s = go (parse_stream_chunk setup.digit c true) refl
    where
      go :
          (m : Result (Parsed J))
          → parse_stream_chunk setup.digit c true ≡ m
          → Told c s (process_stream_chunk setup c p s)
      go (raise e) f =
          rw (f, process_stream_chunk) (record { count = refl; over = refl; tells = tt })
      go (ok parsed) f =
          let t = decode_ids setup.decode parsed (capture c s) in
          let told = deliver-Told c parsed t.1 (
            setup.parser.parse p (or_empty t.0) (or_empty parsed.token_ids)
              (if nat_beq t.1.chunk_count 0 then some setup.prompt_ids else none)) in
          let (same, over) = decode_ids_still setup.decode parsed (capture c s) in
          let h = deliver setup c parsed t.1 (
            setup.parser.parse p (or_empty t.0) (or_empty parsed.token_ids)
              (if nat_beq t.1.chunk_count 0 then some setup.prompt_ids else none)) in
          rw (f, process_stream_chunk)
            (record {
              count = told.count ∙ same;
              over = told.over ∙ ap (λ b. is_over h.result (is_stream_finished c) || b) over;
              tells =
                  subst (λ n. Tells (nat_beq n 0) (is_stream_finished c) h.result) (same)
                    told.tells;
            })
