-- ===== src/Pipeline/Kept.antt =====
-- What a stream through the token pipeline keeps: the token ids of the chunks that it has handled.
use trajproxy.Base.{
  ℕ, ◌≡◌, refl, sym, ap, ◌∙◌, Bool, true, false, Option, none, some, List, [], ◌∷◌, ◌++◌,
  if◌then◌else◌, ◌||◌, nat_beq, arith, append-nil, append_assoc,
}
use mathlib.Core.Path.{subst}
use trajproxy.Models.{Result, ok, raise}
use trajproxy.Texts.{or_empty}
use trajproxy.Encoding.Decoding.{Stream, decode_streaming-checkpoint}
use trajproxy.Responses.Ints.{ℤ}
use trajproxy.Responses.{InferChunk, InferLogprobs, Parsed, parse_stream_chunk, is_stream_finished}
use trajproxy.Pipeline.{
  SentChunk, StreamContext, capture, decode_ids, merge_arrays, chunk_logprobs, DeltaMessage,
}
use trajproxy.Pipeline.Chunks.{Setup, emit, deliver, parse_step, process_stream_chunk}
use trajproxy.Pipeline.Streams.{
  Arrival, chunk, broken, cancelled, Ending, completed, left, closed, failed, Looped, loop,
  after_chunk, counted,
}

-- The token ids of a chunk.
abbrev pub ids_of : {J : Type 0} → (ℕ → Option ℕ) → InferChunk J → List ℤ
ids_of digit c = elim (parse_stream_chunk digit c true) [
  | raise e ↦ []
  | ok parsed ↦ or_empty parsed.token_ids
]

pub ids_of-ok :
    {J : Type 0} (digit : ℕ → Option ℕ) (c : InferChunk J) (parsed : Parsed J)
    → parse_stream_chunk digit c true ≡ ok parsed
    → ids_of digit c ≡ or_empty parsed.token_ids
ids_of-ok digit c parsed f = ground (arith, f)

-- The token ids of all chunks that arrive before the task is cancelled or the service breaks off, up
-- to the first chunk with a reason to finish.
unfoldable pub ids_read : {J : Type 0} → (ℕ → Option ℕ) → List (Arrival J) → List ℤ
ids_read digit [] = []
ids_read digit (broken e ∷ more) = []
ids_read digit (cancelled ∷ more) = []
ids_read digit (chunk c ∷ more) =
    ids_of digit c ++ (let rest = ids_read digit more in if is_stream_finished c then [] else rest)

-- The stream has come to its end, or its task was cancelled.
abbrev pub NotFailed : Ending → Type 0
NotFailed completed = Unit
NotFailed left = Unit
NotFailed closed = ⊥
NotFailed (failed e) = ⊥

-- Without token ids there is no text.
abbrev pub IsQuiet : Stream ℤ → Type 0
IsQuiet s = s.stream_buffer_ids ≡ [] → s.stream_buffer_text ≡ []

-- The context after a chunk: its ids are in the buffer, and its end is noted.
pub record Step {J : Type 0} (ids : List ℤ) (over : Bool) (s s' : StreamContext J) : Type 0 where
  pub ids_lem : s'.decoded.stream_buffer_ids ≡ s.decoded.stream_buffer_ids ++ ids
  pub quiet : IsQuiet s.decoded → IsQuiet s'.decoded
  pub finished : s'.finished ≡ (over || s.finished)

not_nil : (a : List ℤ) (z : ℤ) (zs : List ℤ) → a ++ z ∷ zs ≡ [] → ⊥
not_nil [] z zs h = cc (h)
not_nil (x ∷ a) z zs h = cc (h)

pub or-eq : {r : Bool} (a b : Bool) → r ≡ (a || b) → b ≡ false → a ≡ r
or-eq true b h k = ground (arith, h)
or-eq false b h k = ground (arith, h, k)

-- What a handled chunk leads to satisfies `Q` if the chunk's context does, at its end, and if what
-- the loop goes on with does.
after-keeps :
    {J : Type 0} (Q : Stream ℤ → Type 0) (r : Result (Option (SentChunk J))) (over gone : Bool)
    (s : StreamContext J) (next : StreamContext J → Looped J)
    → ((x : Option (SentChunk J)) → r ≡ ok x → over ≡ true → Q s.decoded)
    → ((x : Option (SentChunk J)) (t : StreamContext J)
        → r ≡ ok x
        → over ≡ false
        → t.decoded ≡ s.decoded
        → t.finished ≡ s.finished
        → NotFailed (next t).ending
        → Q (next t).context.decoded)
    → NotFailed (after_chunk r over gone s next).ending
    → Q (after_chunk r over gone s next).context.decoded
unfolding after_chunk
after-keeps Q (raise e) over gone s next end more h = absurd h
after-keeps Q (ok none) true gone s next end more h = end none refl refl
after-keeps Q (ok none) false gone s next end more h = more none s refl refl refl refl h
after-keeps Q (ok (some x)) over true s next end more h = absurd h
after-keeps Q (ok (some x)) true false s next end more h = end (some x) refl refl
after-keeps Q (ok (some x)) false false s next end more h =
    more (some x) (counted s) refl refl refl refl h

module _ {J P : Type 0} (setup : Setup P) where
  decode_ids-Step :
      (parsed : Parsed J) (s : StreamContext J)
      → let s' = (decode_ids setup.decode parsed s).1 in Step (or_empty parsed.token_ids) false s s'
  unfolding decode_ids
  decode_ids-Step parsed s = go (or_empty parsed.token_ids) refl
    where
      go :
          (ids : List ℤ)
          → or_empty parsed.token_ids ≡ ids
          → Step (or_empty parsed.token_ids) false s (decode_ids setup.decode parsed s).1
      go [] e =
          rw (e, decode_ids)
            (record {
              ids_lem = sym (append-nil s.decoded.stream_buffer_ids);
              quiet = λ q. q;
              finished = refl;
            })
      go (z ∷ zs) e =
          let all = (decode_streaming-checkpoint setup.decode (z ∷ zs) s.decoded).1 in
          rw (e, decode_ids)
            (record {
              ids_lem = all;
              quiet = λ q h. absurd (not_nil s.decoded.stream_buffer_ids z zs (sym all ∙ h));
              finished = refl;
            })

  emit-decoded :
      (c : InferChunk J) (parsed : Parsed J) (d : Option DeltaMessage) (p : P) (s : StreamContext J)
      (x : Option (SentChunk J))
      → (emit setup c parsed d p s).result ≡ ok x
      → ((emit setup c parsed d p s).context.decoded ≡ s.decoded)
        × ((emit setup c parsed d p s).context.finished ≡ (is_stream_finished c || s.finished))
  unfolding emit
  emit-decoded c parsed d p s x h = go (merge_arrays (chunk_logprobs c) s.logprobs) refl h
    where
      go :
          (m : Result (Option (InferLogprobs J)))
          → merge_arrays (chunk_logprobs c) s.logprobs ≡ m
          → (emit setup c parsed d p s).result ≡ ok x
          → ((emit setup c parsed d p s).context.decoded ≡ s.decoded)
            × ((emit setup c parsed d p s).context.finished ≡ (is_stream_finished c || s.finished))
      go (raise e) f h = ground (arith, f, h)
      go (ok l) f h = rw (f, emit) (refl, refl)

  pub deliver-decoded :
      (c : InferChunk J) (parsed : Parsed J) (s : StreamContext J)
      (m : Result (Option DeltaMessage) × P) (x : Option (SentChunk J))
      → (deliver setup c parsed s m).result ≡ ok x
      → ((deliver setup c parsed s m).context.decoded ≡ s.decoded)
        × ((deliver setup c parsed s m).context.finished ≡ (is_stream_finished c || s.finished))
  unfolding deliver
  deliver-decoded c parsed s (raise e, p) x h = ground (arith, h)
  deliver-decoded c parsed s (ok d, p) x h = emit-decoded c parsed d p s x h

  pub process_stream_chunk-Step :
      (c : InferChunk J) (p : P) (s : StreamContext J) (x : Option (SentChunk J))
      → (process_stream_chunk setup c p s).result ≡ ok x
      → Step
          (ids_of setup.digit c)
          (is_stream_finished c)
          s
          (process_stream_chunk setup c p s).context
  unfolding process_stream_chunk capture parse_step
  process_stream_chunk-Step c p s x h = go (parse_stream_chunk setup.digit c true) refl h
    where
      go :
          (m : Result (Parsed J))
          → parse_stream_chunk setup.digit c true ≡ m
          → (process_stream_chunk setup c p s).result ≡ ok x
          → Step
              (ids_of setup.digit c)
              (is_stream_finished c)
              s
              (process_stream_chunk setup c p s).context
      go (raise e) f h = ground (arith, f, h)
      go (ok parsed) f h =
          let t = decode_ids setup.decode parsed (capture c s) in
          let st = decode_ids-Step parsed (capture c s) in
          let (same, over) =
            deliver-decoded c parsed t.1
              (setup.parser.parse p (or_empty t.0) (or_empty parsed.token_ids)
                (if nat_beq t.1.chunk_count 0 then some setup.prompt_ids else none))
              x (rw (f, process_stream_chunk) at h) in
          rw (f, process_stream_chunk)
            (record {
              ids_lem =
                  ap (λ (d : Stream ℤ). d.stream_buffer_ids) same
                  ∙ st.ids_lem
                  ∙ ap (λ l. s.decoded.stream_buffer_ids ++ l)
                      (sym (ids_of-ok setup.digit c parsed f));
              quiet = λ q. subst IsQuiet (sym same) (st.quiet q);
              finished = over ∙ ap (λ b. is_stream_finished c || b) st.finished;
            })

  -- The context at the end of the loop, unless it fails.
  pub loop-Step :
      (arrivals : List (Arrival J)) (p : P) (s : StreamContext J)
      → s.finished ≡ false
      → NotFailed (loop setup arrivals p s).ending
      → ((loop setup arrivals p s).context.decoded.stream_buffer_ids
          ≡ s.decoded.stream_buffer_ids ++ ids_read setup.digit arrivals)
        × (IsQuiet s.decoded → IsQuiet (loop setup arrivals p s).context.decoded)
  unfolding loop ids_read
  loop-Step [] p s n h = (sym (append-nil s.decoded.stream_buffer_ids), λ q. q)
  loop-Step (broken e ∷ more) p s n h = absurd h
  loop-Step (cancelled ∷ more) p s n h = (sym (append-nil s.decoded.stream_buffer_ids), λ q. q)
  loop-Step (chunk c ∷ more) p s n h =
      let k = process_stream_chunk setup c p s in
      after-keeps
        (λ d.
          (d.stream_buffer_ids
            ≡ s.decoded.stream_buffer_ids ++ ids_read setup.digit (chunk c ∷ more))
          × (IsQuiet s.decoded → IsQuiet d))
        k.result k.context.finished (setup.closes k.context.chunk_count) k.context
        (loop setup more k.parser)
        (λ x e over.
          let st = process_stream_chunk-Step c p s x e in
          let f = or-eq (is_stream_finished c) s.finished st.finished n ∙ over in
          (
            st.ids_lem
                ∙ rw f (
                    ap (λ l. s.decoded.stream_buffer_ids ++ l)
                      (sym (append-nil (ids_of setup.digit c)))),
            st.quiet,
          ))
        (λ x t e over same still ends.
          let st = process_stream_chunk-Step c p s x e in
          let (ids, quiet) = loop-Step more k.parser t (still ∙ over) ends in
          let f = or-eq (is_stream_finished c) s.finished st.finished n ∙ over in
          (
            ids
                ∙ ap (λ (d : Stream ℤ). d.stream_buffer_ids ++ ids_read setup.digit more) same
                ∙ ap (λ l. l ++ ids_read setup.digit more) st.ids_lem
                ∙ rw f (
                    append_assoc s.decoded.stream_buffer_ids (ids_of setup.digit c)
                      (ids_read setup.digit more)),
            λ q. quiet (subst IsQuiet (sym same) (st.quiet q)),
          ))
        h
