-- ===== src/Parsers/Plain.antt =====
-- A model without parsers: a stream of the token pipeline (`process_stream` of
-- traj_proxy/proxy_core/pipeline/token_pipeline.py, with `parse_delta` of
-- traj_proxy/proxy_core/parsers/parser_manager.py) sends the decoded text.
use trajproxy.Base.{
  ℕ, ◌≡◌, refl, sym, ap, ◌∙◌, Bool, true, false, Option, none, some, List, [], ◌∷◌, ◌++◌, nat_beq,
  append-nil, Bool-cases, inl, inr,
}
use mathlib.Core.Path.{subst}
use trajproxy.Models.{Result, ok, raise}
use trajproxy.Texts.{Text, or_empty}
use trajproxy.Encoding.Decoding.Windows.{IsDecoder, IsAligned, Appends, decode_streaming-Extends}
use trajproxy.Responses.Ints.{ℤ}
use trajproxy.Responses.{InferChunk, InferLogprobs, Parsed, parse_stream_chunk}
use trajproxy.Pipeline.{
  SentChunk, StreamContext, DeltaMessage, Calls, decode_ids, merge_arrays, chunk_logprobs,
  effective_calls, build_chunk, finish_of, delta_content, has_text, or_first,
}
use trajproxy.Pipeline.Chunks.{Setup, is_worth, emit, deliver}
use trajproxy.Pipeline.Streams.{Arrival, chunk, broken, cancelled}
use trajproxy.Pipeline.Told.{or-false}
use trajproxy.Parsers.{SubParsers, ToolChoice, TextDelta, Machine, no_delta}
use trajproxy.Parsers.Deltas.{parse_delta}

abbrev pub plain : {P : Type 0} → SubParsers P
plain = record { reasoning = none; tool = none }

abbrev pub says : Text → DeltaMessage
says t = record no_delta { content = some t }

pub parse_delta-plain :
    {P : Type 0} (choice : ToolChoice) (d : TextDelta) (m : Machine P)
    → (parse_delta plain choice d m).0 ≡ ok (some (says d.text))
unfolding parse_delta
parse_delta-plain choice d m = refl

-- The text of what is sent.
abbrev pub said : {J : Type 0} → Option (SentChunk J) → Text
said none = []
said (some x) = or_empty x.content

abbrev pub all_said : {J : Type 0} → List (SentChunk J) → Text
all_said [] = []
all_said (x ∷ xs) = or_empty x.content ++ all_said xs

pub or_first-said : (t : Option Text) (first : Bool) → or_empty (or_first t first) ≡ or_empty t
or_first-said none true = refl
or_first-said none false = refl
or_first-said (some t) first = refl

pub has_text-false : (t : Option Text) → has_text t ≡ false → or_empty t ≡ []
has_text-false none h = refl
has_text-false (some []) h = refl
has_text-false (some (c ∷ t)) h = cc (h)

-- A chunk without token ids has no text.
abbrev pub IsQuietChunk : {J : Type 0} → (ℕ → Option ℕ) → InferChunk J → Type 0
IsQuietChunk digit c =
    (parsed : Parsed _)
    → parse_stream_chunk digit c true ≡ ok parsed
    → or_empty parsed.token_ids ≡ []
    → or_empty parsed.content ≡ []

-- Every chunk that arrives without token ids has no text.
abbrev pub AreQuiet : {J : Type 0} → (ℕ → Option ℕ) → List (Arrival J) → Type 0
AreQuiet digit [] = Unit
AreQuiet digit (broken e ∷ more) = AreQuiet digit more
AreQuiet digit (cancelled ∷ more) = AreQuiet digit more
AreQuiet digit (chunk c ∷ more) = IsQuietChunk digit c × AreQuiet digit more

content_of_ok :
    (d : Option DeltaMessage) (t : Text)
    → ◌≡◌ {A = Result (Option DeltaMessage)} (ok d) (ok (some (says t)))
    → or_empty (delta_content d) ≡ t
content_of_ok d t h =
    let e : d ≡ some (says t) = cc (h) in
    ap (λ (x : Option DeltaMessage). or_empty (delta_content x)) e

-- A chunk that was handled says this text.
abbrev pub Says : {J : Type 0} → Text → Result (Option (SentChunk J)) → Type 0
Says t (raise e) = Unit
Says t (ok x) = said x ≡ t

module _ {J P : Type 0} (setup : Setup P) where
  pub emit-Says :
      (c : InferChunk J) (parsed : Parsed J) (d : Option DeltaMessage) (p : P) (s : StreamContext J)
      → Says (or_empty (delta_content d)) (emit setup c parsed d p s).result
  unfolding emit build_chunk is_worth
  emit-Says c parsed d p s = go (merge_arrays (chunk_logprobs c) s.logprobs) refl
    where
      calls : Option (Calls J)
      calls = effective_calls d parsed.tool_calls

      finish : Option Text
      finish = finish_of (setup.parser.called p) c

      go :
          (m : Result (Option (InferLogprobs J)))
          → merge_arrays (chunk_logprobs c) s.logprobs ≡ m
          → Says (or_empty (delta_content d)) (emit setup c parsed d p s).result
      go (raise e) f = rw (f, emit) tt
      go (ok l) f = elim (Bool-cases (is_worth d calls finish s)) [
        | inl t ↦
            rw (f, emit) (rw (t, emit) (or_first-said (delta_content d) (nat_beq s.chunk_count 0)))
        | inr t ↦
            rw (f, emit)
              (rw (t, emit)
                (sym
                  (has_text-false (delta_content d) (or-false (has_text (delta_content d)) _ t).0)))
      ]

  pub deliver-Says :
      (c : InferChunk J) (parsed : Parsed J) (s : StreamContext J) (t : Text)
      (m : Result (Option DeltaMessage) × P)
      → m.0 ≡ ok (some (says t))
      → Says t (deliver setup c parsed s m).result
  unfolding deliver
  deliver-Says c parsed s t (raise e, p) h = tt
  deliver-Says c parsed s t (ok d, p) h =
      subst (λ (x : Text). Says x (emit setup c parsed d p s).result) (content_of_ok d t h)
        (emit-Says c parsed d p s)

  -- What token ids add to the decoded text is what is said.
  pub decode_ids-grows :
      (laws : IsDecoder setup.decode) (parsed : Parsed J) (s : StreamContext J)
      → IsAligned setup.decode s.decoded
      → Appends setup.decode s.decoded.stream_buffer_ids (or_empty parsed.token_ids)
      → (or_empty parsed.token_ids ≡ [] → or_empty parsed.content ≡ [])
      → (setup.decode (s.decoded.stream_buffer_ids ++ or_empty parsed.token_ids)
          ≡ setup.decode s.decoded.stream_buffer_ids
            ++ or_empty (decode_ids setup.decode parsed s).0)
        × IsAligned setup.decode (decode_ids setup.decode parsed s).1.decoded
        × ((decode_ids setup.decode parsed s).1.decoded.stream_buffer_ids
            ≡ s.decoded.stream_buffer_ids ++ or_empty parsed.token_ids)
  unfolding decode_ids
  decode_ids-grows laws parsed s al grows q = go (or_empty parsed.token_ids) refl
    where
      b : List ℤ
      b = s.decoded.stream_buffer_ids

      go :
          (ids : List ℤ)
          → or_empty parsed.token_ids ≡ ids
          → (setup.decode (s.decoded.stream_buffer_ids ++ or_empty parsed.token_ids)
              ≡ setup.decode s.decoded.stream_buffer_ids
                ++ or_empty (decode_ids setup.decode parsed s).0)
            × IsAligned setup.decode (decode_ids setup.decode parsed s).1.decoded
            × ((decode_ids setup.decode parsed s).1.decoded.stream_buffer_ids
                ≡ s.decoded.stream_buffer_ids ++ or_empty parsed.token_ids)
      go [] e =
          rw (e, decode_ids)
            (
              ap setup.decode (append-nil b)
                  ∙ sym (append-nil (setup.decode b))
                  ∙ ap (λ t. setup.decode b ++ t) (sym (q e)),
              al,
              sym (append-nil b),
            )
      go (z ∷ zs) e =
          rw (e, decode_ids)
            (decode_streaming-Extends setup.decode laws (z ∷ zs) s.decoded al
              (subst (λ (l : List ℤ). Appends setup.decode s.decoded.stream_buffer_ids l) e grows))
