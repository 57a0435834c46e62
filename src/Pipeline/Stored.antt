-- ===== src/Pipeline/Stored.antt =====
-- What the token pipeline stores for a stream (`process_stream` and `_finalize_stream` of
-- traj_proxy/proxy_core/pipeline/token_pipeline.py).
use trajproxy.Base.{ℕ, ◌+◌, ◌≡◌, refl, ap, ◌∙◌, some, List, [], ◌∷◌, ◌++◌, length, arith}
use trajproxy.Models.{Result, ok, raise}
use trajproxy.Texts.{Text}
use trajproxy.Direct.{Usage}
use trajproxy.Direct.Final.{stop}
use trajproxy.Encoding.Decoding.{Stream, stream_init}
use trajproxy.Responses.Ints.{ℤ}
use trajproxy.Pipeline.{StreamContext, SentChunk}
use trajproxy.Pipeline.Streams.{
  Arrival, Ending, completed, left, closed, failed, Looped, loop, stream_context, Finishing, Row,
  StoredChoice, finalize_stream, make_row, count_tokens, decoded_or, joined_or_none, stored_choice,
  usage_or,
}
use trajproxy.Pipeline.Whole.{
  Pipeline, process_stream, run_stream, setup_of, starts_ended, conclude_stream, close, close_left,
  store_trajectory, send_usage,
}
use trajproxy.Pipeline.Kept.{NotFailed, IsQuiet, ids_read, loop-Step}

-- The row for the token ids that were read after a prompt.
pub record IsRecord {J R : Type 0} (f : Finishing J R) (prompt : Text) (ids read : List ℤ)
    (row : Row J R) : Type 0 where
  pub response_ids : row.response_ids ≡ read
  pub response_text : row.response_text ≡ decoded_or f.decode_all [] read
  pub full_text : row.full_conversation_text ≡ prompt ++ decoded_or f.decode_all [] read
  pub full_ids : row.full_conversation_token_ids ≡ joined_or_none ids read
  pub completion : row.completion_tokens ≡ length read
  pub total : row.total_tokens ≡ length ids + length read
  pub reason : row.choice.finish_reason ≡ stop

-- The response builder raises nothing.
abbrev pub BuildsAll : {J R : Type 0} → Finishing J R → Type 0
BuildsAll f = (t : Text) (c : StoredChoice _) (u : Usage _) → (r : _) × (f.build_reply t c u ≡ ok r)

-- What is stored when the repository is given the row: nothing if it raises.
abbrev pub stored_by : {J R : Type 0} → (Row J R → Result (Unit {0})) → Row J R → List (Row J R)
stored_by store row = elim (store row) [ ok done ↦ row ∷ [] | raise e ↦ [] ]

count_tokens-length : (d : Stream ℤ) → IsQuiet d → count_tokens d ≡ length d.stream_buffer_ids
unfolding count_tokens
count_tokens-length d q = go d.stream_buffer_ids d.stream_buffer_text refl refl
  where
    go :
        (ids : List ℤ) (text : Text)
        → d.stream_buffer_ids ≡ ids
        → d.stream_buffer_text ≡ text
        → count_tokens d ≡ length d.stream_buffer_ids
    go (z ∷ zs) text e f = rw (e, count_tokens) refl
    go [] [] e f = rw (e, f, count_tokens) refl
    go [] (c ∷ t) e f = cc (q e, f)

decoded_or-quiet :
    (decode : List ℤ → Text) (text : Text) (ids : List ℤ)
    → (ids ≡ [] → text ≡ [])
    → decoded_or decode text ids ≡ decoded_or decode [] ids
decoded_or-quiet decode text [] q = q refl
decoded_or-quiet decode text (z ∷ zs) q = refl

module _ {J R : Type 0} (f : Finishing J R) (prompt : Text) (ids : List ℤ) where
  make_row-IsRecord :
      (s : StreamContext J) (read : List ℤ) (r : R)
      → s.decoded.stream_buffer_ids ≡ read
      → IsQuiet s.decoded
      → IsRecord f prompt ids read (make_row f prompt ids s r)
  unfolding make_row stored_choice
  make_row-IsRecord s read r e q =
      let said =
        decoded_or-quiet f.decode_all s.decoded.stream_buffer_text s.decoded.stream_buffer_ids q
        ∙ ap (decoded_or f.decode_all []) e in
      let count = count_tokens-length s.decoded q ∙ ap length e in
      record {
        response_ids = e;
        response_text = said;
        full_text = ap (◌++◌ prompt) said;
        full_ids = ap (joined_or_none ids) e;
        completion = count;
        total = ap (◌+◌ (length ids)) count;
        reason = refl;
      }

  finalize_stream-ok :
      (s : StreamContext J)
      → BuildsAll f
      → (r : R) × (finalize_stream f prompt ids s ≡ ok (make_row f prompt ids s r))
  unfolding finalize_stream
  finalize_stream-ok s b =
      let clean =
        decoded_or f.decode_clean s.decoded.stream_buffer_text s.decoded.stream_buffer_ids in
      let (r, e) =
        b clean (stored_choice clean ids s)
          (usage_or s.usage (length ids) (count_tokens s.decoded)) in
      (r, rw (e, finalize_stream) refl)

  store_trajectory-rows :
      (store : Row J R → Result (Unit {0})) (row : Row J R)
      → f.store_row ≡ some store
      → (store_trajectory f row).1 ≡ stored_by store row
  unfolding store_trajectory
  store_trajectory-rows store row e = go (store row) refl
    where
      go :
          (m : Result (Unit {0})) → store row ≡ m → (store_trajectory f row).1 ≡ stored_by store row
      go (ok u) d = ground (arith, e, d)
      go (raise x) d = ground (arith, e, d)

  send_usage-rows :
      (sent : List (SentChunk J)) (row : Row J R) (n : ℕ) (m : Result (Unit {0}) × List (Row J R))
      → (send_usage sent row n m).rows ≡ m.1
  unfolding send_usage
  send_usage-rows sent row n (raise e, rows) = refl
  send_usage-rows sent row n (ok u, rows) = refl

  -- The row, at the end of the stream and when its task is cancelled.
  conclude_stream-rows :
      (l : Looped J) (store : Row J R → Result (Unit {0})) (row : Row J R)
      → finalize_stream f prompt ids l.context ≡ ok row
      → f.store_row ≡ some store
      → NotFailed l.ending
      → (conclude_stream f prompt ids l).rows ≡ stored_by store row
  unfolding conclude_stream close close_left
  conclude_stream-rows l store row e i n = go l.ending refl n
    where
      go :
          (m : Ending)
          → l.ending ≡ m
          → NotFailed m
          → (conclude_stream f prompt ids l).rows ≡ stored_by store row
      go completed d n =
          rw (d, conclude_stream)
            (rw (e, close)
              (send_usage-rows l.sent row (length ids) (store_trajectory f row)
                ∙ store_trajectory-rows store row i))
      go left d n = rw (d, conclude_stream) (rw (e, close_left) (store_trajectory-rows store row i))
      go closed d n = absurd n
      go (failed x) d n = absurd n

module _ {J R P : Type 0} (pipe : Pipeline J R P) (arrivals : List (Arrival J)) where
  -- The loop of a stream whose prompt was made.
  abbrev pub stream_loop : List ℤ → P → Looped J
  stream_loop ids p =
      loop (setup_of pipe ids) arrivals p (stream_context (starts_ended pipe.parser p ids))

  -- If the prompt is made, the response builder raises nothing, and the stream comes to its end
  -- or its task is cancelled, then the repository is given one row, and this row is all that is
  -- stored, unless the repository raises. Its token ids are those of all chunks that have
  -- arrived, up to the first with a reason to finish; its text is their decoding with the special
  -- tokens, and empty without ids, whatever text the chunks had; the conversation is the prompt
  -- and this text, and the prompt's ids and these ids if there are both; the tokens are counted
  -- exactly; and the reason to finish is "stop", whatever the service gave.
  pub process_stream-IsRecord :
      (prompt : Text) (ids : List ℤ) (p : P) (store : Row J R → Result (Unit {0}))
      → pipe.transform ≡ ok prompt
      → pipe.encode prompt ≡ ok ids
      → pipe.create ≡ ok p
      → pipe.finishing.store_row ≡ some store
      → BuildsAll pipe.finishing
      → NotFailed (stream_loop ids p).ending
      → (row : Row J R) × ((process_stream pipe arrivals).rows ≡ stored_by store row)
        × IsRecord pipe.finishing prompt ids (ids_read pipe.digit arrivals) row
  unfolding process_stream run_stream stream_init
  process_stream-IsRecord prompt ids p store t e c i b n =
      let l = stream_loop ids p in
      let (all, quiet) =
        loop-Step (setup_of pipe ids) arrivals p (stream_context (starts_ended pipe.parser p ids))
          refl n in
      let (r, fin) = finalize_stream-ok pipe.finishing prompt ids l.context b in
      (
        make_row pipe.finishing prompt ids l.context r,
        rw (t, process_stream)
            (rw (e, process_stream)
              (rw (c, process_stream)
                (conclude_stream-rows pipe.finishing prompt ids l store _ fin i n))),
        make_row-IsRecord pipe.finishing prompt ids l.context _ r all (quiet (λ h. refl)),
      )
